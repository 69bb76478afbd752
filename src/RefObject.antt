-- ===== src/RefObject.antt =====
-- `RefObject` and `ErlRefObject` of c_src/refobjects.h and c_src/refobjects.cc: one object that
-- several threads retrieve, count and close, an atomic access at a time.
pub mod Tally
pub mod Steps
pub mod Invariant
pub mod Safety
pub mod Progress
use erlang_rocksdb.Prelude.{
  ℕ, suc, ◌+◌, ◌-◌, ◌%◌, ◌^◌, Bool, true, false, Option, none, some, ◌==◌, if◌then◌else◌,
}
use erlang_rocksdb.Bytes.BigEndian.{to_u32}

-- The counters, with what an observer notes: how often a destructor has run, how many references
-- were taken after the close was requested, and whether the runtime has the memory back.
pub record Object : Type 0 where
  pub ref_count : ℕ
  pub close_requested : ℕ
  pub destructors : ℕ
  pub late : ℕ
  pub freed : Bool

-- What a thread does after its close request or its release: return, or wait for the destructor.
pub data After : Type 0 where
  returns awaits : After

-- Where a thread stands.
pub data Pc : Type 0 where
  retrieving : Pc  -- in `RetrieveDbObject` and the like, before the test of `m_CloseRequested`
  retrieved : Pc  -- in `ReferencePtr::assign`, before `RefInc`
  using : Pc  -- a `ReferencePtr` is held
  releasing : After → Pc  -- in `RefDec`, before `--m_RefCount`
  swapping : After → Pc  -- the count was 0, before the swap of 1 for 2
  destructing : After → Pc  -- in the destructor, before `m_CloseRequested=3`
  unlocking : After → Pc  -- in the destructor, before `lk.unlock()`
  requesting : After → Pc  -- in `InitiateCloseRequest`, before the test
  closing : After → Pc  -- before the swap of 0 for 1
  awaiting : Pc  -- in `AwaitCloseAndDestructor`
  done : Pc

unfoldable pub finish : After → Pc
finish returns = done
finish awaits = awaiting

-- `++m_RefCount` and `--m_RefCount` on `uint32_t`.
abbrev pub ref_inc : Object → Object
ref_inc o = record o { ref_count = to_u32 (o.ref_count + 1) }

abbrev pub ref_dec : Object → Object
ref_dec o = record o { ref_count = to_u32 (o.ref_count + (2 ^ 32 - 1)) }

-- `compare_and_swap(m_CloseRequested, expected, val)`
unfoldable pub compare_and_swap : ℕ → ℕ → Object → Option Object
compare_and_swap expected val o =
    if o.close_requested == expected then some (record o { close_requested = val }) else none

-- One atomic access of a thread; `none` is a thread that waits or has returned. `Shutdown` of an
-- object other than a database is `RefDec`.
unfoldable pub advance : Pc → Object → Option (Pc × Object)
unfolding compare_and_swap
advance retrieving o = some (if o.close_requested == 0 then retrieved else done, o)
advance retrieved o =
    some
      (using, record (ref_inc o) { late = if o.close_requested == 0 then o.late else suc o.late })
advance using o = some (releasing returns, o)
advance (releasing k) o =
    some (if (ref_dec o).ref_count == 0 then swapping k else finish k, ref_dec o)
advance (swapping k) o = elim (compare_and_swap 1 2 o) [
  | some o' ↦ some (destructing k, o')
  | none ↦ some (finish k, o)
]
advance (destructing k) o =
    some (unlocking k, record o { close_requested = 3; destructors = suc o.destructors })
advance (unlocking k) o = some (finish k, o)
advance (requesting k) o = some (if o.close_requested == 0 then closing k else finish k, o)
advance (closing k) o = elim (compare_and_swap 0 1 o) [
  | some o' ↦ some (releasing k, o')
  | none ↦ some (finish k, o)
]
advance awaiting o = if o.close_requested == 3 then some (done, record o { freed = true }) else none
advance done o = none
