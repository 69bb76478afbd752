-- ===== src/RefObject/Invariant.antt =====
-- What holds of the object and its threads in every reachable state.
use erlang_rocksdb.Prelude.{ℕ, ◌+◌, ◌^◌, ◌≤◌, ◌<◌, ◌≡◌, some, ◌==◌, ltb, if◌then◌else◌, arith}
use erlang_rocksdb.RefObject.{
  Object, returns, awaits, Pc, retrieving, retrieved, using, releasing, swapping, destructing,
  unlocking, requesting, closing, awaiting, done, finish, advance,
}

-- The thread holds a counted reference, or the one that `Create...` took and a close gives back.
abbrev pub owns : Pc → ℕ
owns using = 1
owns (releasing k) = 1
owns _ = 0

abbrev pub swaps : Pc → ℕ
swaps (swapping k) = 1
swaps _ = 0

abbrev pub destroys : Pc → ℕ
destroys (destructing k) = 1
destroys _ = 0

-- The object beside the number of threads that own a reference, that found the count at 0, and that
-- run the destructor.
pub record IsCounted (o : Object) (owners swappers destroyers : ℕ) : Type 0 where
  pub counted : o.ref_count ≡ owners + (if o.close_requested == 0 then 1 else 0)
  pub phase : o.close_requested ≤ 3
  pub one_destructor : destroyers + o.destructors ≡ (if ltb 1 o.close_requested then 1 else 0)
  pub destructed : o.destructors ≡ (if o.close_requested == 3 then 1 else 0)
  pub pending : o.close_requested ≡ 1 → 1 ≤ owners + swappers
  pub reached_0 : 1 ≤ swappers → (1 ≤ o.close_requested) × (owners ≤ o.late)
  pub closed_owners : 2 ≤ o.close_requested → owners ≤ o.late

-- The counts after a thread has gone from `p` to `p'`.
pub record Moved (p p' : Pc) (a b c a' b' c' : ℕ) : Type 0 where
  pub owners : a' + owns p ≡ a + owns p'
  pub swappers : b' + swaps p ≡ b + swaps p'
  pub destroyers : c' + destroys p ≡ c + destroys p'
  pub small : (a + 1 < 2 ^ 32) × (a' + 1 < 2 ^ 32)

module _ {o o' : Object} {a b c a' b' c' : ℕ} (inv : IsCounted o a b c) where
  pub advance-IsCounted :
      (p p' : Pc) → Moved p p' a b c a' b' c' → advance p o ≡ some (p', o') → IsCounted o' a' b' c'
  unfolding advance finish
  advance-IsCounted retrieving p' m h = ground arith
  advance-IsCounted retrieved p' m h = ground arith
  advance-IsCounted using p' m h = ground arith
  advance-IsCounted (releasing returns) p' m h = ground arith
  advance-IsCounted (releasing awaits) p' m h = ground arith
  advance-IsCounted (swapping returns) p' m h = ground arith
  advance-IsCounted (swapping awaits) p' m h = ground arith
  advance-IsCounted (destructing k) p' m h = ground arith
  advance-IsCounted (unlocking returns) p' m h = ground arith
  advance-IsCounted (unlocking awaits) p' m h = ground arith
  advance-IsCounted (requesting returns) p' m h = ground arith
  advance-IsCounted (requesting awaits) p' m h = ground arith
  advance-IsCounted (closing returns) p' m h = ground arith
  advance-IsCounted (closing awaits) p' m h = ground arith
  advance-IsCounted awaiting p' m h = ground arith
  advance-IsCounted done p' m h = cc
