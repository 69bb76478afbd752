-- ===== src/RefObject/Steps.antt =====
-- Threads over one object, interleaved in any order.
use erlang_rocksdb.Prelude.{ℕ, ◌≡◌, false, some, List, get_elem?, set}
use erlang_rocksdb.RefObject.{Object, After, Pc, retrieving, requesting, advance}

pub record System : Type 0 where
  pub object : Object
  pub threads : List Pc

pub data Step (s : System) : System → Type 0 where
  pick :
      (i : ℕ) (p p' : Pc) (o' : Object)
      → get_elem? s.threads i ≡ some p
      → advance p s.object ≡ some (p', o')
      → Step s (record { object = o'; threads = set s.threads i p' })

-- After `CreateDbObject` and the like: the constructor's 0 and one `RefInc`.
abbrev pub created : Object
created = record { ref_count = 1; close_requested = 0; destructors = 0; late = 0; freed = false }

-- A call on the object, or a request to close it. Threads that come later stand at their start.
pub data Starts : Pc → Type 0 where
  call : Starts retrieving
  close : (k : After) → Starts (requesting k)

pub data Reach (threads : List Pc) : System → Type 0 where
  start : Reach threads (record { object = created; threads = threads })
  later : {s t : System} → Reach threads s → Step s t → Reach threads t
