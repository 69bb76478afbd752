-- ===== src/DbObject/Steps.antt =====
-- Calls on a database and its children, in any order.
use erlang_rocksdb.Prelude.{ℕ, ◌+◌, ◌≤◌, ◌<◌, ◌^◌, ◌≡◌, true, some, [], get_elem?}
use erlang_rocksdb.DbObject.{
  Kind, column_family, Child, Db, destroy_column_family, close_child, close_db, create, hold_db,
  release_db, hold_child, release_child,
}

-- After `CreateDbObject`, the constructor's 0 and one `RefInc`.
abbrev pub opened : Db
opened = record {
  refs = record { ref_count = 1; close_requested = 0; handle = true };
  holders = 0;
  lists = λ k. [];
  children = [];
  events = [];
}

-- What gives a reference back has one, and counters have room for one more.
pub data Step (db : Db) : Db → Type 0 where
  creates : (k : Kind) → 1 ≤ db.holders → db.refs.ref_count + 1 < 2 ^ 32 → Step db (create k db)
  holds_db : (db' : Db) → hold_db db ≡ some db' → db.refs.ref_count + 1 < 2 ^ 32 → Step db db'
  releases_db : 1 ≤ db.holders → Step db (release_db db)
  holds_child :
      (i : ℕ) (c : Child) (db' : Db)
      → get_elem? db.children i ≡ some c
      → c.refs.ref_count + 1 < 2 ^ 32
      → hold_child i db ≡ some db'
      → Step db db'
  releases_child :
      (i : ℕ) (c : Child)
      → get_elem? db.children i ≡ some c
      → 1 ≤ c.holders
      → Step db (release_child i db)
  destroys_column_family :
      (i : ℕ) (c : Child)
      → get_elem? db.children i ≡ some c
      → c.kind ≡ column_family
      → 1 ≤ c.holders
      → Step db (destroy_column_family i db)
  closes_child : (i : ℕ) → Step db (close_child i db)
  closes_db : Step db (close_db db)

pub data Reach : Db → Type 0 where
  start : Reach opened
  later : {db db' : Db} → Reach db → Step db db' → Reach db'
