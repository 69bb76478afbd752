-- ===== src/DbObject.antt =====
-- `DbObject` and the objects that hold a reference to it, c_src/refobjects.h and
-- c_src/refobjects.cc: what a close of one or of all does. Each call is taken as a whole.
pub mod Steps
pub mod Balance
pub mod Branches
pub mod Loops
pub mod Invariant
pub mod Lifetime
pub mod Order
pub mod Destroyed
pub mod Releases
pub mod Shutdown
pub mod Closing
pub mod Listed
pub mod Closed
use erlang_rocksdb.Prelude.{
  ℕ, zero, suc, ◌+◌, ◌-◌, ◌%◌, ◌^◌, Bool, true, false, not, ◌&&◌, ◌||◌, Option, none, some, List,
  [], ◌∷◌, ◌++◌, length, get_elem?, set, ◌==◌, if◌then◌else◌,
}
use erlang_rocksdb.Bytes.BigEndian.{to_u32}

-- The classes whose objects hold a `ReferencePtr<DbObject>`, each with a list in `DbObject`.
pub data Kind : Type 0 where
  iterator column_family snapshot tlog_iterator transaction : Kind

abbrev pub same_kind : Kind → Kind → Bool
same_kind iterator iterator = true
same_kind column_family column_family = true
same_kind snapshot snapshot = true
same_kind tlog_iterator tlog_iterator = true
same_kind transaction transaction = true
same_kind _ _ = false

-- The counters of an `ErlRefObject`, and whether its destructor is still to give RocksDB's object back
-- (`m_Iterator`, `m_Snapshot`, `m_Db` and so on).
pub record Counted : Type 0 where
  pub ref_count : ℕ
  pub close_requested : ℕ
  pub handle : Bool

-- `holders` are the calls that hold a `ReferencePtr` to it. `destroyed` is whether
-- `DestroyColumnFamily` has given its handle back and set `m_ColumnFamily` to NULL.
pub record Child : Type 0 where
  pub kind : Kind
  pub refs : Counted
  pub holders : ℕ
  pub destroyed : Bool

-- What is given back to RocksDB: the handle of a child, and the database itself.
pub data Event : Type 0 where
  released : ℕ → Event
  db_closed : Event

-- A child is named by its place in `children`; its memory stays while Erlang refers to it.
pub record Db : Type 0 where
  pub refs : Counted
  pub holders : ℕ
  pub lists : Kind → List ℕ
  pub children : List Child
  pub events : List Event  -- the latest first

abbrev pub inc : Counted → Counted
inc c = record c { ref_count = to_u32 (c.ref_count + 1) }

abbrev pub dec : Counted → Counted
dec c = record c { ref_count = to_u32 (c.ref_count + (2 ^ 32 - 1)) }

abbrev pub requested : Counted → Counted
requested c = record c { close_requested = 1 }

abbrev pub destructed : Counted → Counted
destructed c = record c { close_requested = 3; handle = false }

-- `ErlRefObject::RefDec`, with the destructor where this is the last reference: what becomes of the
-- object, and whether it was destructed.
unfoldable pub ref_dec : Counted → Counted × Bool
ref_dec c =
    if (dec c).ref_count == 0 && c.close_requested == 1
    then (destructed (dec c), true)
    else (dec c, false)

-- `m_ItrList.remove(ItrPtr)` and so on.
unfoldable pub remove : ℕ → List ℕ → List ℕ
remove i [] = []
remove i (j ∷ js) = let rest = remove i js in if j == i then rest else j ∷ rest

abbrev pub update_list : Kind → (List ℕ → List ℕ) → (Kind → List ℕ) → Kind → List ℕ
update_list k f lists k' = if same_kind k k' then f (lists k') else lists k'

-- `RefDec` of the database. Its destructor deletes `m_Db`.
unfoldable pub db_ref_dec : Db → Db
db_ref_dec db = record db {
  refs = (ref_dec db.refs).0;
  events = if (ref_dec db.refs).1 then db_closed ∷ db.events else db.events;
}

-- The handle of child `i`, which is `c`, unless the pointer to it is NULL.
abbrev pub give_back : ℕ → Child → List Event → List Event
give_back i c events = if c.destroyed then events else released i ∷ events

-- The destructor of a child: it leaves its list, gives its handle back, and its `m_DbPtr` ends.
unfoldable pub forget : ℕ → Child → Db → Db
unfolding db_ref_dec remove
forget i c db =
    db_ref_dec (record db {
      lists = update_list c.kind (remove i) db.lists;
      events = give_back i c db.events;
    })

abbrev pub set_child : ℕ → Child → Db → Db
set_child i c db = record db { children = set db.children i c }

-- `RefDec` of child `i`, which is `c`.
unfoldable pub child_ref_dec : ℕ → Child → Db → Db
unfolding forget
child_ref_dec i c db =
    let db' = set_child i (record c { refs = (ref_dec c.refs).0 }) db in
    if (ref_dec c.refs).1 then forget i c db' else db'

-- `InitiateCloseRequest` of child `i`; its `Shutdown` is `RefDec`.
unfoldable pub close_child : ℕ → Db → Db
unfolding child_ref_dec
close_child i db = elim (get_elem? db.children i) [
  | none ↦ db
  | some c ↦
      if c.refs.close_requested == 0
      then child_ref_dec i (record c { refs = requested c.refs }) db
      else db
]

-- One loop of `DbObject::Shutdown`: take the front of the list and close it, until the list is empty.
unfoldable pub close_list : ℕ → Kind → Db → Db
close_list zero k db = db
close_list (suc fuel) k db = elim (db.lists k) [
  | [] ↦ db
  | i ∷ rest ↦
      close_list fuel k (close_child i (record db { lists = update_list k (λ l. rest) db.lists }))
]

-- A round takes one from the list, and nothing is added, so the length is enough fuel.
unfoldable pub close_all : Kind → Db → Db
unfolding close_list
close_all k db = close_list (length (db.lists k)) k db

unfoldable pub close_children : Db → Db
unfolding close_all
close_children db =
    close_all transaction (
      close_all tlog_iterator
        (close_all snapshot (close_all column_family (close_all iterator db))))

-- `InitiateCloseRequest` of the database, with `DbObject::Shutdown`.
unfoldable pub close_db : Db → Db
unfolding close_children
close_db db =
    if db.refs.close_requested == 0
    then db_ref_dec (close_children (record db { refs = requested db.refs }))
    else db

-- `AddReference` keeps no iterator of a database that is closing; the other lists keep all.
abbrev pub kept_in_list : Kind → ℕ → Bool
kept_in_list iterator close_requested = close_requested == 0
kept_in_list _ close_requested = true

-- `CreateItrObject` and the like, by a call that holds the database.
unfoldable pub create : Kind → Db → Db
create k db = record db {
  refs = inc db.refs;
  lists =
      if kept_in_list k db.refs.close_requested
      then update_list k (λ l. l ++ length db.children ∷ []) db.lists
      else db.lists;
  children =
      db.children
      ++ record {
        kind = k;
        refs = record { ref_count = 1; close_requested = 0; handle = true };
        holders = 0;
        destroyed = false;
      }
        ∷ [];
}

-- A call takes a reference (`enif_get_db`, `Retrieve...` and `assign`) and gives it back.
unfoldable pub hold_db : Db → Option Db
hold_db db =
    if db.refs.close_requested == 0
    then some (record db { refs = inc db.refs; holders = suc db.holders })
    else none

unfoldable pub release_db : Db → Db
unfolding db_ref_dec
release_db db = db_ref_dec (record db { holders = db.holders - 1 })

-- `RetrieveItrObject` also asks whether the database is closing.
abbrev pub open_to_calls : Child → Db → Bool
open_to_calls c db =
    c.refs.close_requested == 0 && (not (same_kind iterator c.kind) || db.refs.close_requested == 0)

unfoldable pub hold_child : ℕ → Db → Option Db
hold_child i db = elim (get_elem? db.children i) [
  | none ↦ none
  | some c ↦
      if open_to_calls c db
      then some (set_child i (record c { refs = inc c.refs; holders = suc c.holders }) db)
      else none
]

unfoldable pub release_child : ℕ → Db → Db
unfolding child_ref_dec
release_child i db = elim (get_elem? db.children i) [
  | none ↦ db
  | some c ↦ child_ref_dec i (record c { holders = c.holders - 1 }) db
]

-- What `DestroyColumnFamily` does while it holds the column family `i`. RocksDB refuses only the
-- handle that `DefaultColumnFamily` returns, which is no object's, and does nothing on NULL.
unfoldable pub destroy_column_family : ℕ → Db → Db
unfolding close_child
destroy_column_family i db = elim (get_elem? db.children i) [
  | none ↦ db
  | some c ↦
      close_child i (record (set_child i (record c { destroyed = true }) db) {
        events = give_back i c db.events;
      })
]
