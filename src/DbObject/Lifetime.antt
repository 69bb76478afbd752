-- ===== src/DbObject/Lifetime.antt =====
-- In every reachable state the counts agree, and the database outlives its children.
use erlang_rocksdb.Prelude.{
  ℕ, ◌+◌, ◌-◌, ◌^◌, ◌≤◌, ◌<◌, ◌≡◌, ◌≢◌, sym, subst, true, some, get_elem?, arith, inl, inr,
  get_elem?-append,
}
use erlang_rocksdb.RefObject.Tally.{tally-append, le-tally}
use erlang_rocksdb.DbObject.{
  Kind, Child, Db, inc, requested, set_child, close_children, close_db, create, hold_db, release_db,
  hold_child, release_child,
}
use erlang_rocksdb.DbObject.Branches.{
  close_db-cases, hold_db-result, held_child, hold_child-result, release_child-result,
}
use erlang_rocksdb.DbObject.Balance.{IsBalanced, requested-IsBalanced, inc-IsBalanced}
use erlang_rocksdb.DbObject.Steps.{
  opened, Step, creates, holds_db, releases_db, holds_child, releases_child, destroys_column_family,
  closes_child, closes_db, Reach, start, later,
}
use erlang_rocksdb.DbObject.Destroyed.{destroy-result, taken-IsCoherent}
use erlang_rocksdb.DbObject.Loops.{close_children_keeps}
use erlang_rocksdb.DbObject.Invariant.{
  alive, IsCoherent, db_ref_dec-IsCoherent, set_child-IsCoherent, child_ref_dec-IsCoherent,
  close_child-IsCoherent,
}

pub close_children-IsCoherent :
    (e : ℕ) (db : Db) → IsCoherent e db → IsCoherent e (close_children db)
close_children-IsCoherent e db h =
    close_children_keeps (IsCoherent e)
      (λ k i rest d q p.
        close_child-IsCoherent e i _ (record { own = p.own; children = p.children }))
      db h

-- While it runs, the closing call holds the reference that `Create...` took.
pub request_db-IsCoherent :
    (db : Db)
    → db.refs.close_requested ≡ 0
    → IsCoherent 0 db
    → IsCoherent 1 (record db { refs = requested db.refs })
request_db-IsCoherent db q h = record {
  own =
      subst (λ n. IsBalanced (requested db.refs) n) (omega arith)
        (requested-IsBalanced db.refs _ q h.own);
  children = h.children;
}

close_db-IsCoherent : (db : Db) → IsCoherent 0 db → IsCoherent 0 (close_db db)
close_db-IsCoherent db h = elim (close_db-cases db) [
  | inl unchanged ↦ subst (IsCoherent 0) (sym unchanged.0) h
  | inr p ↦
      subst (IsCoherent 0) (sym p.1)
        (db_ref_dec-IsCoherent 0 _ (close_children-IsCoherent 1 _ (request_db-IsCoherent db p.0 h)))
]

-- Somebody holds the database, so its destructor has not run.
db_held : (db : Db) → 1 ≤ db.holders → IsCoherent 0 db → db.refs.close_requested ≢ 3
db_held db l h q = omega (arith, h.own.ended q)

create-IsCoherent :
    (k : Kind) (db : Db)
    → 1 ≤ db.holders
    → db.refs.ref_count + 1 < 2 ^ 32
    → IsCoherent 0 db
    → IsCoherent 0 (create k db)
unfolding create
create-IsCoherent k db l small h = record {
  own =
      subst (λ n. IsBalanced (inc db.refs) n) (omega (arith, tally-append alive db.children _))
        (inc-IsBalanced db.refs _ small (db_held db l h) h.own);
  children = λ j d f. elim (get_elem?-append db.children _ j d f) [
    | inl p ↦ subst (λ x. IsBalanced x.refs x.holders) (sym p.1) fresh
    | inr p ↦ h.children j d p
  ];
}
  where
    fresh : IsBalanced (record { ref_count = 1; close_requested = 0; handle = true }) 0
    fresh = ground arith

hold_db-IsCoherent :
    (db db' : Db)
    → hold_db db ≡ some db'
    → db.refs.ref_count + 1 < 2 ^ 32
    → IsCoherent 0 db
    → IsCoherent 0 db'
hold_db-IsCoherent db db' q small h =
    let (open_, same) = hold_db-result db db' q in
    subst (IsCoherent 0) (sym same) (record {
      own =
          subst (λ n. IsBalanced (inc db.refs) n) (omega arith)
            (inc-IsBalanced db.refs _ small (ground arith) h.own);
      children = h.children;
    })

pub give_back-IsCoherent :
    (db : Db)
    → 1 ≤ db.holders
    → IsCoherent 0 db
    → IsCoherent 1 (record db { holders = db.holders - 1 })
give_back-IsCoherent db l h = record {
  own = subst (λ n. IsBalanced db.refs n) (omega arith) h.own;
  children = h.children;
}

release_db-IsCoherent : (db : Db) → 1 ≤ db.holders → IsCoherent 0 db → IsCoherent 0 (release_db db)
unfolding release_db
release_db-IsCoherent db l h = db_ref_dec-IsCoherent 0 _ (give_back-IsCoherent db l h)

hold_child-IsCoherent :
    (i : ℕ) (c : Child) (db db' : Db)
    → get_elem? db.children i ≡ some c
    → c.refs.ref_count + 1 < 2 ^ 32
    → hold_child i db ≡ some db'
    → IsCoherent 0 db
    → IsCoherent 0 db'
hold_child-IsCoherent i c db db' g small q h =
    let (open_, same) = hold_child-result i c db db' g q in
    subst (IsCoherent 0) (sym same) (
      subst (λ n. IsCoherent n (set_child i (held_child c) db)) (ground arith)
        (set_child-IsCoherent 0 i (held_child c) c db h g (ground arith)
          (inc-IsBalanced c.refs c.holders small (ground arith) (h.children i c g))))

release_child-IsCoherent :
    (i : ℕ) (c : Child) (db : Db)
    → get_elem? db.children i ≡ some c
    → 1 ≤ c.holders
    → IsCoherent 0 db
    → IsCoherent 0 (release_child i db)
release_child-IsCoherent i c db g l h = subst (IsCoherent 0) (sym (release_child-result i c db g)) (
    child_ref_dec-IsCoherent 0 i _ c db g (ground (arith, (h.children i c g).ended))
      (subst (λ n. IsBalanced c.refs n) (omega arith) (h.children i c g)) h)

pub Step-IsCoherent : {db db' : Db} → Step db db' → IsCoherent 0 db → IsCoherent 0 db'
Step-IsCoherent {db} (creates k l small) h = create-IsCoherent k db l small h
Step-IsCoherent {db} (holds_db db' q small) h = hold_db-IsCoherent db db' q small h
Step-IsCoherent {db} (releases_db l) h = release_db-IsCoherent db l h
Step-IsCoherent {db} (holds_child i c db' g small q) h =
    hold_child-IsCoherent i c db db' g small q h
Step-IsCoherent {db} (releases_child i c g l) h = release_child-IsCoherent i c db g l h
Step-IsCoherent {db} (destroys_column_family i c g k l) h =
    subst (IsCoherent 0) (sym (destroy-result i c db g))
      (close_child-IsCoherent 0 i _ (taken-IsCoherent i c db g l h))
Step-IsCoherent {db} (closes_child i) h = close_child-IsCoherent 0 i db h
Step-IsCoherent {db} closes_db h = close_db-IsCoherent db h

pub opened-IsCoherent : IsCoherent 0 opened
opened-IsCoherent = record { own = ground arith; children = λ i c g. cc }

pub Reach-IsCoherent : {db : Db} → Reach db → IsCoherent 0 db
Reach-IsCoherent start = opened-IsCoherent
Reach-IsCoherent (later r st) = Step-IsCoherent st (Reach-IsCoherent r)

-- In every reachable state, while RocksDB's handle of some child has not been given back, the
-- database has not been deleted.
pub Reach-children_first :
    {db : Db} (i : ℕ) (c : Child)
    → Reach db
    → get_elem? db.children i ≡ some c
    → c.refs.handle ≡ true
    → db.refs.handle ≡ true
Reach-children_first {db} i c r g live =
    let h = Reach-IsCoherent r in
    ground (
      arith,
      h.own.released,
      h.own.ended,
      (h.children i c g).released,
      le-tally alive db.children i c g,
    )
