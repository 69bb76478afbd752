-- ===== src/DbObject/Branches.antt =====
-- The branches of the calls on a database and its children, as equations.
use erlang_rocksdb.Prelude.{
  ℕ, suc, ◌-◌, ◌≡◌, ◌≢◌, refl, ◌⊎◌, inl, inr, Option, none, some, get_elem?, ◌==◌, Bool-cases,
  arith,
}
use erlang_rocksdb.DbObject.{
  Child, Db, inc, requested, db_ref_dec, set_child, child_ref_dec, close_child, close_children,
  close_db, hold_db, release_child, hold_child,
}

-- The child asked to close, whose own reference is to be given up.
abbrev pub closing : Child → Child
closing c = record c { refs = requested c.refs }

abbrev pub held_child : Child → Child
held_child c = record c { refs = inc c.refs; holders = suc c.holders }

pub close_child-cases :
    (i : ℕ) (db : Db)
    → ((close_child i db ≡ db)
        × ((c : Child) → get_elem? db.children i ≡ some c → c.refs.close_requested ≢ 0))
      ⊎ ((c : Child) × (get_elem? db.children i ≡ some c)
          × (c.refs.close_requested ≡ 0)
          × (close_child i db ≡ child_ref_dec i (closing c) db))
unfolding close_child
close_child-cases i db = by_child (get_elem? db.children i) refl
  where
    by_child :
        (r : Option Child)
        → get_elem? db.children i ≡ r
        → ((close_child i db ≡ db)
            × ((c : Child) → get_elem? db.children i ≡ some c → c.refs.close_requested ≢ 0))
          ⊎ ((c : Child) × (get_elem? db.children i ≡ some c)
              × (c.refs.close_requested ≡ 0)
              × (close_child i db ≡ child_ref_dec i (closing c) db))
    by_child none g = inl (rw (close_child, g) refl, λ c f. cc (f, g))
    by_child (some c) g = elim (Bool-cases (c.refs.close_requested == 0)) [
      | inl q ↦ inr (c, g, ground arith, rw (close_child, g, q) refl)
      | inr q ↦ inl (rw (close_child, g, q) refl, λ c' f z. ground (arith, f, g))
    ]

pub close_db-cases :
    (db : Db)
    → ((close_db db ≡ db) × (db.refs.close_requested ≢ 0))
      ⊎ ((db.refs.close_requested ≡ 0)
          × (close_db db ≡ db_ref_dec (close_children (record db { refs = requested db.refs }))))
unfolding close_db
close_db-cases db = elim (Bool-cases (db.refs.close_requested == 0)) [
  | inl q ↦ inr (ground arith, rw q refl)
  | inr q ↦ inl (rw q refl, λ e. ground arith)
]

pub hold_db-result :
    (db db' : Db)
    → hold_db db ≡ some db'
    → (db.refs.close_requested ≡ 0)
      × (db' ≡ record db { refs = inc db.refs; holders = suc db.holders })
unfolding hold_db
hold_db-result db db' q = ground arith

pub hold_child-result :
    (i : ℕ) (c : Child) (db db' : Db)
    → get_elem? db.children i ≡ some c
    → hold_child i db ≡ some db'
    → (c.refs.close_requested ≡ 0) × (db' ≡ set_child i (held_child c) db)
unfolding hold_child
hold_child-result i c db db' g q = ground (arith, g)

pub release_child-result :
    (i : ℕ) (c : Child) (db : Db)
    → get_elem? db.children i ≡ some c
    → release_child i db ≡ child_ref_dec i (record c { holders = c.holders - 1 }) db
unfolding release_child
release_child-result i c db g = rw (release_child, g) refl
