-- ===== src/DbObject/Closed.antt =====
-- What a close of the database leaves behind.
use erlang_rocksdb.Prelude.{
  ℕ, zero, suc, ◌≤◌, ◌≡◌, ◌≢◌, refl, sym, ◌∙◌, ap, subst, false, some, get_elem?, arith, inl, inr,
  ◌⊎◌,
}
use erlang_rocksdb.RefObject.Tally.{tally, find_positive}
use erlang_rocksdb.DbObject.{Child, Db, requested, db_ref_dec, close_children, close_db}
use erlang_rocksdb.DbObject.Branches.{close_db-cases}
use erlang_rocksdb.DbObject.Loops.{popped, close_children_keeps}
use erlang_rocksdb.DbObject.Steps.{Reach, later, closes_db}
use erlang_rocksdb.DbObject.Invariant.{alive, IsCoherent}
use erlang_rocksdb.DbObject.Lifetime.{Reach-IsCoherent}
use erlang_rocksdb.DbObject.Closing.{IsIdle, close_child-Closes, close_children-IsShut}
use erlang_rocksdb.DbObject.Listed.{Reach-IsListed, same_children, close_db_requests}

zero_or_not : (n : ℕ) → (n ≡ 0) ⊎ (1 ≤ n)
zero_or_not zero = inl refl
zero_or_not (suc n) = inr (omega arith)

-- The database with a close requested, before the loops.
asked : Db → Db
asked db = record db { refs = requested db.refs }

after_loops :
    (db : Db) → db.refs.close_requested ≡ 0 → close_db db ≡ db_ref_dec (close_children (asked db))
unfolding asked
after_loops db e = elim (close_db-cases db) [ inl p ↦ absurd (p.1 e) | inr p ↦ p.1 ]

children_kept : (db : Db) → (db_ref_dec db).children ≡ db.children
unfolding db_ref_dec
children_kept db = refl

holders_kept : (db : Db) → (db_ref_dec db).holders ≡ db.holders
unfolding db_ref_dec
holders_kept db = refl

-- In every reachable state where no close of the database has been requested, `close_db` asks every
-- child that it has to close.
pub close_db-all_requested :
    (db : Db)
    → Reach db
    → db.refs.close_requested ≡ 0
    → (i : ℕ) (c : Child) → get_elem? (close_db db).children i ≡ some c
    → c.refs.close_requested ≢ 0
unfolding asked
close_db-all_requested db r e i c g z =
    let same = ap Db.children (after_loops db e) ∙ children_kept (close_children (asked db)) in
    let shut =
      close_children-IsShut (asked db) (same_children db _ refl refl (Reach-IsListed r e)) c.kind in
    shut.shut i (record {
      child = c;
      there = sym (ap (λ l. get_elem? l i) same) ∙ g;
      of_kind = refl;
      unrequested = z;
    })

close_db-IsIdle : (db : Db) → db.refs.close_requested ≡ 0 → IsIdle db → IsIdle (close_db db)
unfolding asked
close_db-IsIdle db e h = subst IsIdle (sym (after_loops db e)) (record {
  no_holder = holders_kept looped ∙ looped_idle.no_holder;
  no_child_holder = λ i c g.
      looped_idle.no_child_holder i c (sym (ap (λ l. get_elem? l i) (children_kept looped)) ∙ g);
})
  where
    looped : Db
    looped = close_children (asked db)

    looped_idle : IsIdle looped
    looped_idle =
        close_children_keeps IsIdle
          (λ k i rest d q p.
            (close_child-Closes i (popped k rest d)).idle
              (record { no_holder = p.no_holder; no_child_holder = p.no_child_holder }))
          (asked db) (record { no_holder = h.no_holder; no_child_holder = h.no_child_holder })

-- In every reachable state where no close of the database has been requested and no call is at
-- work, `close_db` closes the database and gives every child's handle back.
pub close_db_idle :
    (db : Db)
    → Reach db
    → db.refs.close_requested ≡ 0
    → IsIdle db
    → ((close_db db).refs.handle ≡ false)
      × ((i : ℕ) (c : Child) → get_elem? (close_db db).children i ≡ some c → c.refs.handle ≡ false)
close_db_idle db r e h = (db_ended, λ i c g. (child_ended i c g).1)
  where
    coherent : IsCoherent 0 (close_db db)
    coherent = Reach-IsCoherent (later r closes_db)

    idle : IsIdle (close_db db)
    idle = close_db-IsIdle db e h

    child_ended :
        (i : ℕ) (c : Child)
        → get_elem? (close_db db).children i ≡ some c
        → (alive c ≡ 0) × (c.refs.handle ≡ false)
    child_ended i c g = ground (
      arith,
      coherent.children i c g,
      close_db-all_requested db r e i c g,
      idle.no_child_holder i c g,
    )

    none_alive : tally alive (close_db db).children ≡ 0
    none_alive = elim (zero_or_not (tally alive (close_db db).children)) [
      | inl z ↦ z
      | inr l ↦
          let (i, c, g, p) = find_positive alive (close_db db).children l in
          absurd (omega (arith, (child_ended i c g).0, p))
    ]

    db_ended : (close_db db).refs.handle ≡ false
    db_ended = ground (
      arith,
      coherent.own.released,
      coherent.own.pending,
      coherent.own.between,
      coherent.own.phase,
      close_db_requests db,
      none_alive,
      idle.no_holder,
    )
