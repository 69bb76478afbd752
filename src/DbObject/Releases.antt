-- ===== src/DbObject/Releases.antt =====
-- What has been given back to RocksDB, and when, in every reachable state.
use erlang_rocksdb.Prelude.{
  ℕ, zero, suc, ◌+◌, ◌-◌, ◌≤◌, ◌≡◌, refl, sym, ◌∙◌, ap, subst, Bool, true, false, some, List, [],
  ◌∷◌, ◌++◌, get_elem?, if◌then◌else◌, ◌&&◌, not, arith, Bool-cases, inl, inr, ◌⊎◌,
}
use erlang_rocksdb.RefObject.Tally.{tally}
use erlang_rocksdb.DbObject.{
  Kind, Child, db_closed, Db, ref_dec, forget, set_child, child_ref_dec, close_child,
  close_children, close_db, create, release_db, remove, update_list,
}
use erlang_rocksdb.DbObject.Branches.{
  closing, close_child-cases, close_db-cases, hold_db-result, held_child, hold_child-result,
  release_child-result,
}
use erlang_rocksdb.DbObject.Balance.{
  IsBalanced, requested-IsBalanced, ref_dec-IsBalanced, ref_dec_last,
}
use erlang_rocksdb.DbObject.Steps.{
  opened, Step, creates, holds_db, releases_db, holds_child, releases_child, destroys_column_family,
  closes_child, closes_db, Reach, start, later,
}
use erlang_rocksdb.DbObject.Loops.{close_children_keeps}
use erlang_rocksdb.DbObject.Invariant.{
  alive, IsCoherent, set_child-IsCoherent, close_child-IsCoherent,
}
use erlang_rocksdb.DbObject.Lifetime.{
  Reach-IsCoherent, Reach-children_first, give_back-IsCoherent, request_db-IsCoherent,
}
use erlang_rocksdb.DbObject.Destroyed.{destroy-result, taken-IsCoherent, taken-IsOrdered}
use erlang_rocksdb.DbObject.Order.{
  gives_back, ended, IsOrdered, db_ref_dec-IsOrdered, placed-IsOrdered,
}

child_ref_dec-IsOrdered :
    (e i : ℕ) (c old : Child) (db : Db)
    → get_elem? db.children i ≡ some old
    → alive old ≡ 1
    → c.destroyed ≡ old.destroyed
    → IsBalanced c.refs (suc c.holders)
    → IsCoherent e db
    → IsOrdered db
    → IsOrdered (child_ref_dec i c db)
unfolding child_ref_dec forget
child_ref_dec-IsOrdered e i c old db g was same bal h o = by_last (Bool-cases (ref_dec c.refs).1)
  where
    c' : Child
    c' = record c { refs = (ref_dec c.refs).0 }

    coherent : IsCoherent (e + (1 - alive c')) (set_child i c' db)
    coherent = set_child-IsCoherent e i c' old db h g was (ref_dec-IsBalanced c.refs c.holders bal)

    at_end : (b : Bool) → (ref_dec c.refs).1 ≡ b → alive c' ≡ (if b then 0 else 1)
    at_end b q = ground (arith, ref_dec_last c.refs c.holders bal)

    by_last :
        ((ref_dec c.refs).1 ≡ true) ⊎ ((ref_dec c.refs).1 ≡ false)
        → IsOrdered
            (if (ref_dec c.refs).1 then forget i c (set_child i c' db) else set_child i c' db)
    by_last (inl q) =
        let one_less =
          subst (λ n. IsCoherent n (set_child i c' db)) (omega (arith, at_end true q)) coherent in
        rw q (
          db_ref_dec-IsOrdered e _ (record { own = one_less.own; children = one_less.children })
            (placed-IsOrdered e i c' old db h o g was same true
              (update_list c.kind (remove i) db.lists) (at_end true q)))
    by_last (inr q) =
        rw q (placed-IsOrdered e i c' old db h o g was same false db.lists (at_end false q))

close_child-IsOrdered :
    (e i : ℕ) (db : Db) → IsCoherent e db → IsOrdered db → IsOrdered (close_child i db)
close_child-IsOrdered e i db h o = elim (close_child-cases i db) [
  | inl unchanged ↦ subst IsOrdered (sym unchanged.0) o
  | inr p ↦
      let (c, g, q, step) = p in
      subst IsOrdered (sym step) (
        child_ref_dec-IsOrdered e i (closing c) c db g (ground arith) refl
          (requested-IsBalanced c.refs c.holders q (h.children i c g)) h o)
]

close_children-both :
    (db : Db)
    → IsCoherent 1 db × IsOrdered db
    → IsCoherent 1 (close_children db) × IsOrdered (close_children db)
close_children-both db p =
    close_children_keeps (λ d. IsCoherent 1 d × IsOrdered d)
      (λ k i rest d q r.
        let popped : IsCoherent 1 (record d { lists = update_list k (λ l. rest) d.lists }) =
          record { own = r.0.own; children = r.0.children } in
        (
          close_child-IsCoherent 1 i _ popped,
          close_child-IsOrdered 1 i _ popped
              (record { each = r.1.each; latest = r.1.latest; noted = r.1.noted }),
        ))
      db p

close_db-IsOrdered : (db : Db) → IsCoherent 0 db → IsOrdered db → IsOrdered (close_db db)
close_db-IsOrdered db h o = elim (close_db-cases db) [
  | inl unchanged ↦ subst IsOrdered (sym unchanged.0) o
  | inr p ↦
      let (h', o') = close_children-both _ (
        request_db-IsCoherent db p.0 h,
        record { each = o.each; latest = o.latest; noted = o.noted },
      ) in
      subst IsOrdered (sym p.1) (db_ref_dec-IsOrdered 0 _ h' o')
]

create-IsOrdered : (k : Kind) (db : Db) → IsOrdered db → IsOrdered (create k db)
unfolding create
create-IsOrdered k db o = record {
  each = λ i. o.each i ∙ fresh db.children i;
  latest = o.latest;
  noted = o.noted;
}
  where
    new : Child
    new = record {
      kind = k;
      refs = record { ref_count = 1; close_requested = 0; handle = true };
      holders = 0;
      destroyed = false;
    }

    fresh :
        (cs : List Child) (i : ℕ) → ended (get_elem? cs i) ≡ ended (get_elem? (cs ++ new ∷ []) i)
    fresh [] zero = refl
    fresh [] (suc i) = refl
    fresh (c ∷ cs) zero = refl
    fresh (c ∷ cs) (suc i) = fresh cs i

release_db-IsOrdered :
    (db : Db) → 1 ≤ db.holders → IsCoherent 0 db → IsOrdered db → IsOrdered (release_db db)
unfolding release_db
release_db-IsOrdered db l h o =
    db_ref_dec-IsOrdered 0 _ (give_back-IsCoherent db l h)
      (record { each = o.each; latest = o.latest; noted = o.noted })

Step-IsOrdered : {db db' : Db} → Step db db' → IsCoherent 0 db → IsOrdered db → IsOrdered db'
Step-IsOrdered {db} (creates k l small) h o = create-IsOrdered k db o
Step-IsOrdered {db} (holds_db db' q small) h o =
    subst IsOrdered (sym (hold_db-result db db' q).1)
      (record { each = o.each; latest = o.latest; noted = o.noted })
Step-IsOrdered {db} (releases_db l) h o = release_db-IsOrdered db l h o
Step-IsOrdered {db} (holds_child i c db' g small q) h o =
    let (open_, same) = hold_child-result i c db db' g q in
    subst IsOrdered (sym same) (
      placed-IsOrdered 0 i (held_child c) c db h o g (ground arith) refl false db.lists
        (ground arith))
Step-IsOrdered {db} (releases_child i c g l) h o =
    subst IsOrdered (sym (release_child-result i c db g)) (
      child_ref_dec-IsOrdered 0 i _ c db g (ground (arith, (h.children i c g).ended)) refl
        (subst (λ n. IsBalanced c.refs n) (omega arith) (h.children i c g)) h o)
Step-IsOrdered {db} (destroys_column_family i c g k l) h o =
    subst IsOrdered (sym (destroy-result i c db g))
      (close_child-IsOrdered 0 i _ (taken-IsCoherent i c db g l h) (taken-IsOrdered i c db g l h o))
Step-IsOrdered {db} (closes_child i) h o = close_child-IsOrdered 0 i db h o
Step-IsOrdered {db} closes_db h o = close_db-IsOrdered db h o

opened-IsOrdered : IsOrdered opened
opened-IsOrdered = record { each = λ i. refl; latest = λ n g. cc; noted = λ f. cc }

Reach-IsOrdered : {db : Db} → Reach db → IsOrdered db
Reach-IsOrdered start = opened-IsOrdered
Reach-IsOrdered (later r st) = Step-IsOrdered st (Reach-IsCoherent r) (Reach-IsOrdered r)

-- In every reachable state each handle has been given back to RocksDB once if the child's destructor
-- has run or `DestroyColumnFamily` has destroyed it, though calls may still hold it then, and
-- otherwise never.
pub Reach-released_once :
    {db : Db} (i : ℕ) (c : Child)
    → Reach db
    → get_elem? db.children i ≡ some c
    → tally (gives_back i) db.events ≡ (if c.refs.handle && not c.destroyed then 0 else 1)
Reach-released_once {db} i c r g =
    ground (
      arith,
      (Reach-IsOrdered r).each i,
      ap ended g,
      ((Reach-IsCoherent r).children i c g).released,
    )

-- In every reachable state, if the database has been closed, that was the latest event, and all
-- children had given their handles back.
pub Reach-closed_last :
    {db : Db} (n : ℕ)
    → Reach db
    → get_elem? db.events n ≡ some db_closed
    → (n ≡ 0) × ((i : ℕ) (c : Child) → get_elem? db.children i ≡ some c → c.refs.handle ≡ false)
Reach-closed_last {db} n r g =
    let (last, gone) = (Reach-IsOrdered r).latest n g in
    (
      last,
      λ i c f. elim (Bool-cases c.refs.handle) [
        | inl live ↦ cc (Reach-children_first i c r f live, gone)
        | inr dead ↦ dead
      ],
    )
