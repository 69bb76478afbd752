-- ===== src/DbObject/Destroyed.antt =====
-- `DestroyColumnFamily` of c_src/erocksdb_column_family.cc: the handle goes back to RocksDB at once,
-- whatever calls hold the object, and the object is asked to close.
use erlang_rocksdb.Prelude.{
  ℕ, ◌≤◌, ◌≡◌, ◌≢◌, refl, ap, subst, true, some, get_elem?, set, arith, same_or_not, inl, inr,
  get_elem?-set_same, get_elem?-set_other,
}
use erlang_rocksdb.RefObject.Tally.{tally, le-tally}
use erlang_rocksdb.DbObject.{
  Child, db_closed, Db, give_back, set_child, close_child, destroy_column_family,
}
use erlang_rocksdb.DbObject.Invariant.{alive, IsCoherent, set_child-IsCoherent}
use erlang_rocksdb.DbObject.Order.{gives_back, ended, IsOrdered, still_open}

abbrev pub taken_child : Child → Child
taken_child c = record c { destroyed = true }

-- The handle has been given back, and no close has been asked for.
abbrev pub taken : ℕ → Child → Db → Db
taken i c db = record (set_child i (taken_child c) db) { events = give_back i c db.events }

pub destroy-result :
    (i : ℕ) (c : Child) (db : Db)
    → get_elem? db.children i ≡ some c
    → destroy_column_family i db ≡ close_child i (taken i c db)
unfolding destroy_column_family
destroy-result i c db g = rw (destroy_column_family, g) refl

module _ (i : ℕ) (c : Child) (db : Db) (g : get_elem? db.children i ≡ some c) (l : 1 ≤ c.holders)
    (h : IsCoherent 0 db) where
  was : alive c ≡ 1
  was = ground (arith, (h.children i c g).ended)

  pub taken-IsCoherent : IsCoherent 0 (taken i c db)
  taken-IsCoherent =
      let placed =
        subst (λ n. IsCoherent n (set_child i (taken_child c) db)) (omega (arith, was))
          (set_child-IsCoherent 0 i (taken_child c) c db h g was (h.children i c g)) in
      record { own = placed.own; children = placed.children }

  db_open : db.refs.handle ≡ true
  db_open = ground (arith, le-tally alive db.children i c g, was, h.own.ended, h.own.released)

  pub taken-IsOrdered : IsOrdered db → IsOrdered (taken i c db)
  taken-IsOrdered o = record {
    each = each;
    latest = λ n f. absurd (still_open i c db none_yet n f);
    noted = λ f. cc (f, db_open);
  }
    where
      none_yet : (n : ℕ) → get_elem? db.events n ≢ some db_closed
      none_yet n f = cc ((o.latest n f).1, db_open)

      each :
          (j : ℕ)
          → tally (gives_back j) (give_back i c db.events)
            ≡ ended (get_elem? (set db.children i (taken_child c)) j)
      each j = elim (same_or_not i j) [
        | inl q ↦
            subst
              (λ k.
                tally (gives_back k) (give_back i c db.events)
                ≡ ended (get_elem? (set db.children i (taken_child c)) k))
              q
              (rw (get_elem?-set_same db.children i (taken_child c) c g)
                (ground (arith, o.each i, ap ended g, was)))
        | inr q ↦
            rw (get_elem?-set_other db.children i j (taken_child c) q) (ground (arith, o.each j))
      ]
