-- ===== src/DbObject/Order.antt =====
-- Each handle is given back once, and the database is closed after all of them.
use erlang_rocksdb.Prelude.{
  ℕ, zero, suc, ◌+◌, ◌-◌, ◌≡◌, ◌≢◌, refl, sym, ◌∙◌, ap, subst, Bool, true, false, ◌==◌, Option,
  none, some, List, ◌∷◌, get_elem?, set, if◌then◌else◌, arith, Bool-cases, same_or_not, inl, inr,
  get_elem?-set_same, get_elem?-set_other, ◌⊎◌,
}
use erlang_rocksdb.RefObject.Tally.{tally, le-tally}
use erlang_rocksdb.DbObject.{
  Kind, Child, Event, released, db_closed, Db, ref_dec, db_ref_dec, give_back, set_child,
}
use erlang_rocksdb.DbObject.Balance.{IsBalanced, ref_dec-IsBalanced, ref_dec_last}
use erlang_rocksdb.DbObject.Invariant.{alive, IsCoherent}

abbrev pub gives_back : ℕ → Event → ℕ
gives_back i (released j) = if i == j then 1 else 0
gives_back i db_closed = 0

abbrev pub ended : Option Child → ℕ
ended none = 0
ended (some c) = if c.destroyed then 1 else 1 - alive c

pub record IsOrdered (db : Db) : Type 0 where
  pub each : (i : ℕ) → tally (gives_back i) db.events ≡ ended (get_elem? db.children i)
  pub latest : (n : ℕ) → get_elem? db.events n ≡ some db_closed → (n ≡ 0) × (db.refs.handle ≡ false)
  pub noted : db.refs.handle ≡ false → get_elem? db.events 0 ≡ some db_closed

db_live :
    (e : ℕ) (db : Db)
    → IsCoherent (suc e) db
    → (db.refs.handle ≡ true) × (db.refs.close_requested ≢ 3)
db_live e db h = ground (arith, h.own.ended, h.own.released)

pub db_ref_dec-IsOrdered :
    (e : ℕ) (db : Db) → IsCoherent (suc e) db → IsOrdered db → IsOrdered (db_ref_dec db)
unfolding db_ref_dec
db_ref_dec-IsOrdered e db h o = by_last (Bool-cases (ref_dec db.refs).1)
  where
    bal : IsBalanced db.refs (suc (tally alive db.children + db.holders + e))
    bal = subst (λ n. IsBalanced db.refs n) (omega arith) h.own

    after : IsBalanced (ref_dec db.refs).0 (tally alive db.children + db.holders + e)
    after = ref_dec-IsBalanced db.refs _ bal

    none_before : (n : ℕ) → get_elem? db.events n ≢ some db_closed
    none_before n g = cc ((o.latest n g).1, (db_live e db h).0)

    closed_now :
        (ref_dec db.refs).1 ≡ true
        → (n : ℕ) → get_elem? (db_closed ∷ db.events) n ≡ some db_closed
        → (n ≡ 0) × ((ref_dec db.refs).0.handle ≡ false)
    closed_now q zero g = (refl, ground (arith, ref_dec_last db.refs _ bal, after.released))
    closed_now q (suc n) g = absurd (none_before n g)

    by_last :
        ((ref_dec db.refs).1 ≡ true) ⊎ ((ref_dec db.refs).1 ≡ false)
        → IsOrdered (record db {
          refs = (ref_dec db.refs).0;
          events = if (ref_dec db.refs).1 then db_closed ∷ db.events else db.events;
        })
    by_last (inl q) =
        rw q
          (record { each = λ i. omega (arith, o.each i); latest = closed_now q; noted = λ f. refl })
    by_last (inr q) = rw q (record {
      each = o.each;
      latest = λ n g. absurd (none_before n g);
      noted = λ f. absurd (ground (arith, ref_dec_last db.refs _ bal, after.released));
    })

-- Giving a handle back is no close of the database.
pub still_open :
    (i : ℕ) (c : Child) (db : Db)
    → ((n : ℕ) → get_elem? db.events n ≢ some db_closed)
    → (n : ℕ) → get_elem? (give_back i c db.events) n ≢ some db_closed
still_open i c db h n f = elim (Bool-cases c.destroyed) [
  | inl d ↦ h n (sym (ap (λ b. get_elem? (after b) n) d) ∙ f)
  | inr d ↦ later n (sym (ap (λ b. get_elem? (after b) n) d) ∙ f)
]
  where
    after : Bool → List Event
    after b = if b then db.events else released i ∷ db.events

    later : (n : ℕ) → get_elem? (released i ∷ db.events) n ≢ some db_closed
    later zero f = cc
    later (suc n) f = h n f

-- Child `i` has been destructed, and its handle has just been given back.
module _ (e i : ℕ) (c old : Child) (db : Db) (h : IsCoherent e db) (o : IsOrdered db)
    (g : get_elem? db.children i ≡ some old) (was : alive old ≡ 1)
    (same : c.destroyed ≡ old.destroyed) where
  each_after :
      (b : Bool)
      → alive c ≡ (if b then 0 else 1)
      → (j : ℕ)
      → tally (gives_back j) (if b then give_back i c db.events else db.events)
        ≡ ended (get_elem? (set db.children i c) j)
  each_after b a j = elim (same_or_not i j) [
    | inl q ↦
        subst
          (λ k.
            tally (gives_back k) (if b then give_back i c db.events else db.events)
            ≡ ended (get_elem? (set db.children i c) k))
          q
          (rw (get_elem?-set_same db.children i c old g)
            (ground (arith, o.each i, ap ended g, same)))
    | inr q ↦ rw (get_elem?-set_other db.children i j c q) (ground (arith, o.each j))
  ]

  db_open : db.refs.handle ≡ true
  db_open = ground (arith, le-tally alive db.children i old g, h.own.ended, h.own.released)

  none_yet : (n : ℕ) → get_elem? db.events n ≢ some db_closed
  none_yet n f = cc ((o.latest n f).1, db_open)

  pub placed-IsOrdered :
      (b : Bool) (lists : Kind → List ℕ)
      → alive c ≡ (if b then 0 else 1)
      → IsOrdered (record (set_child i c db) {
        lists = lists;
        events = if b then give_back i c db.events else db.events;
      })
  placed-IsOrdered true lists a = record {
    each = each_after true a;
    latest = λ n f. absurd (before n f);
    noted = λ f. cc (f, db_open);
  }
    where
      before : (n : ℕ) → get_elem? (give_back i c db.events) n ≢ some db_closed
      before n f = still_open i c db none_yet n f
  placed-IsOrdered false lists a = record {
    each = each_after false a;
    latest = o.latest;
    noted = o.noted;
  }
