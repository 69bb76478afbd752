-- ===== src/DbObject/Invariant.antt =====
-- The counts of a database and of its children agree, whatever is closed and given back.

use erlang_rocksdb.Prelude.{
  ℕ, suc, ◌+◌, ◌-◌, ◌≤◌, ◌≡◌, ◌⊎◌, sym, subst, Bool, true, false, ◌==◌, some, get_elem?,
  if◌then◌else◌, arith, Bool-cases, inl, inr, get_elem?-set,
}
use erlang_rocksdb.RefObject.Tally.{tally, tally-set}
use erlang_rocksdb.DbObject.{
  Child, Db, ref_dec, db_ref_dec, forget, set_child, child_ref_dec, close_child,
}
use erlang_rocksdb.DbObject.Branches.{closing, close_child-cases}
use erlang_rocksdb.DbObject.Balance.{
  IsBalanced, requested-IsBalanced, ref_dec-IsBalanced, ref_dec_last,
}

-- A child that has not been destructed holds the database.
abbrev pub alive : Child → ℕ
alive c = if c.refs.close_requested == 3 then 0 else 1

-- `extra` are the references of those that are at work on the database: a close holds one.
pub record IsCoherent (extra : ℕ) (db : Db) : Type 0 where
  pub own : IsBalanced db.refs (tally alive db.children + db.holders + extra)
  pub children :
      (i : ℕ) (c : Child) → get_elem? db.children i ≡ some c → IsBalanced c.refs c.holders

pub db_ref_dec-IsCoherent : (e : ℕ) (db : Db) → IsCoherent (suc e) db → IsCoherent e (db_ref_dec db)
unfolding db_ref_dec
db_ref_dec-IsCoherent e db h = record {
  own = ref_dec-IsBalanced db.refs _ (subst (λ n. IsBalanced db.refs n) (omega arith) h.own);
  children = h.children;
}

pub alive-le : (c : Child) → alive c ≤ 1
alive-le c = ground arith

-- A child in the place of a living one, with a reference that has been given up.
module _ (e i : ℕ) (c old : Child) (db : Db) (h : IsCoherent e db)
    (g : get_elem? db.children i ≡ some old) (was : alive old ≡ 1) where
  pub set_child-IsCoherent :
      IsBalanced c.refs c.holders → IsCoherent (e + (1 - alive c)) (set_child i c db)
  set_child-IsCoherent new = record {
    own =
        subst (λ n. IsBalanced db.refs n)
          (omega (arith, tally-set alive db.children i old c g, was, alive-le c)) h.own;
    children = λ j d f. elim (get_elem?-set db.children i j c d f) [
      | inl p ↦ subst (λ x. IsBalanced x.refs x.holders) (sym p.1) new
      | inr p ↦ h.children j d p.1
    ];
  }

forget-IsCoherent :
    (e i : ℕ) (c : Child) (db : Db) → IsCoherent (suc e) db → IsCoherent e (forget i c db)
unfolding forget
forget-IsCoherent e i c db h =
    db_ref_dec-IsCoherent e _ (record { own = h.own; children = h.children })

-- A reference to a child is given up: `c` is the child without it, uncounted yet.
pub child_ref_dec-IsCoherent :
    (e i : ℕ) (c old : Child) (db : Db)
    → get_elem? db.children i ≡ some old
    → alive old ≡ 1
    → IsBalanced c.refs (suc c.holders)
    → IsCoherent e db
    → IsCoherent e (child_ref_dec i c db)
unfolding child_ref_dec
child_ref_dec-IsCoherent e i c old db g was bal h = by_last (Bool-cases (ref_dec c.refs).1)
  where
    c' : Child
    c' = record c { refs = (ref_dec c.refs).0 }

    placed : IsCoherent (e + (1 - alive c')) (set_child i c' db)
    placed = set_child-IsCoherent e i c' old db h g was (ref_dec-IsBalanced c.refs c.holders bal)

    at_end : (b : Bool) → (ref_dec c.refs).1 ≡ b → alive c' ≡ (if b then 0 else 1)
    at_end b q = ground (arith, ref_dec_last c.refs c.holders bal)

    by_last :
        ((ref_dec c.refs).1 ≡ true) ⊎ ((ref_dec c.refs).1 ≡ false)
        → IsCoherent e
            (if (ref_dec c.refs).1 then forget i c (set_child i c' db) else set_child i c' db)
    by_last (inl q) = rw q (
        forget-IsCoherent e i c _
          (subst (λ n. IsCoherent n (set_child i c' db)) (omega (arith, at_end true q)) placed))
    by_last (inr q) =
        rw q (subst (λ n. IsCoherent n (set_child i c' db)) (omega (arith, at_end false q)) placed)

pub close_child-IsCoherent : (e i : ℕ) (db : Db) → IsCoherent e db → IsCoherent e (close_child i db)
close_child-IsCoherent e i db h = elim (close_child-cases i db) [
  | inl unchanged ↦ subst (IsCoherent e) (sym unchanged.0) h
  | inr p ↦
      let (c, g, q, step) = p in
      subst (IsCoherent e) (sym step) (
        child_ref_dec-IsCoherent e i (closing c) c db g (ground arith)
          (requested-IsBalanced c.refs c.holders q (h.children i c g)) h)
]
