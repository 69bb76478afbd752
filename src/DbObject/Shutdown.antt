-- ===== src/DbObject/Shutdown.antt =====
-- What a call does to the lists, and to the children that are open.
use erlang_rocksdb.Prelude.{
  ℕ, ◌≤◌, ◌≡◌, ◌≢◌, refl, sym, ◌∙◌, ap, subst, Bool, true, false, ◌||◌, ◌==◌, some, List, [], ◌∷◌,
  length, get_elem?, set, if◌then◌else◌, arith, some_inj, Bool-cases, inl, inr, get_elem?-set,
  get_elem?-set_same, ◌⊎◌,
}
use erlang_rocksdb.DbObject.{
  Kind, same_kind, Child, Db, ref_dec, db_ref_dec, forget, child_ref_dec, remove, update_list,
}
use erlang_rocksdb.DbObject.Balance.{ref_dec_keeps_request, ref_dec_end}

pub same_kind-eq : (k k' : Kind) → same_kind k k' ≡ true → k ≡ k'
same_kind-eq k k' e = ground arith

pub same_kind_refl : (k : Kind) → same_kind k k ≡ true
same_kind_refl k = ground arith

abbrev pub mem : ℕ → List ℕ → Bool
mem i [] = false
mem i (j ∷ js) = i == j || mem i js

pub mem-remove : (i j : ℕ) (js : List ℕ) → j ≢ i → mem j (remove i js) ≡ mem j js
unfolding remove
mem-remove i j [] d = refl
mem-remove i j (x ∷ xs) d = ground (arith, mem-remove i j xs d)

pub length-remove : (i : ℕ) (js : List ℕ) → length (remove i js) ≤ length js
unfolding remove
length-remove i [] = omega arith
length-remove i (x ∷ xs) = ground (arith, length-remove i xs)

-- Child `i` is of class `k`, and no close of it has been requested.
pub record IsOpen (i : ℕ) (k : Kind) (db : Db) : Type 0 where
  pub child : Child
  pub there : get_elem? db.children i ≡ some child
  pub of_kind : child.kind ≡ k
  pub unrequested : child.refs.close_requested ≡ 0

-- Child `i` becomes `c`; if it is destructed it leaves its list.
pub record Changed (i : ℕ) (c : Child) (db db' : Db) : Type 0 where
  pub children : db'.children ≡ set db.children i c
  pub lists :
      (db'.lists ≡ db.lists)
      ⊎ ((c.refs.close_requested ≢ 0) × (db'.lists ≡ update_list c.kind (remove i) db.lists))
  pub request : db'.refs.close_requested ≡ 0 → db.refs.close_requested ≡ 0
  pub holders : db'.holders ≡ db.holders

pub child_ref_dec-Changed :
    (i : ℕ) (c : Child) (db : Db)
    → Changed i (record c { refs = (ref_dec c.refs).0 }) db (child_ref_dec i c db)
unfolding child_ref_dec forget db_ref_dec
child_ref_dec-Changed i c db = elim (Bool-cases (ref_dec c.refs).1) [
  | inl q ↦ rw q (record {
    children = refl;
    lists = inr (requested_at_end q, refl);
    request = λ e. ref_dec_keeps_request db.refs e;
    holders = refl;
  })
  | inr q ↦ rw q (record { children = refl; lists = inl refl; request = λ e. e; holders = refl })
]
  where
    requested_at_end : (ref_dec c.refs).1 ≡ true → (ref_dec c.refs).0.close_requested ≢ 0
    requested_at_end q e = omega (arith, ref_dec_end c.refs q, e)

module _ {i : ℕ} {c : Child} {db db' : Db} (ch : Changed i c db db') where
  open ch use {children, lists}

  -- A child that is open was open before, if the changed one was.
  pub opens_before :
      (c.refs.close_requested ≡ 0 → IsOpen i c.kind db)
      → (j : ℕ) (k : Kind) → IsOpen j k db'
      → IsOpen j k db
  opens_before was j k o =
      elim (get_elem?-set db.children i j c o.child
        (sym (ap (λ l. get_elem? l j) children) ∙ o.there)) [
          | inl p ↦ at_i (sym p.0) (sym p.1)
          | inr p ↦ record {
            child = o.child;
            there = p.1;
            of_kind = o.of_kind;
            unrequested = o.unrequested;
          }
        ]
    where
      at_i : j ≡ i → c ≡ o.child → IsOpen j k db
      at_i e f =
          subst (λ n. IsOpen n k db) (sym e)
            (subst (λ m. IsOpen i m db) (ap Child.kind f ∙ o.of_kind)
              (was (ap (λ x. x.refs.close_requested) f ∙ o.unrequested)))

  pub closed_at :
      (old : Child)
      → get_elem? db.children i ≡ some old
      → c.refs.close_requested ≢ 0
      → (j : ℕ) (k : Kind) → IsOpen j k db'
      → j ≢ i
  closed_at old g closed j k o e = closed (ap (λ x. x.refs.close_requested) same ∙ o.unrequested)
    where
      same : c ≡ o.child
      same = some_inj (
          sym (get_elem?-set_same db.children i c old g)
          ∙ (sym (ap (get_elem? (set db.children i c)) e)
              ∙ (sym (ap (λ l. get_elem? l j) children) ∙ o.there)))

  -- The other children stay in their lists.
  pub mem_other : (j : ℕ) (k : Kind) → j ≢ i → mem j (db'.lists k) ≡ mem j (db.lists k)
  mem_other j k d = elim lists [ inl e ↦ rw e refl | inr p ↦ rw p.1 (by_kind (same_kind c.kind k)) ]
    where
      by_kind :
          (b : Bool) → mem j (if b then remove i (db.lists k) else db.lists k) ≡ mem j (db.lists k)
      by_kind true = mem-remove i j (db.lists k) d
      by_kind false = refl

  pub lists_shrink : (k : Kind) → length (db'.lists k) ≤ length (db.lists k)
  lists_shrink k = elim lists [
    | inl e ↦ rw e (omega arith)
    | inr p ↦ rw p.1 (by_kind (same_kind c.kind k))
  ]
    where
      by_kind :
          (b : Bool)
          → length (if b then remove i (db.lists k) else db.lists k) ≤ length (db.lists k)
      by_kind true = length-remove i (db.lists k)
      by_kind false = omega arith
