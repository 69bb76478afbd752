-- ===== src/PostingList/SearchCorrect.antt =====
-- The binary search finds a key exactly where it is, and reads inside its table.
use erlang_rocksdb.Prelude.{
  ℕ, zero, suc, ◌+◌, ◌-◌, ◌/◌, ◌≤◌, ◌<◌, ◌≡◌, refl, sym, ap, subst, ◌≢◌, ◌∙◌, inl, inr, ltb,
  compare, Ordering, true, false, some, List, [], ◌∷◌, length, get_elem?, arith, All, Bool-cases,
  some_inj,
}
use native.Mathlib.Decide.{dec_lt}
use erlang_rocksdb.Bytes.{Bytes}
use erlang_rocksdb.Bytes.Order.{
  compare_bytes, Lt, Lt-trans, eqb_iff, not-Lt-self, Lt_of_gt, compare_bytes-cases,
  eq_of_compare_bytes,
}
use erlang_rocksdb.Ordered.Set.{Ascending, contains}
use erlang_rocksdb.PostingList.Search.{memcmp, compare_key, search_loop, search_keys}

-- `memcmp` over the shorter length and then the lengths is the order of `std::string`.
memcmp_left :
    (a b : Bytes)
    → length a ≤ length b
    → compare_bytes a b ≡ elim (memcmp (length a) a b) [
      | Ordering.lt ↦ Ordering.lt
      | Ordering.gt ↦ Ordering.gt
      | Ordering.eq ↦ compare (length a) (length b)
    ]
unfolding memcmp compare_bytes
memcmp_left [] [] h = refl
memcmp_left [] (y ∷ ys) h = ground arith
memcmp_left (x ∷ xs) [] h = elim h [ ]
memcmp_left (x ∷ xs) (y ∷ ys) h = ground (arith, memcmp_left xs ys)

memcmp_right :
    (a b : Bytes)
    → length b ≤ length a
    → compare_bytes a b ≡ elim (memcmp (length b) a b) [
      | Ordering.lt ↦ Ordering.lt
      | Ordering.gt ↦ Ordering.gt
      | Ordering.eq ↦ compare (length a) (length b)
    ]
unfolding memcmp compare_bytes
memcmp_right [] [] h = refl
memcmp_right (x ∷ xs) [] h = ground arith
memcmp_right [] (y ∷ ys) h = elim h [ ]
memcmp_right (x ∷ xs) (y ∷ ys) h = ground (arith, memcmp_right xs ys)

pub compare_key-compare_bytes : (a b : Bytes) → compare_key a b ≡ compare_bytes a b
unfolding compare_key
compare_key-compare_bytes a b = elim (Bool-cases (ltb (length a) (length b))) [
  | inl e ↦ rw (e, compare_key) (sym (memcmp_left a b (ground arith)))
  | inr e ↦ rw (e, compare_key) (sym (memcmp_right a b (ground arith)))
]

All-get_elem? {κ} :
    (P : Bytes → Type κ) (ks : List Bytes) (i : ℕ) (a : Bytes)
    → All P ks
    → get_elem? ks i ≡ some a
    → P a
All-get_elem? P [] i a h e = cc
All-get_elem? P (k ∷ ks) zero a h e = subst P (some_inj e) h.0
All-get_elem? P (k ∷ ks) (suc i) a h e = All-get_elem? P ks i a h.1 e

-- Keys stand in the order of their indices.
get_elem?-Lt :
    (ks : List Bytes) (i j : ℕ) (a b : Bytes)
    → Ascending ks
    → i < j
    → get_elem? ks i ≡ some a
    → get_elem? ks j ≡ some b
    → Lt a b
get_elem?-Lt [] i j a b h l e f = cc
get_elem?-Lt (k ∷ ks) i zero a b h l e f = elim l [ ]
get_elem?-Lt (k ∷ ks) zero (suc j) a b h l e f =
    subst (λ x. Lt x b) (some_inj e) (All-get_elem? (Lt k) ks j b h.0 f)
get_elem?-Lt (k ∷ ks) (suc i) (suc j) a b h l e f = get_elem?-Lt ks i j a b h.1 (omega arith) e f

contains-get_elem? :
    (ks : List Bytes) (i : ℕ) (k : Bytes) → get_elem? ks i ≡ some k → contains ks k ≡ true
unfolding contains
contains-get_elem? [] i k e = cc
contains-get_elem? (j ∷ ks) zero k e = ground (arith, eqb_iff j k)
contains-get_elem? (j ∷ ks) (suc i) k e = ground (arith, contains-get_elem? ks i k e)

not-contains-get_elem? :
    (ks : List Bytes) (k : Bytes) → ((i : ℕ) → get_elem? ks i ≢ some k) → contains ks k ≡ false
unfolding contains
not-contains-get_elem? [] k h = refl
not-contains-get_elem? (j ∷ ks) k h =
    ground (arith, eqb_iff j k, h 0, not-contains-get_elem? ks k (λ i. h (suc i)))

get_elem?-inside :
    (ks : List Bytes) (i : ℕ) → i < length ks → (a : Bytes) × (get_elem? ks i ≡ some a)
get_elem?-inside [] i h = elim h [ ]
get_elem?-inside (k ∷ ks) zero h = (k, refl)
get_elem?-inside (k ∷ ks) (suc i) h = get_elem?-inside ks i (omega arith)

outside : (ks : List Bytes) (i : ℕ) (a : Bytes) → length ks ≤ i → get_elem? ks i ≢ some a
outside [] i a h e = cc
outside (k ∷ ks) zero a h e = elim h [ ]
outside (k ∷ ks) (suc i) a h e = outside ks i a (omega arith) e

-- All keys before `lo` are below the key, and all from `hi` on are above it.
record Bracket (ks : List Bytes) (k : Bytes) (lo hi : ℕ) : Type 0 where
  ordered : lo ≤ hi
  inside : hi ≤ length ks
  before : (i : ℕ) (a : Bytes) → i < lo → get_elem? ks i ≡ some a → Lt a k
  behind : (i : ℕ) (a : Bytes) → hi ≤ i → get_elem? ks i ≡ some a → Lt k a

module _ (ks : List Bytes) (k : Bytes) (asc : Ascending ks) where
  not-get_elem?-Bracket :
      (lo hi : ℕ) → Bracket ks k lo hi → hi ≤ lo → (i : ℕ) → get_elem? ks i ≢ some k
  not-get_elem?-Bracket lo hi b h i e = elim (dec_lt i lo) [
    | yes l ↦ not-Lt-self k (b.before i k l e)
    | no g ↦ not-Lt-self k (b.behind i k (omega arith) e)
  ]

  narrow_right :
      (lo hi mid : ℕ) (key : Bytes)
      → Bracket ks k lo hi
      → mid < hi
      → get_elem? ks mid ≡ some key
      → Lt key k
      → Bracket ks k (mid + 1) hi
  narrow_right lo hi mid key b h at l = record {
    ordered = omega arith;
    inside = b.inside;
    before = λ i a hi' e. elim (dec_lt i mid) [
      | yes m ↦ Lt-trans a key k (get_elem?-Lt ks i mid a key asc m e at) l
      | no m ↦ same_index i a (omega arith) e
    ];
    behind = b.behind;
  }
    where
      same_index : (i : ℕ) (a : Bytes) → i ≡ mid → get_elem? ks i ≡ some a → Lt a k
      same_index i a q e = subst (λ x. Lt x k) (some_inj (sym at ∙ ap (get_elem? ks) (sym q) ∙ e)) l

  narrow_left :
      (lo hi mid : ℕ) (key : Bytes)
      → Bracket ks k lo hi
      → lo ≤ mid
      → mid < hi
      → get_elem? ks mid ≡ some key
      → Lt k key
      → Bracket ks k lo mid
  narrow_left lo hi mid key b g h at l = record {
    ordered = g;
    inside = omega (arith, b.inside);
    before = b.before;
    behind = λ i a hi' e. elim (dec_lt mid i) [
      | yes m ↦ Lt-trans k key a l (get_elem?-Lt ks mid i key a asc m at e)
      | no m ↦ same_index i a (omega arith) e
    ];
  }
    where
      same_index : (i : ℕ) (a : Bytes) → i ≡ mid → get_elem? ks i ≡ some a → Lt k a
      same_index i a q e = subst (λ x. Lt k x) (some_inj (sym at ∙ ap (get_elem? ks) (sym q) ∙ e)) l

  search_loop_lem :
      (fuel lo hi : ℕ)
      → hi < fuel + lo
      → Bracket ks k lo hi
      → search_loop ks k fuel lo hi ≡ some (contains ks k)
  unfolding search_loop
  search_loop_lem zero lo hi hf b = absurd (omega (arith, b.ordered))
  search_loop_lem (suc fuel) lo hi hf b = elim (Bool-cases (ltb lo hi)) [
    | inr e ↦
        rw (e, search_loop)
          (ap some
            (sym (not-contains-get_elem? ks k (not-get_elem?-Bracket lo hi b (ground arith)))))
    | inl e ↦
        let mid = lo + (hi - lo) / 2 in
        let less : lo < hi = ground arith in
        let (key, at) = get_elem?-inside ks mid (omega (arith, b.inside)) in
        rw (e, search_loop)
          (rw (at, search_loop)
            (elim (compare_bytes-cases key k) [
              | inl l ↦
                  rw (compare_key-compare_bytes key k ∙ l, search_loop)
                    (search_loop_lem fuel (mid + 1) hi (omega arith)
                      (narrow_right lo hi mid key b (omega arith) at l))
              | inr (inl q) ↦
                  rw (compare_key-compare_bytes key k ∙ q, search_loop)
                    (ap some (
                      sym
                        (contains-get_elem? ks mid k (at ∙ ap some (eq_of_compare_bytes key k q)))))
              | inr (inr g) ↦
                  rw (compare_key-compare_bytes key k ∙ g, search_loop)
                    (search_loop_lem fuel lo mid (omega arith) (
                      narrow_left lo hi mid key b (omega arith) (omega arith) at
                        (Lt_of_gt key k g)))
            ]))
  ]

-- On a table of keys in strict order the binary search ends, reads inside the table only, and finds a
-- key exactly if it is there.
pub search_keys-contains :
    (ks : List Bytes) (k : Bytes) → Ascending ks → search_keys ks k ≡ some (contains ks k)
unfolding search_keys
search_keys-contains ks k asc =
    search_loop_lem ks k asc (suc (length ks)) 0 (length ks) (omega arith) (record {
      ordered = omega arith;
      inside = omega arith;
      before = λ i a h e. absurd (omega arith);
      behind = λ i a h e. absurd (outside ks i a h e);
    })
