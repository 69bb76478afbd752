-- ===== src/Ordered/Set.antt =====
-- `std::set<std::string>`: the keys in iteration order.
use erlang_rocksdb.Prelude.{
  Ordering, ◌≡◌, refl, sym, ap, subst, ◌⊎◌, ◌∙◌, append-nil, append_assoc, Bool, false, ◌||◌, List,
  [], ◌∷◌, ◌++◌, arith, All, foldl, All-map, inl, inr,
}
use erlang_rocksdb.Bytes.{Bytes}
use erlang_rocksdb.Bytes.Order.{
  compare_bytes, Lt, Lt-trans, Lt_of_gt, eqb, eqb_of_Lt, eqb_comm, eq_of_compare_bytes,
  compare_bytes-cases, not-Lt-self,
}

-- Each key is below all that follow it.
abbrev pub Ascending : List Bytes → Type 0
Ascending [] = Unit {0}
Ascending (k ∷ ks) = All (Lt k) ks × Ascending ks

-- `result.insert(key)`
unfoldable pub insert : Bytes → List Bytes → List Bytes
insert k [] = k ∷ []
insert k (j ∷ js) = elim (compare_bytes k j) [
  | Ordering.lt ↦ k ∷ j ∷ js
  | Ordering.eq ↦ j ∷ js
  | Ordering.gt ↦ j ∷ insert k js
]

-- `keys.count(key) > 0`
unfoldable pub contains : List Bytes → Bytes → Bool
contains [] k = false
contains (j ∷ js) k = eqb j k || contains js k

-- `result.insert(first, last)`
abbrev pub insert_all : List Bytes → List Bytes → List Bytes
insert_all = foldl (λ s k. insert k s)

-- Where a key goes, and what the comparison says.
pub insert-cases :
    (k j : Bytes) (js : List Bytes)
    → (Lt k j × (insert k (j ∷ js) ≡ k ∷ j ∷ js))
      ⊎ ((k ≡ j) × (insert k (j ∷ js) ≡ j ∷ js))
      ⊎ (Lt j k × (insert k (j ∷ js) ≡ j ∷ insert k js))
unfolding insert
insert-cases k j js = elim (compare_bytes-cases k j) [
  | inl e ↦ inl (e, rw (e, insert))
  | inr (inl e) ↦ inr (inl (eq_of_compare_bytes k j e, rw (e, insert)))
  | inr (inr e) ↦ inr (inr (Lt_of_gt k j e, rw (e, insert)))
]

All-insert {κ} :
    (P : Bytes → Type κ) (k : Bytes) (ks : List Bytes) → P k → All P ks → All P (insert k ks)
unfolding insert
All-insert P k [] p h = (p, tt)
All-insert P k (j ∷ js) p h = elim (insert-cases k j js) [
  | inl (_, e) ↦ rw (e, All) (p, h)
  | inr (inl (_, e)) ↦ rw (e, All) h
  | inr (inr (_, e)) ↦ rw (e, All) (h.0, All-insert P k js p h.1)
]

pub Lt-All : (k j : Bytes) (js : List Bytes) → Lt k j → All (Lt j) js → All (Lt k) js
Lt-All k j js h = All-map (λ i. Lt-trans k j i h) js

pub insert-Ascending : (k : Bytes) (ks : List Bytes) → Ascending ks → Ascending (insert k ks)
unfolding insert
insert-Ascending k [] h = (tt, tt)
insert-Ascending k (j ∷ js) h = elim (insert-cases k j js) [
  | inl (l, e) ↦ rw (e, Ascending) ((l, Lt-All k j js l h.0), h)
  | inr (inl (_, e)) ↦ rw (e, Ascending) h
  | inr (inr (g, e)) ↦ rw (e, Ascending) (All-insert (Lt j) k js g h.0, insert-Ascending k js h.1)
]

pub contains-insert :
    (k : Bytes) (ks : List Bytes) (i : Bytes)
    → contains (insert k ks) i ≡ (eqb k i || contains ks i)
unfolding insert contains
contains-insert k [] i = refl
contains-insert k (j ∷ js) i = elim (insert-cases k j js) [
  | inl (_, e) ↦ ap (λ s. contains s i) e
  | inr (inl (q, e)) ↦ ap (λ s. contains s i) e ∙ ground arith
  | inr (inr (_, e)) ↦ ap (λ s. contains s i) e ∙ ground (arith, contains-insert k js i)
]

pub not-contains-All : (k : Bytes) (ks : List Bytes) → All (Lt k) ks → contains ks k ≡ false
unfolding contains
not-contains-All k [] h = refl
not-contains-All k (j ∷ js) h =
    ground (arith, eqb_of_Lt k j h.0, eqb_comm k j, not-contains-All k js h.1)

middle : (k j : Bytes) (js rest : List Bytes) → All (Lt j) (js ++ k ∷ rest) → Lt j k
middle k j [] rest h = h.0
middle k j (i ∷ js) rest h = middle k j js rest h.1

-- Inserting a key that is above all others appends it.
pub insert_last :
    (k : Bytes) (ks rest : List Bytes) → Ascending (ks ++ k ∷ rest) → insert k ks ≡ ks ++ k ∷ []
unfolding insert
insert_last k [] rest h = refl
insert_last k (j ∷ js) rest h = elim (insert-cases k j js) [
  | inl (l, _) ↦ absurd (not-Lt-self k (Lt-trans k j k l (middle k j js rest h.0)))
  | inr (inl (q, _)) ↦ absurd (not-Lt-self k (subst (λ i. Lt i k) (sym q) (middle k j js rest h.0)))
  | inr (inr (_, e)) ↦ e ∙ ap (◌∷◌ j) (insert_last k js rest h.1)
]

pub insert_all-Ascending : (ks s : List Bytes) → Ascending s → Ascending (insert_all s ks)
insert_all-Ascending [] s h = h
insert_all-Ascending (k ∷ ks) s h = insert_all-Ascending ks (insert k s) (insert-Ascending k s h)

-- Inserting keys that ascend already leaves the list as it is.
pub insert_all-append : (ks s : List Bytes) → Ascending (s ++ ks) → insert_all s ks ≡ s ++ ks
insert_all-append [] s h = sym (append-nil s)
insert_all-append (k ∷ ks) s h = rw (insert_last k s ks h) (
    insert_all-append ks (s ++ k ∷ []) (rw (append_assoc s (k ∷ []) ks) h)
    ∙ append_assoc s (k ∷ []) ks)

pub contains-insert_all :
    (ks s : List Bytes) (i : Bytes) → contains (insert_all s ks) i ≡ (contains s i || contains ks i)
unfolding contains
contains-insert_all [] s i = ground arith
contains-insert_all (k ∷ ks) s i =
    ground (arith, contains-insert_all ks (insert k s) i, contains-insert k s i)
