-- ===== src/Ordered/Map.antt =====
-- `std::map<std::string, V>`: the entries in iteration order.
use erlang_rocksdb.Prelude.{
  Ordering, ◌≡◌, refl, ap, ◌∙◌, ◌⊎◌, inl, inr, false, Option, none, some, List, [], ◌∷◌, map, arith,
  if◌then◌else◌,
}
use erlang_rocksdb.Bytes.{Bytes}
use erlang_rocksdb.Bytes.Order
use erlang_rocksdb.Bytes.Order.{
  compare_bytes, Lt, Lt_of_gt, eqb, eqb_self, eqb_iff, eq_of_compare_bytes, compare_bytes-cases,
}
use erlang_rocksdb.Ordered.Set
use erlang_rocksdb.Ordered.Set.{Ascending, insert-Ascending}

module _ {ℓ} {V : Type ℓ} where
  -- `states[key] = v`: a key that is present keeps its place.
  unfoldable pub insert : Bytes → V → List (Bytes × V) → List (Bytes × V)
  insert k v [] = (k, v) ∷ []
  insert k v ((j, w) ∷ m) = elim (compare_bytes k j) [
    | Ordering.lt ↦ (k, v) ∷ (j, w) ∷ m
    | Ordering.eq ↦ (j, v) ∷ m
    | Ordering.gt ↦ (j, w) ∷ insert k v m
  ]

  -- `states.find(key)`
  unfoldable pub find : List (Bytes × V) → Bytes → Option V
  find [] k = none
  find ((j, w) ∷ m) k = if eqb j k then some w else find m k

  abbrev pub keys : List (Bytes × V) → List Bytes
  keys = map λ e. e.0

  pub insert-cases :
      (k : Bytes) (v : V) (j : Bytes) (w : V) (m : List (Bytes × V))
      → (insert k v ((j, w) ∷ m) ≡ (k, v) ∷ (j, w) ∷ m) × Lt k j
        ⊎ ((k ≡ j) × (insert k v ((j, w) ∷ m) ≡ (j, v) ∷ m))
        ⊎ ((insert k v ((j, w) ∷ m) ≡ (j, w) ∷ insert k v m) × Lt j k)
  unfolding insert
  insert-cases k v j w m = elim (compare_bytes-cases k j) [
    | inl e ↦ inl (rw (e, insert), e)
    | inr (inl e) ↦ inr (inl (eq_of_compare_bytes k j e, rw (e, insert)))
    | inr (inr e) ↦ inr (inr (rw (e, insert), Lt_of_gt k j e))
  ]

  -- The keys change as the set of keys does.
  pub keys-insert :
      (k : Bytes) (v : V) (m : List (Bytes × V)) → keys (insert k v m) ≡ Set.insert k (keys m)
  unfolding insert Set.insert
  keys-insert k v [] = refl
  keys-insert k v ((j, w) ∷ m) = ground (arith, keys-insert k v m)

  pub insert-Ascending-keys :
      (k : Bytes) (v : V) (m : List (Bytes × V))
      → Ascending (keys m)
      → Ascending (keys (insert k v m))
  insert-Ascending-keys k v m h = rw (keys-insert k v m) (insert-Ascending k (keys m) h)

  -- What is found after a write.
  pub find-insert :
      (k : Bytes) (v : V) (m : List (Bytes × V)) (i : Bytes)
      → find (insert k v m) i ≡ (if eqb k i then some v else find m i)
  unfolding find
  find-insert k v [] i = unfold insert in refl
  find-insert k v ((j, w) ∷ m) i = elim (insert-cases k v j w m) [
    | inl (e, _) ↦ ap (λ s. find s i) e
    | inr (inl (q, e)) ↦ ap (λ s. find s i) e ∙ ground arith
    | inr (inr (e, l)) ↦
        ap (λ s. find s i) e
        ∙ ground (arith, find-insert k v m i, eqb_iff j i, eqb_iff k i, order j k l)
  ]
    where
      order : (a b : Bytes) → Lt a b → eqb a b ≡ false
      order a b l = Order.eqb_of_Lt a b l
