-- ===== src/Ordered/Extensional.antt =====
-- Keys in ascending order are settled by which keys there are.
use erlang_rocksdb.Prelude.{
  ◌≡◌, refl, sym, ap, ap₂, ◌∙◌, inl, inr, List, [], ◌∷◌, arith, All, Bool-cases,
}
use erlang_rocksdb.Bytes.{Bytes}
use erlang_rocksdb.Bytes.Order.{
  Lt, Lt_of_gt, eqb, eqb_self, eqb_iff, eqb_comm, eqb_of_Lt, eq_of_compare_bytes,
  compare_bytes-cases,
}
use erlang_rocksdb.Ordered.Set.{Ascending, contains, not-contains-All, Lt-All}

-- A key below the first of the other list cannot be in it.
not-Lt-head :
    (x y : Bytes) (xs ys : List Bytes)
    → Ascending (y ∷ ys)
    → contains (x ∷ xs) x ≡ contains (y ∷ ys) x
    → ¬ (Lt x y)
unfolding contains
not-Lt-head x y xs ys h same l =
    ground (
      arith,
      eqb_self x,
      eqb_comm x y,
      eqb_of_Lt x y l,
      not-contains-All x ys (Lt-All x y ys l h.0),
    )

tail-same :
    (x : Bytes) (xs ys : List Bytes) (k : Bytes)
    → All (Lt x) xs
    → All (Lt x) ys
    → contains (x ∷ xs) k ≡ contains (x ∷ ys) k
    → contains xs k ≡ contains ys k
unfolding contains
tail-same x xs ys k hx hy same = elim (Bool-cases (eqb x k)) [
  | inl e ↦ rw (← (eqb_iff x k).0 e) (not-contains-All x xs hx ∙ sym (not-contains-All x ys hy))
  | inr e ↦ ground arith
]

pub Ascending-ext :
    (xs ys : List Bytes)
    → Ascending xs
    → Ascending ys
    → ((k : Bytes) → contains xs k ≡ contains ys k)
    → xs ≡ ys
Ascending-ext [] [] hx hy same = refl
Ascending-ext [] (y ∷ ys) hx hy same = unfold contains in ground (arith, same y, eqb_self y)
Ascending-ext (x ∷ xs) [] hx hy same = unfold contains in ground (arith, same x, eqb_self x)
Ascending-ext (x ∷ xs) (y ∷ ys) hx hy same = elim (compare_bytes-cases x y) [
  | inl l ↦ absurd (not-Lt-head x y xs ys hy (same x) l)
  | inr (inr g) ↦ absurd (not-Lt-head y x ys xs hx (sym (same y)) (Lt_of_gt x y g))
  | inr (inl q) ↦
      let e : x ≡ y = eq_of_compare_bytes x y q in
      let hy' : All (Lt x) ys = rw e hy.0 in
      ap₂ ◌∷◌ e (
        Ascending-ext xs ys hx.1 hy.1
          (λ k. tail-same x xs ys k hx.0 hy' (same k ∙ ap (λ z. contains (z ∷ ys) k) (sym e))))
]
