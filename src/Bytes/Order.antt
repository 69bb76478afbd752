-- ===== src/Bytes/Order.antt =====
-- `std::string::compare`: bytes as unsigned characters, and a proper prefix comes first.
use erlang_rocksdb.Prelude.{
  compare, Ordering, ◌≡◌, refl, ◌⊎◌, inl, inr, ◌↔◌, Bool, true, false, [], ◌∷◌, arith,
}
use erlang_rocksdb.Bytes.{Bytes}

abbrev pub flip : Ordering → Ordering
flip Ordering.lt = Ordering.gt
flip Ordering.eq = Ordering.eq
flip Ordering.gt = Ordering.lt

unfoldable pub compare_bytes : Bytes → Bytes → Ordering
compare_bytes [] [] = Ordering.eq
compare_bytes [] (y ∷ ys) = Ordering.lt
compare_bytes (x ∷ xs) [] = Ordering.gt
compare_bytes (x ∷ xs) (y ∷ ys) = elim (compare x y) [
  | Ordering.lt ↦ Ordering.lt
  | Ordering.gt ↦ Ordering.gt
  | Ordering.eq ↦ compare_bytes xs ys
]

abbrev pub Lt : Bytes → Bytes → Type 0
Lt a b = compare_bytes a b ≡ Ordering.lt

pub compare_bytes_self : (a : Bytes) → compare_bytes a a ≡ Ordering.eq
unfolding compare_bytes
compare_bytes_self [] = refl
compare_bytes_self (x ∷ xs) = ground (arith, compare_bytes_self xs)

pub eq_of_compare_bytes : (a b : Bytes) → compare_bytes a b ≡ Ordering.eq → a ≡ b
unfolding compare_bytes
eq_of_compare_bytes [] [] h = refl
eq_of_compare_bytes [] (y ∷ ys) h = cc
eq_of_compare_bytes (x ∷ xs) [] h = cc
eq_of_compare_bytes (x ∷ xs) (y ∷ ys) h = ground (arith, eq_of_compare_bytes xs ys)

pub compare_bytes-flip : (a b : Bytes) → compare_bytes b a ≡ flip (compare_bytes a b)
unfolding compare_bytes
compare_bytes-flip [] [] = refl
compare_bytes-flip [] (y ∷ ys) = refl
compare_bytes-flip (x ∷ xs) [] = refl
compare_bytes-flip (x ∷ xs) (y ∷ ys) = ground (arith, compare_bytes-flip xs ys)

pub Lt-trans : (a b c : Bytes) → Lt a b → Lt b c → Lt a c
unfolding compare_bytes
Lt-trans [] [] c h k = cc
Lt-trans [] (y ∷ ys) [] h k = cc
Lt-trans [] (y ∷ ys) (z ∷ zs) h k = refl
Lt-trans (x ∷ xs) [] c h k = cc
Lt-trans (x ∷ xs) (y ∷ ys) [] h k = cc
Lt-trans (x ∷ xs) (y ∷ ys) (z ∷ zs) h k = ground (arith, Lt-trans xs ys zs)

pub not-Lt-self : (a : Bytes) → ¬ (Lt a a)
not-Lt-self a h = cc (h, compare_bytes_self a)

pub Lt_of_gt : (a b : Bytes) → compare_bytes a b ≡ Ordering.gt → Lt b a
Lt_of_gt a b h = ground (arith, compare_bytes-flip a b)

Ordering-cases : (o : Ordering) → (o ≡ Ordering.lt) ⊎ (o ≡ Ordering.eq) ⊎ (o ≡ Ordering.gt)
Ordering-cases Ordering.lt = inl refl
Ordering-cases Ordering.eq = inr (inl refl)
Ordering-cases Ordering.gt = inr (inr refl)

-- `operator==` on strings.
unfoldable pub eqb : Bytes → Bytes → Bool
eqb a b = elim (compare_bytes a b) [ Ordering.eq ↦ true | _ ↦ false ]

pub eqb_self : (a : Bytes) → eqb a a ≡ true
unfolding eqb
eqb_self a = ground (arith, compare_bytes_self a)

pub eqb_iff : (a b : Bytes) → (eqb a b ≡ true) ↔ (a ≡ b)
unfolding eqb
eqb_iff a b =
    (λ h. ground (arith, eq_of_compare_bytes a b), λ e. ground (arith, compare_bytes_self a))

pub eqb_of_Lt : (a b : Bytes) → Lt a b → eqb a b ≡ false
unfolding eqb
eqb_of_Lt a b h = ground arith

pub eqb_comm : (a b : Bytes) → eqb a b ≡ eqb b a
unfolding eqb
eqb_comm a b = ground (arith, compare_bytes-flip a b)

-- The three outcomes of a comparison.
pub compare_bytes-cases :
    (a b : Bytes)
    → (compare_bytes a b ≡ Ordering.lt)
      ⊎ (compare_bytes a b ≡ Ordering.eq)
      ⊎ (compare_bytes a b ≡ Ordering.gt)
compare_bytes-cases a b = Ordering-cases (compare_bytes a b)
