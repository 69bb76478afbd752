-- ===== src/ErlangMerge/Lists.antt =====
-- Merges of lists: what `list_substract` and a range of `list_delete` take away.
use erlang_rocksdb.Prelude.{
  ℕ, zero, suc, ◌+◌, ◌-◌, ◌≡◌, refl, sym, ap, ◌∙◌, inl, inr, Bool, true, List, [], ◌∷◌, ◌++◌, arith,
  if◌then◌else◌, Bool-cases, length, take, drop, ltb, leb,
}
use erlang_rocksdb.Term.{Term}
use erlang_rocksdb.ErlangMerge.Operations.{
  merged, rejected, erase_first, substract, erase_at, erase_times, erase_range,
}

-- What the term order is documented to be about equality: an equivalence.
pub record IsEquivalence (eq : Term → Term → Bool) : Type 0 where
  pub self : (t : Term) → eq t t ≡ true
  pub same : (t u v : Term) → eq t u ≡ true → eq t v ≡ eq u v

-- How often a term, or one that compares equal to it, stands in a list.
abbrev pub count : (Term → Term → Bool) → Term → List Term → ℕ
count eq k [] = 0
count eq k (t ∷ ts) = (if eq t k then 1 else 0) + count eq k ts

module _ (eq : Term → Term → Bool) (laws : IsEquivalence eq) where
  -- If both compare equal to `k`, the one compares equal to the other.
  joined : (t h k : Term) → eq t k ≡ true → eq h k ≡ true → eq t h ≡ true
  joined t h k a b = laws.same t k h a ∙ sym (laws.same h k h b) ∙ laws.self h

  count-erase_first :
      (h k : Term) (l : List Term)
      → count eq k (erase_first eq h l) ≡ count eq k l - (if eq h k then 1 else 0)
  unfolding erase_first
  count-erase_first h k [] = ground arith
  count-erase_first h k (t ∷ ts) = elim (Bool-cases (eq t h)) [
    | inl e ↦ rw (e, erase_first) (ground (arith, laws.same t h k e))
    | inr e ↦ rw (e, erase_first) (ground (arith, count-erase_first h k ts, joined t h k))
  ]

  -- If the term comparison is an equivalence, `list_substract` leaves of every term as many as the
  -- list had, less those that the operand's list has, and none where these are more.
  pub count-substract :
      (k : Term) (list items : List Term)
      → count eq k (substract eq list items) ≡ count eq k list - count eq k items
  unfolding substract
  count-substract k list [] = omega arith
  count-substract k list (h ∷ items) =
      omega (arith, count-substract k (erase_first eq h list) items, count-erase_first h k list)

erase_at-take : (n : ℕ) (l : List Term) → erase_at n l ≡ take n l ++ drop (suc n) l
unfolding erase_at
erase_at-take zero [] = refl
erase_at-take (suc n) [] = refl
erase_at-take zero (t ∷ l) = refl
erase_at-take (suc n) (t ∷ l) = ap (◌∷◌ t) (erase_at-take n l)

erase_times-cons :
    (n p : ℕ) (t : Term) (l : List Term) → erase_times n (suc p) (t ∷ l) ≡ t ∷ erase_times n p l
unfolding erase_times erase_at
erase_times-cons zero p t l = refl
erase_times-cons (suc n) p t [] = erase_times-cons n p t []
erase_times-cons (suc n) p t (u ∷ l) = erase_times-cons n p t (erase_at p (u ∷ l))

erase_times-nil : (n p : ℕ) → erase_times n p [] ≡ []
unfolding erase_times erase_at
erase_times-nil zero p = refl
erase_times-nil (suc n) p = erase_times-nil n p

erase_times-front : (n : ℕ) (l : List Term) → erase_times n 0 l ≡ drop n l
unfolding erase_times erase_at
erase_times-front zero l = refl
erase_times-front (suc n) [] = erase_times-nil n 0
erase_times-front (suc n) (t ∷ l) = erase_times-front n l

erase_times-take :
    (p n m : ℕ) (l : List Term) → m ≡ p + n → erase_times n p l ≡ take p l ++ drop m l
erase_times-take zero n m l e = erase_times-front n l ∙ ap (λ i. drop i l) (omega arith)
erase_times-take (suc p) n zero l e = absurd (omega arith)
erase_times-take (suc p) n (suc m) [] e = erase_times-nil n (suc p)
erase_times-take (suc p) n (suc m) (t ∷ l) e =
    erase_times-cons n p t l ∙ ap (◌∷◌ t) (erase_times-take p n m l (omega arith))

-- `{list_delete, Start, End}` takes away the elements from `Start` to `End`, both included; it is
-- rejected if `Start` is not below `End`, and does nothing if `End` is past the list.
pub erase_range-take :
    (start stop : ℕ) (l : List Term)
    → erase_range start stop l ≡ (
        if leb stop start
        then rejected
        else if ltb stop (length l)
        then merged (take start l ++ drop (suc stop) l)
        else merged l)
unfolding erase_range
erase_range-take start stop l = elim (Bool-cases (leb stop start)) [
  | inl e ↦ rw (e, erase_range)
  | inr e ↦
      rw (e, erase_range)
        (ap (λ x. merged (if ltb stop (length l) then x else l))
            (erase_times-take start (stop + 1 - start) (suc stop) l (ground arith))
          ∙ ground arith)
]
