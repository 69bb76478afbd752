-- ===== src/RefObject/Tally.antt =====
-- Sums over the threads.
use erlang_rocksdb.Prelude.{
  ℕ, zero, suc, ◌+◌, ◌≤◌, ◌≡◌, refl, some, List, [], ◌∷◌, ◌++◌, length, get_elem?, set, arith,
  some_inj, ap,
}

module _ {ℓ} {A : Type ℓ} (w : A → ℕ) where
  abbrev pub tally : List A → ℕ
  tally [] = 0
  tally (x ∷ xs) = w x + tally xs

  pub tally-set :
      (xs : List A) (i : ℕ) (a b : A)
      → get_elem? xs i ≡ some a
      → tally (set xs i b) + w a ≡ tally xs + w b
  tally-set [] i a b h = cc
  tally-set (x ∷ xs) zero a b h = omega (arith, ap w (some_inj h))
  tally-set (x ∷ xs) (suc i) a b h = omega (arith, tally-set xs i a b h)

  pub tally-le : ((a : A) → w a ≤ 1) → (xs : List A) → tally xs ≤ length xs
  tally-le small [] = omega arith
  tally-le small (x ∷ xs) = omega (arith, small x, tally-le small xs)

  -- Where the sum is not 0 some thread counts.
  pub find_positive :
      (xs : List A) → 1 ≤ tally xs → (i : ℕ) × (a : A) × (get_elem? xs i ≡ some a) × (1 ≤ w a)
  find_positive [] h = absurd (omega arith)
  find_positive (x ∷ xs) h = by_head (find_positive xs) (w x) refl
    where
      by_head :
          (1 ≤ tally xs → (i : ℕ) × (a : A) × (get_elem? xs i ≡ some a) × (1 ≤ w a))
          → (n : ℕ) → w x ≡ n
          → (i : ℕ) × (a : A) × (get_elem? (x ∷ xs) i ≡ some a) × (1 ≤ w a)
      by_head later (suc n) e = (0, x, refl, omega arith)
      by_head later zero e = let (i, a, g, p) = later (omega arith) in (suc i, a, g, p)

  pub le-tally : (xs : List A) (i : ℕ) (a : A) → get_elem? xs i ≡ some a → w a ≤ tally xs
  le-tally [] i a h = cc
  le-tally (x ∷ xs) zero a h = omega (arith, ap w (some_inj h))
  le-tally (x ∷ xs) (suc i) a h = omega (arith, le-tally xs i a h)

  pub tally-append : (xs : List A) (y : A) → tally (xs ++ y ∷ []) ≡ tally xs + w y
  tally-append [] y = omega arith
  tally-append (x ∷ xs) y = omega (arith, tally-append xs y)
