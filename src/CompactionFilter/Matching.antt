-- ===== src/CompactionFilter/Matching.antt =====
-- The rules of c_src/compaction_filter.cc against what c_src/compaction_filter.h says of each.
use erlang_rocksdb.Prelude.{
  ℕ, zero, suc, ◌-◌, ◌≡◌, refl, sym, ap, ap₂, ◌∙◌, ◌↔◌, inl, inr, true, false, leb, [], ◌∷◌, ◌++◌,
  length, length-append, take, drop, drop-length_append, arith, Bool-cases, subst,
}
use erlang_rocksdb.Bytes.{Bytes}
use erlang_rocksdb.CompactionFilter.Rules.{equal, starts_with, ends_with, found}

-- The prefix, the suffix and the infix of a string, by what stands around it.
pub StartsWith : Bytes → Bytes → Type 0
StartsWith s pattern = (rest : Bytes) × (s ≡ pattern ++ rest)

pub EndsWith : Bytes → Bytes → Type 0
EndsWith s pattern = (rest : Bytes) × (s ≡ rest ++ pattern)

pub Contains : Bytes → Bytes → Type 0
Contains s pattern = (before : Bytes) × (after : Bytes) × (s ≡ before ++ pattern ++ after)

starts_with-append : (pattern rest : Bytes) → starts_with (pattern ++ rest) pattern ≡ true
unfolding starts_with
starts_with-append [] rest = refl
starts_with-append (p ∷ pattern) rest = ground (arith, starts_with-append pattern rest)

starts_with_sound : (s pattern : Bytes) → starts_with s pattern ≡ true → StartsWith s pattern
unfolding starts_with StartsWith
starts_with_sound s [] h = (s, refl)
starts_with_sound [] (p ∷ ps) h = absurd (ground arith)
starts_with_sound (c ∷ s) (p ∷ ps) h =
    let same : c ≡ p = ground arith in
    let (rest, e) = starts_with_sound s ps (ground arith) in (rest, ap₂ ◌∷◌ same e)

pub starts_with-StartsWith :
    (s pattern : Bytes) → (starts_with s pattern ≡ true) ↔ StartsWith s pattern
unfolding StartsWith
starts_with-StartsWith s pattern = (
  starts_with_sound s pattern,
  λ (rest, e). subst (λ t. starts_with t pattern ≡ true) (sym e) (starts_with-append pattern rest),
)

equal_sound : (xs ys : Bytes) → equal xs ys ≡ true → xs ≡ ys
unfolding equal
equal_sound [] [] h = refl
equal_sound [] (y ∷ ys) h = absurd (ground arith)
equal_sound (x ∷ xs) [] h = absurd (ground arith)
equal_sound (x ∷ xs) (y ∷ ys) h =
    let same : x ≡ y = ground arith in ap₂ ◌∷◌ same (equal_sound xs ys (ground arith))

equal_refl : (xs : Bytes) → equal xs xs ≡ true
unfolding equal
equal_refl [] = refl
equal_refl (x ∷ xs) = ground (arith, equal_refl xs)

false≢true : false ≡ true → ⊥
false≢true e = cc

take-drop : (n : ℕ) (s : Bytes) → take n s ++ drop n s ≡ s
take-drop zero s = refl
take-drop (suc n) [] = refl
take-drop (suc n) (c ∷ s) = ap (◌∷◌ c) (take-drop n s)

pub ends_with-EndsWith : (s pattern : Bytes) → (ends_with s pattern ≡ true) ↔ EndsWith s pattern
unfolding ends_with EndsWith
ends_with-EndsWith s pattern =
    (sound, λ (rest, e). subst (λ t. ends_with t pattern ≡ true) (sym e) (complete rest))
  where
    last : Bytes
    last = drop (length s - length pattern) s

    sound : ends_with s pattern ≡ true → EndsWith s pattern
    sound h = elim (Bool-cases (leb (length pattern) (length s))) [
      | inl e ↦ (
        take (length s - length pattern) s,
        sym (take-drop (length s - length pattern) s)
            ∙ ap (◌++◌ (take (length s - length pattern) s))
                (equal_sound last pattern (rw (e) at h)),
      )
      | inr e ↦ absurd (false≢true (rw (e) at h))
    ]

    complete : (rest : Bytes) → ends_with (rest ++ pattern) pattern ≡ true
    complete rest =
        let n : length (rest ++ pattern) - length pattern ≡ length rest =
          omega (arith, length-append rest pattern) in
        let fits : leb (length pattern) (length (rest ++ pattern)) ≡ true =
          ground (arith, length-append rest pattern) in
        rw (fits, n, drop-length_append rest pattern, equal_refl pattern) refl

found_empty : (s : Bytes) → found s [] ≡ true
unfolding found starts_with
found_empty [] = refl
found_empty (c ∷ s) = refl

found-append : (before pattern after : Bytes) → found (before ++ pattern ++ after) pattern ≡ true
unfolding found
found-append [] [] after = found_empty after
found-append [] (p ∷ pattern) after = rw (starts_with-append (p ∷ pattern) after) refl
found-append (b ∷ before) pattern after =
    elim (Bool-cases (starts_with (b ∷ before ++ pattern ++ after) pattern)) [
      | inl e ↦ rw (e) refl
      | inr e ↦ rw (e) (found-append before pattern after)
    ]

found_sound : (s pattern : Bytes) → found s pattern ≡ true → Contains s pattern
unfolding found Contains StartsWith
found_sound [] pattern h = let (rest, e) = starts_with_sound [] pattern h in ([], rest, e)
found_sound (c ∷ s) pattern h = elim (Bool-cases (starts_with (c ∷ s) pattern)) [
  | inl e ↦ let (rest, f) = starts_with_sound (c ∷ s) pattern e in ([], rest, f)
  | inr e ↦
      let (before, after, f) = found_sound s pattern (rw (e) at h) in
      (c ∷ before, after, ap (◌∷◌ c) f)
]

pub found-Contains : (s pattern : Bytes) → (found s pattern ≡ true) ↔ Contains s pattern
unfolding Contains
found-Contains s pattern = (
  found_sound s pattern,
  λ (before, after, e).
      subst (λ t. found t pattern ≡ true) (sym e) (found-append before pattern after),
)
