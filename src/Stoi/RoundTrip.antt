-- ===== src/Stoi/RoundTrip.antt =====
-- `std::stoi` reads what `std::to_string` wrote.
use erlang_rocksdb.Prelude.{
  ℕ, zero, suc, ◌+◌, ◌*◌, ◌/◌, ◌%◌, ◌^◌, ◌<◌, ltb, ◌==◌, ◌≡◌, refl, ap, ◌∙◌, inl, inr, true, false,
  some, [], ◌∷◌, arith, Bool-cases,
}
use native.Mathlib.Nat.{pow-suc}
use erlang_rocksdb.Prelude.Int.{ℤ, pos, negsuc}
use erlang_rocksdb.Bytes.{Bytes}
use erlang_rocksdb.Stoi.{
  is_int32, is_space, is_digit, skip_space, read_digits, read_number, read_signed, stoi, digits,
  to_string,
}

read_digits-digit :
    (acc d : ℕ) (rest : Bytes)
    → d < 10
    → read_digits acc ((d + b'0') ∷ rest) ≡ read_digits (acc * 10 + d) rest
unfolding read_digits
read_digits-digit acc d rest h = ground arith

read_digits-digits :
    (fuel n : ℕ) (rest : Bytes)
    → n < 10 ^ fuel
    → read_digits 0 (digits fuel n rest) ≡ read_digits n rest
unfolding digits
read_digits-digits zero n rest h = ap (λ m. read_digits m rest) (omega arith)
read_digits-digits (suc fuel) n rest h = elim (Bool-cases (ltb n 10)) [
  | inl e ↦
      rw (e, digits)
        (read_digits-digit 0 n rest (ground arith) ∙ ap (λ m. read_digits m rest) (omega arith))
  | inr e ↦
      rw (e, digits)
        (read_digits-digits fuel (n / 10) ((n % 10 + b'0') ∷ rest) (omega (arith, pow-suc 10 fuel))
          ∙ read_digits-digit (n / 10) (n % 10) rest (omega arith)
          ∙ ap (λ m. read_digits m rest) (omega arith))
]

-- A text that begins with a digit.
abbrev DigitFirst : Bytes → Type 0
DigitFirst [] = ⊥
DigitFirst (c ∷ s) = is_digit c ≡ true

digits_keep : (fuel n : ℕ) (rest : Bytes) → DigitFirst rest → DigitFirst (digits fuel n rest)
unfolding digits
digits_keep zero n rest h = h
digits_keep (suc fuel) n rest h = elim (Bool-cases (ltb n 10)) [
  | inl e ↦ rw (e, digits, DigitFirst) (ground arith)
  | inr e ↦ rw (e, digits) (digits_keep fuel (n / 10) ((n % 10 + b'0') ∷ rest) (ground arith))
]

digits_first : (fuel n : ℕ) (rest : Bytes) → DigitFirst (digits (suc fuel) n rest)
unfolding digits
digits_first fuel n rest = elim (Bool-cases (ltb n 10)) [
  | inl e ↦ rw (e, digits, DigitFirst) (ground arith)
  | inr e ↦ rw (e, digits) (digits_keep fuel (n / 10) ((n % 10 + b'0') ∷ rest) (ground arith))
]

read_number_first : (s : Bytes) → DigitFirst s → read_number s ≡ some (read_digits 0 s)
unfolding read_number
read_number_first [] h = elim h [ ]
read_number_first (c ∷ s) h = rw h

read_signed_first :
    (s : Bytes) → DigitFirst s → read_signed (skip_space s) ≡ some (pos (read_digits 0 s))
unfolding read_signed skip_space
read_signed_first [] h = elim h [ ]
read_signed_first (c ∷ s) h =
    let space : is_space c ≡ false = ground arith in
    let minus : (c == b'-') ≡ false = ground arith in
    let plus : (c == b'+') ≡ false = ground arith in
    rw space (rw (minus, read_signed) (rw plus (rw (read_number_first (c ∷ s) h))))

read_number-digits : (n : ℕ) → n < 10 ^ 10 → read_number (digits 10 n []) ≡ some n
read_number-digits n h =
    read_number_first (digits 10 n []) (digits_first 9 n [])
    ∙ ap some (read_digits-digits 10 n [] h ∙ unfold read_digits in refl)

-- Every `int` that is printed is read back.
pub stoi-to_string : (n : ℤ) → is_int32 n ≡ true → stoi (to_string n) ≡ some n
unfolding stoi to_string
stoi-to_string (pos n) h =
    rw (read_signed_first (digits 10 n []) (digits_first 9 n []))
      (rw (read_digits-digits 10 n [] (ground arith)) (unfold read_digits in rw h))
stoi-to_string (negsuc n) h =
    unfold read_signed skip_space in rw (read_number-digits (suc n) (ground arith)) (rw h)
