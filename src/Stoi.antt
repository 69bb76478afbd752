-- ===== src/Stoi.antt =====
-- `std::stoi` and `std::to_string` on `int`, for the counter and the bitset operators.
pub mod RoundTrip
use erlang_rocksdb.Prelude.{
  ℕ, zero, suc, ◌+◌, ◌-◌, ◌*◌, ◌/◌, ◌%◌, ◌^◌, ltb, leb, ◌==◌, Bool, true, false, ◌&&◌, ◌||◌, Option,
  none, some, List, [], ◌∷◌, ◌>>=◌, if◌then◌else◌,
}
use erlang_rocksdb.Prelude.Int.{ℤ, pos, negsuc}
use erlang_rocksdb.Bytes.{Bytes}

-- A value of the C++ type `int`.
abbrev pub is_int32 : ℤ → Bool
is_int32 (pos n) = ltb n (2 ^ 31)
is_int32 (negsuc n) = ltb n (2 ^ 31)

abbrev pub is_space : ℕ → Bool
is_space c = c == 32 || (leb 9 c && leb c 13)

abbrev pub is_digit : ℕ → Bool
is_digit c = leb b'0' c && leb c b'9'

unfoldable pub skip_space : Bytes → Bytes
skip_space [] = []
skip_space (c ∷ s) = if is_space c then skip_space s else c ∷ s

-- The digits at the front; what follows them is left.
unfoldable pub read_digits : ℕ → Bytes → ℕ
read_digits acc [] = acc
read_digits acc (c ∷ s) = if is_digit c then read_digits (acc * 10 + (c - b'0')) s else acc

-- No digit is `invalid_argument`.
unfoldable pub read_number : Bytes → Option ℕ
read_number [] = none
read_number (c ∷ s) = if is_digit c then some (read_digits 0 (c ∷ s)) else none

abbrev pub negate : ℕ → ℤ
negate zero = pos zero
negate (suc n) = negsuc n

unfoldable pub read_signed : Bytes → Option ℤ
read_signed [] = none
read_signed (c ∷ s) =
    if c == b'-'
    then (read_number s >>= λ n. some (negate n))
    else if c == b'+'
    then (read_number s >>= λ n. some (pos n))
    else (read_number (c ∷ s) >>= λ n. some (pos n))

-- A value outside `int` is `out_of_range`.
abbrev pub in_range : ℤ → Option ℤ
in_range n = if is_int32 n then some n else none

-- `none` is either exception.
unfoldable pub stoi : Bytes → Option ℤ
stoi s = read_signed (skip_space s) >>= in_range

-- The decimal digits of a number below 10 ^ fuel, in front of `rest`.
unfoldable pub digits : ℕ → ℕ → Bytes → Bytes
digits zero n rest = rest
digits (suc fuel) n rest = elim (ltb n 10) [
  | true ↦ (n + b'0') ∷ rest
  | false ↦ digits fuel (n / 10) ((n % 10 + b'0') ∷ rest)
]

-- An `int` has ten digits at most.
unfoldable pub to_string : ℤ → Bytes
to_string (pos n) = digits 10 n []
to_string (negsuc n) = b'-' ∷ digits 10 (suc n) []
