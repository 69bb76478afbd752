-- ===== src/Bytes/BigEndian.antt =====
-- 32-bit numbers as four bytes, most significant first, and reads that check the end of the input.
use erlang_rocksdb.Prelude.{
  ℕ, ◌+◌, ◌*◌, ◌/◌, ◌%◌, ◌^◌, ◌<◌, ◌≡◌, refl, Option, none, some, [], ◌∷◌, ◌++◌, arith, length,
  length-append, length-drop, take, drop, take-length_append, drop-length_append, leb, le→leb,
  if◌then◌else◌,
}
use erlang_rocksdb.Bytes.{Bytes}

-- `static_cast<uint32_t>(size)`
abbrev pub to_u32 : ℕ → ℕ
to_u32 n = n % 2 ^ 32

-- `push_back((v >> 24) & 0xFF)`, and so on down to `push_back(v & 0xFF)`.
unfoldable pub u32_bytes : ℕ → Bytes
u32_bytes v = (v / 2 ^ 24 % 256) ∷ (v / 2 ^ 16 % 256) ∷ (v / 2 ^ 8 % 256) ∷ (v % 256) ∷ []

-- `(ptr[0] << 24) | (ptr[1] << 16) | (ptr[2] << 8) | ptr[3]`; the shifted bytes do not overlap.
unfoldable pub u32_of : ℕ → ℕ → ℕ → ℕ → ℕ
u32_of b0 b1 b2 b3 = b0 * 2 ^ 24 + b1 * 2 ^ 16 + b2 * 2 ^ 8 + b3

-- Reads at a pointer: what stands from the pointer to the end of the input is the list.
-- `none` is `ptr + 4 > end`, `ptr >= end` and `ptr + n > end`.
unfoldable pub take_u32 : Bytes → Option (ℕ × Bytes)
take_u32 (b0 ∷ b1 ∷ b2 ∷ b3 ∷ rest) = some (u32_of b0 b1 b2 b3, rest)
take_u32 _ = none

unfoldable pub take_byte : Bytes → Option (ℕ × Bytes)
take_byte [] = none
take_byte (b ∷ rest) = some (b, rest)

unfoldable pub take_bytes : ℕ → Bytes → Option (Bytes × Bytes)
take_bytes n d = if leb n (length d) then some (take n d, drop n d) else none

pub length-u32_bytes : (v : ℕ) → length (u32_bytes v) ≡ 4
unfolding u32_bytes
length-u32_bytes v = refl

pub u32_of-bytes :
    (v : ℕ)
    → v < 2 ^ 32
    → u32_of (v / 2 ^ 24 % 256) (v / 2 ^ 16 % 256) (v / 2 ^ 8 % 256) (v % 256) ≡ v
unfolding u32_of
u32_of-bytes v h = omega arith

pub take_u32-u32_bytes :
    (v : ℕ) (rest : Bytes) → v < 2 ^ 32 → take_u32 (u32_bytes v ++ rest) ≡ some (v, rest)
unfolding take_u32 u32_bytes
take_u32-u32_bytes v rest h = rw (u32_of-bytes v h)

pub take_bytes-append : (k rest : Bytes) → take_bytes (length k) (k ++ rest) ≡ some (k, rest)
unfolding take_bytes
take_bytes-append k rest =
    rw (le→leb (length k) (length (k ++ rest)) (omega (arith, length-append k rest)))
      (rw (take-length_append k rest, drop-length_append k rest))

pub take_u32_shorter :
    (d : Bytes) (v : ℕ) (r : Bytes) → take_u32 d ≡ some (v, r) → length r + 4 ≡ length d
unfolding take_u32
take_u32_shorter [] v r h = cc
take_u32_shorter (a ∷ []) v r h = cc
take_u32_shorter (a ∷ b ∷ []) v r h = cc
take_u32_shorter (a ∷ b ∷ c ∷ []) v r h = cc
take_u32_shorter (a ∷ b ∷ c ∷ e ∷ d) v r h = ground arith

pub take_byte_shorter :
    (d : Bytes) (v : ℕ) (r : Bytes) → take_byte d ≡ some (v, r) → length r + 1 ≡ length d
unfolding take_byte
take_byte_shorter [] v r h = cc
take_byte_shorter (a ∷ d) v r h = ground arith

pub take_bytes_shorter :
    (n : ℕ) (d k r : Bytes) → take_bytes n d ≡ some (k, r) → length r + n ≡ length d
unfolding take_bytes
take_bytes_shorter n d k r h = ground (arith, length-drop n d)
