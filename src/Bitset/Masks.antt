-- ===== src/Bitset/Masks.antt =====
-- The masks of c_src/bitset_merge_operator.cc on the array: one bit changes and the others stay.
use erlang_rocksdb.Prelude.{
  ℕ, zero, suc, ◌*◌, ◌/◌, ◌%◌, ◌<◌, ◌≡◌, refl, ap, ◌∙◌, Bool, false, not, ◌&&◌, ◌||◌, ◌==◌, [], ◌∷◌,
  length, arith,
}
use erlang_rocksdb.Bytes.{Bytes, IsBytes}
use erlang_rocksdb.Bitset.{bit_mask, set_mask, clear_mask}
use erlang_rocksdb.Bitset.Bits.{byte_bit, byte_bit-or, byte_bit-and, or_mask_byte, and_mask_byte}

-- Bit `i` of the array; false past its end.
abbrev pub bit_in : Bytes → ℕ → ℕ → Bool
bit_in [] ofs j = false
bit_in (b ∷ d) zero j = byte_bit b j
bit_in (b ∷ d) (suc ofs) j = bit_in d ofs j

abbrev pub test_bit : Bytes → ℕ → Bool
test_bit d i = bit_in d (i / 8) (i % 8)

pub length-set_mask : (ofs mask : ℕ) (d : Bytes) → length (set_mask ofs mask d) ≡ length d
unfolding set_mask
length-set_mask ofs mask [] = refl
length-set_mask zero mask (b ∷ d) = refl
length-set_mask (suc ofs) mask (b ∷ d) = ap suc (length-set_mask ofs mask d)

pub length-clear_mask : (ofs mask : ℕ) (d : Bytes) → length (clear_mask ofs mask d) ≡ length d
unfolding clear_mask
length-clear_mask ofs mask [] = refl
length-clear_mask zero mask (b ∷ d) = refl
length-clear_mask (suc ofs) mask (b ∷ d) = ap suc (length-clear_mask ofs mask d)

-- The bytes stay bytes.
pub set_mask-IsBytes :
    (ofs j : ℕ) (d : Bytes) → j < 8 → IsBytes d → IsBytes (set_mask ofs (bit_mask j) d)
unfolding set_mask
set_mask-IsBytes ofs j [] hj h = tt
set_mask-IsBytes zero j (b ∷ d) hj h = (or_mask_byte b j h.0 hj, h.1)
set_mask-IsBytes (suc ofs) j (b ∷ d) hj h = (h.0, set_mask-IsBytes ofs j d hj h.1)

pub clear_mask-IsBytes :
    (ofs j : ℕ) (d : Bytes) → j < 8 → IsBytes d → IsBytes (clear_mask ofs (bit_mask j) d)
unfolding clear_mask
clear_mask-IsBytes ofs j [] hj h = tt
clear_mask-IsBytes zero j (b ∷ d) hj h = (and_mask_byte b j h.0 hj, h.1)
clear_mask-IsBytes (suc ofs) j (b ∷ d) hj h = (h.0, clear_mask-IsBytes ofs j d hj h.1)

pub bit_in-set_mask :
    (d : Bytes) (ofs j o k : ℕ)
    → IsBytes d
    → j < 8
    → k < 8
    → ofs < length d
    → bit_in (set_mask ofs (bit_mask j) d) o k ≡ ((o == ofs && k == j) || bit_in d o k)
unfolding set_mask
bit_in-set_mask [] ofs j o k h hj hk ho = elim ho [ ]
bit_in-set_mask (b ∷ d) zero j zero k h hj hk ho = byte_bit-or b j k h.0 hj hk
bit_in-set_mask (b ∷ d) zero j (suc o) k h hj hk ho = ground arith
bit_in-set_mask (b ∷ d) (suc ofs) j zero k h hj hk ho = ground arith
bit_in-set_mask (b ∷ d) (suc ofs) j (suc o) k h hj hk ho =
    bit_in-set_mask d ofs j o k h.1 hj hk (omega arith) ∙ ground arith

pub bit_in-clear_mask :
    (d : Bytes) (ofs j o k : ℕ)
    → IsBytes d
    → j < 8
    → k < 8
    → ofs < length d
    → bit_in (clear_mask ofs (bit_mask j) d) o k ≡ (not (o == ofs && k == j) && bit_in d o k)
unfolding clear_mask
bit_in-clear_mask [] ofs j o k h hj hk ho = elim ho [ ]
bit_in-clear_mask (b ∷ d) zero j zero k h hj hk ho = byte_bit-and b j k h.0 hj hk
bit_in-clear_mask (b ∷ d) zero j (suc o) k h hj hk ho = ground arith
bit_in-clear_mask (b ∷ d) (suc ofs) j zero k h hj hk ho = ground arith
bit_in-clear_mask (b ∷ d) (suc ofs) j (suc o) k h hj hk ho =
    bit_in-clear_mask d ofs j o k h.1 hj hk (omega arith) ∙ ground arith

bit_place : (i p : ℕ) → (i / 8 == p / 8 && i % 8 == p % 8) ≡ (i == p)
bit_place i p = ground arith

module _ (d : Bytes) (p i : ℕ) (h : IsBytes d) (hp : p < 8 * length d) where
  pub test_bit-set_mask :
      test_bit (set_mask (p / 8) (bit_mask (p % 8)) d) i ≡ (i == p || test_bit d i)
  test_bit-set_mask =
      bit_in-set_mask d (p / 8) (p % 8) (i / 8) (i % 8) h (omega arith) (omega arith) (omega arith)
      ∙ ap (λ t. t || test_bit d i) (bit_place i p)

  pub test_bit-clear_mask :
      test_bit (clear_mask (p / 8) (bit_mask (p % 8)) d) i ≡ (not (i == p) && test_bit d i)
  test_bit-clear_mask =
      bit_in-clear_mask d (p / 8) (p % 8) (i / 8) (i % 8) h (omega arith) (omega arith)
        (omega arith)
      ∙ ap (λ t. not t && test_bit d i) (bit_place i p)
