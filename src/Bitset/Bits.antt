-- ===== src/Bitset/Bits.antt =====
-- The masks of c_src/bitset_merge_operator.cc on one byte, by a table of all bytes and positions.
use Prim.Native.Nat.{bit_and, bit_or}
use erlang_rocksdb.Prelude.{
  ℕ, zero, suc, ◌-◌, ◌/◌, ◌%◌, ◌^◌, ◌<◌, ◌≡◌, refl, Bool, true, false, not, ◌&&◌, ◌||◌, ◌==◌, ltb,
  arith,
}
use erlang_rocksdb.Bitset.{bit_mask}

-- Bit `j` of a byte, where bit 0 is the highest.
abbrev pub byte_bit : ℕ → ℕ → Bool
byte_bit b j = b / 2 ^ (7 - j) % 2 == 1

abbrev same : Bool → Bool → Bool
same true b = b
same false b = not b

same_sound : (a b : Bool) → same a b ≡ true → a ≡ b
same_sound a b h = ground arith

and_split : (a b : Bool) → (a && b) ≡ true → (a ≡ true) × (b ≡ true)
and_split a b h = ground arith

ltb→lt : (a b : ℕ) → ltb a b ≡ true → a < b
ltb→lt a b h = ground arith

-- A test holds at every number under a bound.
every : (ℕ → Bool) → ℕ → Bool
every test zero = true
every test (suc bound) = every test bound && test bound

module _ (test : ℕ → Bool) where
  every_at : (bound k : ℕ) → k < bound → every test bound ≡ true → test k ≡ true
  unfolding every
  every_at zero k h e = absurd (omega arith)
  every_at (suc bound) k h e = ground (arith, every_at bound k)

abbrev masks_ok : ℕ → ℕ → ℕ → Bool
masks_ok b j k =
    same (byte_bit (bit_or b (bit_mask j)) k) (k == j || byte_bit b k)
    && (same (byte_bit (bit_and b (255 - bit_mask j)) k) (not (k == j) && byte_bit b k)
        && (ltb (bit_or b (bit_mask j)) 256 && ltb (bit_and b (255 - bit_mask j)) 256))

masks_of : ℕ → ℕ → Bool
masks_of b j = every (masks_ok b j) 8

mask_table : every (λ b. every (masks_of b) 8) 256 ≡ true
unfolding every masks_of
mask_table = refl

module _ (b j k : ℕ) (hb : b < 256) (hj : j < 8) (hk : k < 8) where
  entry : masks_ok b j k ≡ true
  unfolding masks_of
  entry =
      every_at (masks_ok b j) 8 k hk
        (every_at (masks_of b) 8 j hj (every_at (λ c. every (masks_of c) 8) 256 b hb mask_table))

  -- `|= mask` sets its bit and keeps the others.
  pub byte_bit-or : byte_bit (bit_or b (bit_mask j)) k ≡ (k == j || byte_bit b k)
  byte_bit-or = same_sound _ _ (and_split _ _ entry).0

  -- `&= ~mask` clears its bit and keeps the others.
  pub byte_bit-and : byte_bit (bit_and b (255 - bit_mask j)) k ≡ (not (k == j) && byte_bit b k)
  byte_bit-and = same_sound _ _ (and_split _ _ (and_split _ _ entry).1).0

pub or_mask_byte : (b j : ℕ) → b < 256 → j < 8 → bit_or b (bit_mask j) < 256
or_mask_byte b j hb hj =
    ltb→lt _ 256
      (and_split _ _ (and_split _ _ (and_split _ _ (entry b j 0 hb hj (omega arith))).1).1).0

pub and_mask_byte : (b j : ℕ) → b < 256 → j < 8 → bit_and b (255 - bit_mask j) < 256
and_mask_byte b j hb hj =
    ltb→lt (bit_and b (255 - bit_mask j)) 256
      (and_split (ltb (bit_or b (bit_mask j)) 256) (ltb (bit_and b (255 - bit_mask j)) 256)
        (and_split (same (byte_bit (bit_and b (255 - bit_mask j)) 0) (not (0 == j) && byte_bit b 0))
          _
          (and_split (same (byte_bit (bit_or b (bit_mask j)) 0) (0 == j || byte_bit b 0)) _
            (entry b j 0 hb hj (omega arith))).1).1).1
