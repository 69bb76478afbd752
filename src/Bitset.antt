-- ===== src/Bitset.antt =====
-- c_src/bitset_merge_operator.cc: a bit array that operands `+N`, `-N` and the empty one change.
pub mod Bits
pub mod Changes
pub mod Masks
use Prim.Native.Nat.{bit_and, bit_or}
use erlang_rocksdb.Prelude.{
  ℕ, zero, suc, ◌+◌, ◌-◌, ◌/◌, ◌%◌, ltb, ◌==◌, Bool, true, false, Option, none, some, List, [], ◌∷◌,
  length, replicate, if◌then◌else◌,
}
use erlang_rocksdb.Prelude.Int.{ℤ, pos, negsuc}
use erlang_rocksdb.Bytes.{Bytes}
use erlang_rocksdb.Merged.{Merged, merged, rejected, undefined, ◌>>=◌, or_reject}
use erlang_rocksdb.Stoi.{stoi}

-- `bit_mask[pos % bits_per_char]`: the first bit of a byte is its highest.
abbrev pub mask_at : List ℕ → ℕ → ℕ
mask_at [] i = 0
mask_at (m ∷ ms) zero = m
mask_at (m ∷ ms) (suc i) = mask_at ms i

abbrev pub bit_mask : ℕ → ℕ
bit_mask = mask_at (0x80 ∷ 0x40 ∷ 0x20 ∷ 0x10 ∷ 0x08 ∷ 0x04 ∷ 0x02 ∷ 0x01 ∷ [])

-- `data[ofs] |= mask` and `data[ofs] &= ~mask`, for an offset inside the data.
unfoldable pub set_mask : ℕ → ℕ → Bytes → Bytes
set_mask ofs mask [] = []
set_mask zero mask (b ∷ d) = bit_or b mask ∷ d
set_mask (suc ofs) mask (b ∷ d) = b ∷ set_mask ofs mask d

unfoldable pub clear_mask : ℕ → ℕ → Bytes → Bytes
clear_mask ofs mask [] = []
clear_mask zero mask (b ∷ d) = bit_and b (255 - mask) ∷ d
clear_mask (suc ofs) mask (b ∷ d) = b ∷ clear_mask ofs mask d

-- A write at `data[size]`, which the test `ofs > size` lets through, is past the buffer.
write_at : ℕ → Bytes → Bytes → Merged Bytes
write_at ofs d written = if ltb ofs (length d) then merged written else undefined

-- A negative position becomes a `size_t` beyond any size.
unfoldable pub apply_at : ℕ → ℤ → Bytes → Merged Bytes
unfolding write_at
apply_at sign (negsuc n) d = rejected
apply_at sign (pos p) d =
    if ltb (length d) (p / 8)
    then rejected
    else if sign == b'+'
    then write_at (p / 8) d (set_mask (p / 8) (bit_mask (p % 8)) d)
    else if sign == b'-'
    then write_at (p / 8) d (clear_mask (p / 8) (bit_mask (p % 8)) d)
    else rejected

-- One round of the loop over the operands. An empty operand clears all bits.
unfoldable pub apply_operand : Bytes → Bytes → Merged Bytes
apply_operand [] d = merged (replicate (length d) 0)
apply_operand (sign ∷ digits) d = do p ← or_reject (stoi digits); apply_at sign p d

unfoldable pub apply_operands : List Bytes → Bytes → Merged Bytes
apply_operands [] d = merged d
apply_operands (o ∷ os) d = do d' ← apply_operand o d; apply_operands os d'

-- The buffer: zeros of the capacity, or the stored value, which must have the capacity.
unfoldable pub initial_data : ℕ → Option Bytes → Merged Bytes
initial_data capacity none = merged (replicate (capacity / 8) 0)
initial_data capacity (some existing) =
    if ltb (length existing) (capacity / 8) then rejected else merged existing

unfoldable pub full_merge_v2 : ℕ → Option Bytes → List Bytes → Merged Bytes
full_merge_v2 capacity existing operands = do
  d ← initial_data capacity existing
  apply_operands operands d

-- `data` is the stored value's own memory (`const_cast`): what it holds when the loop ends, also
-- where the merge is rejected halfway.
unfoldable pub memory_after : List Bytes → Bytes → Bytes
memory_after [] d = d
memory_after (o ∷ os) d = elim (apply_operand o d) [ merged d' ↦ memory_after os d' | _ ↦ d ]

unfoldable pub existing_value_after : ℕ → Bytes → List Bytes → Bytes
existing_value_after capacity existing operands = elim (initial_data capacity (some existing)) [
  | merged d ↦ memory_after operands d
  | _ ↦ existing
]
