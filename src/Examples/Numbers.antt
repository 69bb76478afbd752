-- ===== src/Examples/Numbers.antt =====
-- Counters, bit arrays and decimal text at concrete inputs.
use erlang_rocksdb.Prelude.{
  ◌≡◌, refl, Option, none, some, List, [], ◌∷◌, length, arith, inl, map, foldl,
}
use erlang_rocksdb.Prelude.Int.{pos, negsuc, ◌+ℤ◌}
use erlang_rocksdb.Bytes.{Bytes}
use erlang_rocksdb.Merged.{merged, undefined}
use erlang_rocksdb.Stoi.{skip_space, read_digits, read_number, read_signed, stoi, to_string}
use erlang_rocksdb.Counter.{counter_of, merge_all}
use erlang_rocksdb.Counter.Sums.{Holds, merge_all-total}
use erlang_rocksdb.Bitset.{
  set_mask, apply_at, apply_operand, apply_operands, initial_data, full_merge_v2,
}
use erlang_rocksdb.Bitset.Changes.{
  sets, clears, wipes, Denote, AllApplied, apply_operands-AllApplied, apply_operand_past_end,
}

starts_at_0 : Holds none (pos 0)
unfolding counter_of
starts_at_0 = refl

merge_all-total_example :
    (final : Option Bytes) × (merge_all none (map to_string (pos 5 ∷ negsuc 2 ∷ [])) ≡ merged final)
    × Holds final (foldl ◌+ℤ◌ (pos 0) (pos 5 ∷ negsuc 2 ∷ []))
unfolding ◌+ℤ◌
merge_all-total_example = merge_all-total none (pos 0) (pos 5 ∷ negsuc 2 ∷ []) starts_at_0 refl

-- `+9`, `-0` and the empty operand on two bytes.
abbrev changing : List Bytes
changing = (b'+' ∷ b'9' ∷ []) ∷ (b'-' ∷ b'0' ∷ []) ∷ [] ∷ []

abbrev two_bytes : Bytes
two_bytes = 255 ∷ 0 ∷ []

changing-Denote : Denote (length two_bytes) changing (sets 9 ∷ clears 0 ∷ wipes ∷ [])
unfolding stoi skip_space read_signed read_number read_digits
changing-Denote = ((refl, refl, omega arith), ((refl, refl, omega arith), (tt, tt)))

apply_operands-AllApplied_example :
    (d' : Bytes) × (apply_operands changing two_bytes ≡ merged d')
    × AllApplied two_bytes (sets 9 ∷ clears 0 ∷ wipes ∷ []) d'
apply_operands-AllApplied_example =
    apply_operands-AllApplied changing (sets 9 ∷ clears 0 ∷ wipes ∷ []) two_bytes changing-Denote
      (omega arith, (omega arith, tt))

reads_16 : stoi (b'1' ∷ b'6' ∷ []) ≡ some (pos 16)
unfolding stoi skip_space read_signed read_number read_digits
reads_16 = refl

-- `+16` on two bytes.
apply_operand_past_end_example : apply_operand (b'+' ∷ b'1' ∷ b'6' ∷ []) two_bytes ≡ undefined
apply_operand_past_end_example =
    apply_operand_past_end b'+' (b'1' ∷ b'6' ∷ []) two_bytes 16 (inl refl) reads_16 refl

sets_bit_9 : full_merge_v2 16 (some two_bytes) ((b'+' ∷ b'9' ∷ []) ∷ []) ≡ merged (255 ∷ 64 ∷ [])
unfolding full_merge_v2 initial_data apply_operands apply_operand apply_at set_mask stoi skip_space
    read_signed read_number read_digits
sets_bit_9 = refl
