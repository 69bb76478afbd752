-- ===== src/Examples/Merges.antt =====
-- Merges of posting lists at concrete inputs.
use erlang_rocksdb.Prelude.{
  ◌≡◌, refl, sym, subst, true, false, none, some, List, [], ◌∷◌, ◌++◌, arith, ◌==◌, Bool-cases, inl,
  inr,
}
use erlang_rocksdb.Bytes.{Bytes}
use erlang_rocksdb.Bytes.Order.{compare_bytes, eqb}
use erlang_rocksdb.Bytes.BigEndian.{take_u32, take_byte, take_bytes, u32_bytes, u32_of}
use erlang_rocksdb.Ordered.Set.{contains}
use erlang_rocksdb.Ordered.Map
use erlang_rocksdb.PostingList.Format.{
  v1, v2, detect_version, take_entry, v1_loop, take_key, v2_loop, take_header, parse_v1_value,
  parse_v2_value, parse_existing_value, bitmap_data, key_entries, serialize_v2, serialize_states,
  active_keys,
}
use erlang_rocksdb.PostingList.Operator.{
  operand_of, parse_operand, merge_operand, existing_states, full_merge_v2, partial_merge_multi,
}
use erlang_rocksdb.PostingList.Active.{is_active}
use erlang_rocksdb.PostingList.Parse.{parse_posting_list}
use erlang_rocksdb.PostingList.RoundTrip.{Fits}
use erlang_rocksdb.PostingList.History.{
  last_write, history, operand_writes, operands_writes, existing_writes, value_writes, scan_v1,
  scan_v2,
}
use erlang_rocksdb.PostingList.Merge.{
  merged_keys, full_merge_v2-last_write, full_merge_v2_canonical,
}
use erlang_rocksdb.PostingList.Parts.{
  full_merge_v2-rounds, full_merge_v2-partial_merge_multi, deletion_lost,
}
use erlang_rocksdb.Examples.{key_a, key_b, add_operand, delete_operand, decode, value_of_a}

abbrev operands : List Bytes
operands = add_operand key_b ∷ delete_operand key_a ∷ []

abbrev value_of_b : Bytes
value_of_b = 2 ∷ 0 ∷ 0 ∷ 0 ∷ 0 ∷ 0 ∷ 0 ∷ 0 ∷ 1 ∷ 0 ∷ 0 ∷ 0 ∷ 1 ∷ 98 ∷ []

merged_is_b : full_merge_v2 decode none (some value_of_a) operands ≡ some value_of_b
unfolding full_merge_v2 existing_states parse_existing_value detect_version parse_v1_value v1_loop
    take_entry take_u32 u32_of take_byte take_bytes Map.insert compare_bytes merge_operand
    parse_operand operand_of serialize_states serialize_v2 active_keys bitmap_data u32_bytes
    key_entries
merged_is_b = refl

keys_are_b : merged_keys decode none (some value_of_a) operands ≡ key_b ∷ []
unfolding existing_states parse_existing_value detect_version parse_v1_value v1_loop take_entry
    take_u32 u32_of take_byte take_bytes Map.insert compare_bytes merge_operand parse_operand
    operand_of active_keys
keys_are_b = refl

Fits-b : Fits none (key_b ∷ [])
unfolding bitmap_data
Fits-b = record {
  bitmap_size = omega arith;
  key_count = omega arith;
  key_sizes = (omega arith, tt);
}

Fits-merged : Fits none (merged_keys decode none (some value_of_a) operands)
Fits-merged = subst (Fits none) (sym keys_are_b) Fits-b

full_merge_v2-last_write_example :
    (value : Bytes) × (full_merge_v2 decode none (some value_of_a) operands ≡ some value)
    × ((k : Bytes)
        → contains (parse_posting_list value) k
          ≡ is_active (last_write (history decode (some value_of_a) operands) k))
full_merge_v2-last_write_example =
    full_merge_v2-last_write decode none (some value_of_a) operands Fits-merged

-- A second round on what the first one left.
full_merge_v2-rounds_example :
    full_merge_v2 decode none (some value_of_b) (add_operand key_a ∷ [])
    ≡ full_merge_v2 decode none (some value_of_a) (operands ++ add_operand key_a ∷ [])
full_merge_v2-rounds_example =
    full_merge_v2-rounds decode none (some value_of_a) operands (add_operand key_a ∷ []) Fits-merged
      merged_is_b

same_keys :
    (k : Bytes)
    → is_active (last_write (history decode none (add_operand key_a ∷ [])) k)
      ≡ is_active (last_write (history decode (some value_of_a) []) k)
unfolding parse_operand operand_of operand_writes operands_writes existing_writes value_writes
    scan_v1 scan_v2 detect_version take_entry take_key take_header take_u32 u32_of take_byte
    take_bytes
same_keys k = refl

-- An addition by an operand, and the stored V1 value of the same key.
full_merge_v2_canonical_example :
    full_merge_v2 decode none none (add_operand key_a ∷ [])
    ≡ full_merge_v2 decode none (some value_of_a) []
full_merge_v2_canonical_example =
    full_merge_v2_canonical decode none none (some value_of_a) (add_operand key_a ∷ []) [] same_keys

decode_no_value : (d : Bytes) → detect_version d ≡ v2 → decode d ≡ none
unfolding detect_version
decode_no_value [] h = refl
decode_no_value (b ∷ d) h = elim (Bool-cases (b == 2)) [
  | inl e ↦ rw (first_byte e) refl
  | inr e ↦ absurd (v1≢v2 (rw (e) at h))
]
  where
    first_byte : (b == 2) ≡ true → (b == 131) ≡ false
    first_byte e = ground arith

    v1≢v2 : v1 ≡ v2 → ⊥
    v1≢v2 e = cc

partial_is_b : partial_merge_multi decode none operands ≡ some value_of_b
unfolding full_merge_v2 partial_merge_multi existing_states parse_existing_value detect_version
    parse_v1_value parse_v2_value v1_loop v2_loop take_entry take_key take_header take_u32 u32_of
    take_byte take_bytes Map.insert compare_bytes merge_operand parse_operand operand_of
    serialize_states serialize_v2 active_keys bitmap_data u32_bytes key_entries
partial_is_b = refl

Fits-partial : Fits none (merged_keys decode none none operands)
unfolding full_merge_v2 partial_merge_multi existing_states parse_existing_value detect_version
    parse_v1_value parse_v2_value v1_loop v2_loop take_entry take_key take_header take_u32 u32_of
    take_byte take_bytes Map.insert compare_bytes merge_operand parse_operand operand_of
    serialize_states serialize_v2 active_keys bitmap_data u32_bytes key_entries
Fits-partial = subst (Fits none) (sym only_b) Fits-b
  where
    only_b : merged_keys decode none none operands ≡ key_b ∷ []
    only_b = refl

nothing_stored :
    (k : Bytes)
    → last_write (operands_writes decode operands) k ≡ some true
    → is_active (last_write (existing_writes none) k) ≡ false
unfolding existing_writes
nothing_stored k h = refl

full_merge_v2-partial_merge_multi_example :
    full_merge_v2 decode none none (value_of_b ∷ []) ≡ full_merge_v2 decode none none operands
full_merge_v2-partial_merge_multi_example =
    full_merge_v2-partial_merge_multi decode none decode_no_value operands Fits-partial partial_is_b
      none nothing_stored

abbrev value_of_both : Bytes
value_of_both = 2 ∷ 0 ∷ 0 ∷ 0 ∷ 0 ∷ 0 ∷ 0 ∷ 0 ∷ 2 ∷ 0 ∷ 0 ∷ 0 ∷ 1 ∷ 97 ∷ 0 ∷ 0 ∷ 0 ∷ 1 ∷ 98 ∷ []

both_after_partial :
    full_merge_v2 decode none (some value_of_a) (value_of_b ∷ []) ≡ some value_of_both
unfolding full_merge_v2 partial_merge_multi existing_states parse_existing_value detect_version
    parse_v1_value parse_v2_value v1_loop v2_loop take_entry take_key take_header take_u32 u32_of
    take_byte take_bytes Map.insert compare_bytes merge_operand parse_operand operand_of
    serialize_states serialize_v2 active_keys bitmap_data u32_bytes key_entries
both_after_partial = refl

Fits-both : Fits none (merged_keys decode none (some value_of_a) (value_of_b ∷ []))
unfolding full_merge_v2 partial_merge_multi existing_states parse_existing_value detect_version
    parse_v1_value parse_v2_value v1_loop v2_loop take_entry take_key take_header take_u32 u32_of
    take_byte take_bytes Map.insert compare_bytes merge_operand parse_operand operand_of
    serialize_states serialize_v2 active_keys bitmap_data u32_bytes key_entries
Fits-both = subst (Fits none) (sym keys_are_both) Fits-two
  where
    keys_are_both : merged_keys decode none (some value_of_a) (value_of_b ∷ []) ≡ key_a ∷ key_b ∷ []
    keys_are_both = refl

    Fits-two : Fits none (key_a ∷ key_b ∷ [])
    Fits-two = record {
      bitmap_size = omega arith;
      key_count = omega arith;
      key_sizes = (omega arith, (omega arith, tt));
    }

deletes_a : last_write (operands_writes decode operands) key_a ≡ some true
unfolding parse_operand operand_of operand_writes operands_writes existing_writes value_writes
    scan_v1 scan_v2 detect_version take_entry take_key take_header take_u32 u32_of take_byte
    take_bytes eqb compare_bytes
deletes_a = refl

stores_a : is_active (last_write (existing_writes (some value_of_a)) key_a) ≡ true
unfolding parse_operand operand_of operand_writes operands_writes existing_writes value_writes
    scan_v1 scan_v2 detect_version take_entry take_key take_header take_u32 u32_of take_byte
    take_bytes eqb compare_bytes
stores_a = refl

deletion_lost_example :
    (contains (parse_posting_list value_of_b) key_a ≡ false)
    × (contains (parse_posting_list value_of_both) key_a ≡ true)
deletion_lost_example =
    deletion_lost decode none decode_no_value operands Fits-partial partial_is_b (some value_of_a)
      key_a Fits-merged Fits-both merged_is_b both_after_partial deletes_a stores_a
