-- ===== src/Examples/Lookups.antt =====
-- Readers and writers of posting lists at concrete inputs.
use erlang_rocksdb.Prelude.{
  ℕ, ◌+◌, ◌<◌, ◌^◌, ◌≡◌, refl, sym, subst, none, some, List, [], ◌∷◌, length, arith, some_inj, ◌∙◌,
}
use erlang_rocksdb.Bytes.{Bytes}
use erlang_rocksdb.Bytes.Order.{compare_bytes, eqb}
use erlang_rocksdb.Bytes.BigEndian.{take_u32, take_byte, take_bytes, u32_of}
use erlang_rocksdb.Ordered.Set.{contains, Ascending}
use erlang_rocksdb.Ordered.Set
use erlang_rocksdb.Ordered.Map
use erlang_rocksdb.Term.{binary}
use erlang_rocksdb.PostingList.Format.{
  detect_version, take_entry, v1_loop, take_key, v2_loop, take_header, bitmap_data, serialize_v2,
}
use erlang_rocksdb.PostingList.Active.{is_active}
use erlang_rocksdb.PostingList.Parse.{
  v1_states, insert_active, parse_posting_list_v1, parse_posting_list_v2, parse_posting_list,
}
use erlang_rocksdb.PostingList.Search.{key_offsets, search_keys}
use erlang_rocksdb.PostingList.Table.{bitmap_size_of}
use erlang_rocksdb.PostingList.SearchCorrect.{search_keys-contains}
use erlang_rocksdb.PostingList.RoundTrip.{Fits, parse_posting_list-serialize_v2}
use erlang_rocksdb.PostingList.History.{last_write, value_writes}
use erlang_rocksdb.PostingList.Nif.{
  boolean, posting_list_contains, posting_list_find, insert_common, insert_absent,
}
use erlang_rocksdb.PostingList.Replies.{InOrder, posting_list_contains-last_write}
use erlang_rocksdb.PostingList.Finds.{reply_of, posting_list_find-last_write}
use erlang_rocksdb.PostingList.Algebra.{common_keys, all_keys, remaining_keys}
use erlang_rocksdb.Examples.{key_a, key_b, value_of_a}

abbrev two_keys : List Bytes
two_keys = key_a ∷ key_b ∷ []

two_keys-Ascending : Ascending two_keys
unfolding compare_bytes
two_keys-Ascending = ((refl, tt), (tt, tt))

Fits-two : Fits none two_keys
unfolding bitmap_data
Fits-two = record {
  bitmap_size = omega arith;
  key_count = omega arith;
  key_sizes = (omega arith, (omega arith, tt));
}

Fits-one : (k : Bytes) → length k ≡ 1 → Fits none (k ∷ [])
unfolding bitmap_data
Fits-one k h = record {
  bitmap_size = omega arith;
  key_count = omega arith;
  key_sizes = (omega arith, tt);
}

abbrev value_of_both : Bytes
value_of_both = 2 ∷ 0 ∷ 0 ∷ 0 ∷ 0 ∷ 0 ∷ 0 ∷ 0 ∷ 2 ∷ 0 ∷ 0 ∷ 0 ∷ 1 ∷ 97 ∷ 0 ∷ 0 ∷ 0 ∷ 1 ∷ 98 ∷ []

abbrev entries_of_both : Bytes
entries_of_both = 0 ∷ 0 ∷ 0 ∷ 1 ∷ 97 ∷ 0 ∷ 0 ∷ 0 ∷ 1 ∷ 98 ∷ []

header_of_both : take_header value_of_both ≡ some (2, entries_of_both)
unfolding take_header take_byte take_u32 u32_of take_bytes
header_of_both = refl

offsets_of_both : Ascending (key_offsets 2 entries_of_both)
unfolding key_offsets take_key take_u32 u32_of take_bytes compare_bytes
offsets_of_both = ((refl, tt), (tt, tt))

range_of_both : bitmap_size_of value_of_both + 4 < 2 ^ 32
unfolding u32_of
range_of_both = omega arith

value_of_both-InOrder : InOrder value_of_both
value_of_both-InOrder = record {
  in_range = λ h. range_of_both;
  ascending = λ n rest h e. subst Offsets (some_inj (sym header_of_both ∙ e)) offsets_of_both;
}
  where
    Offsets : ℕ × Bytes → Type 0
    Offsets (n, rest) = Ascending (key_offsets n rest)

posting_list_contains-last_write_example :
    posting_list_contains (binary value_of_both ∷ binary key_b ∷ [])
    ≡ boolean (is_active (last_write (value_writes value_of_both) key_b))
posting_list_contains-last_write_example =
    posting_list_contains-last_write value_of_both key_b value_of_both-InOrder

posting_list_find-last_write_example :
    posting_list_find (binary value_of_a ∷ binary key_a ∷ [])
    ≡ reply_of (last_write (value_writes value_of_a) key_a)
posting_list_find-last_write_example = posting_list_find-last_write value_of_a key_a

parse_posting_list-serialize_v2_example : parse_posting_list (serialize_v2 none two_keys) ≡ two_keys
parse_posting_list-serialize_v2_example =
    parse_posting_list-serialize_v2 Fits-two two_keys-Ascending

search_keys-contains_example : search_keys two_keys key_b ≡ some (contains two_keys key_b)
search_keys-contains_example = search_keys-contains two_keys key_b two_keys-Ascending

common_is_a : common_keys value_of_both value_of_a ≡ key_a ∷ []
unfolding parse_posting_list parse_posting_list_v1 parse_posting_list_v2 v1_states insert_active
    detect_version v1_loop v2_loop take_entry take_key take_header take_u32 u32_of take_byte
    take_bytes Map.insert Set.insert contains eqb compare_bytes insert_common insert_absent
common_is_a = refl

all_is_both : all_keys value_of_both value_of_a ≡ two_keys
unfolding parse_posting_list parse_posting_list_v1 parse_posting_list_v2 v1_states insert_active
    detect_version v1_loop v2_loop take_entry take_key take_header take_u32 u32_of take_byte
    take_bytes Map.insert Set.insert contains eqb compare_bytes insert_common insert_absent
all_is_both = refl

remaining_is_b : remaining_keys value_of_both value_of_a ≡ key_b ∷ []
unfolding parse_posting_list parse_posting_list_v1 parse_posting_list_v2 v1_states insert_active
    detect_version v1_loop v2_loop take_entry take_key take_header take_u32 u32_of take_byte
    take_bytes Map.insert Set.insert contains eqb compare_bytes insert_common insert_absent
remaining_is_b = refl
