-- ===== src/PostingList/Parse.antt =====
-- The readers of posting_list_nif.cc: a value as its set of active keys, and its bitmap.
use erlang_rocksdb.Prelude.{◌==◌, Option, none, some, List, [], ◌∷◌, length, ◌>>=◌, if◌then◌else◌}
use erlang_rocksdb.Bytes.{Bytes}
use erlang_rocksdb.Bytes.BigEndian.{take_byte, take_u32, take_bytes}
use erlang_rocksdb.Ordered.Set
use erlang_rocksdb.Ordered.Map
use erlang_rocksdb.PostingList.Roaring.{Roaring}
use erlang_rocksdb.PostingList.Format.{
  States, v1, v2, detect_version, take_header, v1_loop, v2_loop,
}

-- The loop over V1 entries that three of the functions have.
unfoldable pub v1_states : Bytes → States
unfolding v1_loop
v1_states d = v1_loop Map.insert (length d) d []

-- `for (const auto& [key, is_tombstone] : states) if (!is_tombstone) result.insert(key);`
unfoldable pub insert_active : List Bytes → States → List Bytes
insert_active result [] = result
insert_active result ((key, is_tombstone) ∷ m) =
    insert_active (if is_tombstone then result else Set.insert key result) m

unfoldable pub parse_posting_list_v1 : Bytes → List Bytes
unfolding insert_active v1_states
parse_posting_list_v1 d = insert_active [] (v1_states d)

unfoldable pub parse_posting_list_v2 : Bytes → List Bytes
unfolding v2_loop
parse_posting_list_v2 d = elim (take_header d) [
  | none ↦ []
  | some (key_count, rest) ↦ v2_loop Set.insert key_count rest []
]

unfoldable pub parse_posting_list : Bytes → List Bytes
parse_posting_list d = elim (detect_version d) [
  | v2 ↦ parse_posting_list_v2 d
  | v1 ↦ parse_posting_list_v1 d
]

-- `extract_bitmap_v2` behind its test of the version.
unfoldable pub stored_bitmap : (r : Roaring) → Bytes → Option r.Bitmap
stored_bitmap r d = do
  (version, d₁) ← take_byte d
  (bitmap_size, d₂) ← take_u32 d₁
  (bitmap, d₃) ← take_bytes bitmap_size d₂
  (if bitmap_size == 0 then none else r.portable_deserialize_safe bitmap)

-- `none` is `nullptr`.
unfoldable pub extract_bitmap_v2 : (r : Roaring) → Bytes → Option r.Bitmap
unfolding stored_bitmap
extract_bitmap_v2 r d = elim (detect_version d) [ v1 ↦ none | v2 ↦ stored_bitmap r d ]
