-- ===== src/PostingList/Format.antt =====
-- The two formats of a posting list.
-- V1: <KeyLength:32/big><Flag:8><Key>...
-- V2: 2, <BitmapSize:32/big><Bitmap><KeyCount:32/big> and <Len:32/big><Key> for each key.
use erlang_rocksdb.Prelude.{
  ℕ, zero, suc, Bool, false, not, Option, none, some, List, [], ◌∷◌, ◌++◌, length, ◌==◌, ◌>>=◌,
  if◌then◌else◌,
}
use erlang_rocksdb.Bytes.{Bytes}
use erlang_rocksdb.Bytes.BigEndian.{u32_bytes, to_u32, take_u32, take_byte, take_bytes}
use erlang_rocksdb.Ordered.Map
use erlang_rocksdb.PostingList.Roaring.{Roaring, build_bitmap_from_keys}

-- A map of key to `is_tombstone`.
abbrev pub States : Type 0
States = List (Bytes × Bool)

pub data Version : Type 0 where
  v1 v2 : Version

-- `POSTING_LIST_V2`
abbrev pub posting_list_v2 : ℕ
posting_list_v2 = 2

unfoldable pub detect_version : Bytes → Version
detect_version [] = v1
detect_version (b ∷ rest) = if b == posting_list_v2 then v2 else v1

-- One round of a V1 loop: length, flag and key, or `none` where the loop ends, by its test
-- `ptr + 5 <= end` or by the `break` behind it.
unfoldable pub take_entry : Bytes → Option ((Bytes × Bool) × Bytes)
take_entry d = do
  (len, d₁) ← take_u32 d
  (flag, d₂) ← take_byte d₁
  (key, rest) ← take_bytes len d₂
  some ((key, not (flag == 0)), rest)

module _ {ℓ} {S : Type ℓ} (body : Bytes → Bool → S → S) where
  -- The `while` loop over V1 entries, on fuel. Each round takes five bytes at least.
  unfoldable pub v1_loop : ℕ → Bytes → S → S
  v1_loop zero d s = s
  v1_loop (suc fuel) d s = elim (take_entry d) [
    | none ↦ s
    | some ((key, is_tombstone), rest) ↦ v1_loop fuel rest (body key is_tombstone s)
  ]

-- One round of a V2 loop: `ptr + 4 <= end`, and the `break` behind it.
unfoldable pub take_key : Bytes → Option (Bytes × Bytes)
take_key d = do (len, d₁) ← take_u32 d; take_bytes len d₁

module _ {ℓ} {S : Type ℓ} (body : Bytes → S → S) where
  -- `for (i = 0; i < key_count && ptr + 4 <= end; i++)`
  unfoldable pub v2_loop : ℕ → Bytes → S → S
  v2_loop zero d s = s
  v2_loop (suc left) d s = elim (take_key d) [
    | none ↦ s
    | some (key, rest) ↦ v2_loop left rest (body key s)
  ]

-- The header of a V2 value: version byte, bitmap and key count; `none` where the value is cut.
unfoldable pub take_header : Bytes → Option (ℕ × Bytes)
take_header d = do
  (version, d₁) ← take_byte d
  (bitmap_size, d₂) ← take_u32 d₁
  (bitmap, d₃) ← take_bytes bitmap_size d₂
  take_u32 d₃

-- `ParseV1Value`: the last occurrence of a key wins.
unfoldable pub parse_v1_value : Bytes → States → States
unfolding v1_loop
parse_v1_value value key_states = v1_loop Map.insert (length value) value key_states

-- `ParseV2Value`: all keys of a V2 value are active.
unfoldable pub parse_v2_value : Bytes → States → States
unfolding v2_loop
parse_v2_value value key_states = elim (take_header value) [
  | none ↦ key_states
  | some (key_count, d) ↦ v2_loop (λ key st. Map.insert key false st) key_count d key_states
]

unfoldable pub parse_existing_value : Bytes → States → States
parse_existing_value value key_states = elim (detect_version value) [
  | v2 ↦ parse_v2_value value key_states
  | v1 ↦ parse_v1_value value key_states
]

-- `is_tombstone ? 1 : 0`
unfoldable pub append_entry_v1 : Bytes → Bytes → Bool → Bytes
append_entry_v1 result key is_tombstone =
    result ++ (u32_bytes (to_u32 (length key)) ++ ((if is_tombstone then 1 else 0) ∷ key))

-- The keys that are not tombstones, in the order of the map.
unfoldable pub active_keys : States → List Bytes
active_keys [] = []
active_keys ((key, is_tombstone) ∷ m) = if is_tombstone then active_keys m else key ∷ active_keys m

-- The build: `WITH_CROARING` with that library, or without it.
abbrev pub Build : Type 1
Build = Option Roaring

unfoldable pub bitmap_data : Build → List Bytes → Bytes
bitmap_data none keys = []
bitmap_data (some r) keys = r.portable_serialize (build_bitmap_from_keys r keys)

unfoldable pub key_entries : List Bytes → Bytes
key_entries [] = []
key_entries (key ∷ keys) = u32_bytes (to_u32 (length key)) ++ (key ++ key_entries keys)

-- `serialize_v2` of posting_list_nif.cc. Without CRoaring the bitmap is empty.
unfoldable pub serialize_v2 : Build → List Bytes → Bytes
serialize_v2 build keys =
    let bitmap = bitmap_data build keys in
    posting_list_v2
    ∷ (u32_bytes (to_u32 (length bitmap))
        ++ (bitmap ++ (u32_bytes (to_u32 (length keys)) ++ key_entries keys)))

-- `PostingListMergeOperator::SerializeV2`
unfoldable pub serialize_states : Build → States → Bytes
serialize_states build key_states = serialize_v2 build (active_keys key_states)
