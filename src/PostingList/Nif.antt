-- ===== src/PostingList/Nif.antt =====
-- The NIF functions of posting_list_nif.cc. The arguments are the terms of `argv`; memory for a
-- result is always there (`enif_make_new_binary` does not return null).
pub mod Resource
use erlang_rocksdb.Prelude.{
  ℕ, zero, suc, ◌+◌, Bool, true, false, not, Option, none, some, List, [], ◌∷◌, length, ◌>>=◌,
  if◌then◌else◌,
}
use erlang_rocksdb.Bytes.{Bytes}
use erlang_rocksdb.Term.{Term, inspect_binary}
use erlang_rocksdb.Ordered.Set
use erlang_rocksdb.Ordered.Map
use erlang_rocksdb.PostingList.Roaring.{Roaring, hash_key}
use erlang_rocksdb.PostingList.Format.{States, Version, v1, v2, detect_version, Build, serialize_v2}
use erlang_rocksdb.PostingList.Parse.{
  v1_states, parse_posting_list_v1, parse_posting_list_v2, parse_posting_list, extract_bitmap_v2,
}
use erlang_rocksdb.PostingList.Search.{binary_search_v2_keys}

-- What a function returns. `crash` is a read out of bounds.
pub data Reply : Type 0 where
  badarg : Reply
  crash : Reply
  boolean : Bool → Reply
  found : Bool → Reply
  not_found : Reply
  number : ℕ → Reply
  version : Version → Reply
  keys : List Bytes → Reply
  states : States → Reply
  bytes : Bytes → Reply

-- `argc != 1 || !enif_inspect_binary(...)`, and the same for two.
abbrev pub one_binary : List Term → Option Bytes
one_binary (t ∷ []) = inspect_binary t
one_binary _ = none

abbrev pub two_binaries : List Term → Option (Bytes × Bytes)
two_binaries (t ∷ u ∷ []) = do a ← inspect_binary t; b ← inspect_binary u; some (a, b)
two_binaries _ = none

abbrev pub reply_or_badarg {ℓ} : {A : Type ℓ} → Option A → (A → Reply) → Reply
reply_or_badarg none f = badarg
reply_or_badarg (some a) f = f a

abbrev pub boolean_or_crash : Option Bool → Reply
boolean_or_crash none = crash
boolean_or_crash (some b) = boolean b

unfoldable pub posting_list_keys : List Term → Reply
posting_list_keys argv = reply_or_badarg (one_binary argv) λ bin. keys (parse_posting_list bin)

unfoldable pub contains_in : Bytes → Bytes → Reply
contains_in bin search_key = elim (detect_version bin) [
  | v2 ↦ boolean_or_crash (binary_search_v2_keys bin search_key)
  | v1 ↦ boolean (Set.contains (parse_posting_list_v1 bin) search_key)
]

unfoldable pub posting_list_contains : List Term → Reply
unfolding contains_in
posting_list_contains argv =
    reply_or_badarg (two_binaries argv) λ (bin, search_key). contains_in bin search_key

unfoldable pub found_or_not : Option Bool → Reply
found_or_not none = not_found
found_or_not (some is_tombstone) = found is_tombstone

unfoldable pub find_in : Bytes → Bytes → Reply
unfolding found_or_not
find_in bin key = elim (detect_version bin) [
  | v2 ↦ if Set.contains (parse_posting_list_v2 bin) key then found false else not_found
  | v1 ↦ found_or_not (Map.find (v1_states bin) key)
]

-- `{ok, IsTombstone}`, or `not_found`.
unfoldable pub posting_list_find : List Term → Reply
unfolding find_in
posting_list_find argv = reply_or_badarg (two_binaries argv) λ (bin, key). find_in bin key

unfoldable pub posting_list_count : List Term → Reply
posting_list_count argv =
    reply_or_badarg (one_binary argv) λ bin. number (length (parse_posting_list bin))

abbrev pub all_active : List Bytes → States
all_active [] = []
all_active (k ∷ ks) = (k, false) ∷ all_active ks

unfoldable pub map_of : Bytes → States
map_of bin = elim (detect_version bin) [
  | v2 ↦ all_active (parse_posting_list_v2 bin)
  | v1 ↦ v1_states bin
]

unfoldable pub posting_list_to_map : List Term → Reply
unfolding map_of
posting_list_to_map argv = reply_or_badarg (one_binary argv) λ bin. states (map_of bin)

unfoldable pub posting_list_version : List Term → Reply
posting_list_version argv = reply_or_badarg (one_binary argv) λ bin. version (detect_version bin)

-- The loops of intersection and difference.
unfoldable pub insert_common : List Bytes → List Bytes → List Bytes → List Bytes
insert_common keys₂ result [] = result
insert_common keys₂ result (k ∷ ks) =
    insert_common keys₂ (if Set.contains keys₂ k then Set.insert k result else result) ks

unfoldable pub insert_absent : List Bytes → List Bytes → List Bytes → List Bytes
insert_absent keys₂ result [] = result
insert_absent keys₂ result (k ∷ ks) =
    insert_absent keys₂ (if Set.contains keys₂ k then result else Set.insert k result) ks

module _ (build : Build) where
  unfoldable pub posting_list_intersection : List Term → Reply
  posting_list_intersection argv = reply_or_badarg (two_binaries argv) λ (bin₁, bin₂).
      bytes
        (serialize_v2 build (insert_common (parse_posting_list bin₂) [] (parse_posting_list bin₁)))

  unfoldable pub posting_list_union : List Term → Reply
  posting_list_union argv = reply_or_badarg (two_binaries argv) λ (bin₁, bin₂).
      bytes
        (serialize_v2 build (Set.insert_all (parse_posting_list bin₁) (parse_posting_list bin₂)))

  unfoldable pub posting_list_difference : List Term → Reply
  posting_list_difference argv = reply_or_badarg (two_binaries argv) λ (bin₁, bin₂).
      bytes
        (serialize_v2 build (insert_absent (parse_posting_list bin₂) [] (parse_posting_list bin₁)))

unfoldable pub count_common : List Bytes → List Bytes → ℕ
count_common keys₂ [] = 0
count_common keys₂ (k ∷ ks) = (if Set.contains keys₂ k then 1 else 0) + count_common keys₂ ks

unfoldable pub exact_count : Bytes → Bytes → ℕ
exact_count bin₁ bin₂ = count_common (parse_posting_list bin₂) (parse_posting_list bin₁)

-- The bitmaps serve if both values have one; `extract_bitmap_v2` is null unless the version is 2.
unfoldable pub count_by_bitmaps : (r : Roaring) → Bytes → Bytes → ℕ
unfolding exact_count
count_by_bitmaps r bin₁ bin₂ = elim (extract_bitmap_v2 r bin₁) [
  | none ↦ exact_count bin₁ bin₂
  | some bitmap₁ ↦ elim (extract_bitmap_v2 r bin₂) [
    | none ↦ exact_count bin₁ bin₂
    | some bitmap₂ ↦ r.and_cardinality bitmap₁ bitmap₂
  ]
]

unfoldable pub common_count : Build → Bytes → Bytes → ℕ
unfolding exact_count count_by_bitmaps
common_count none bin₁ bin₂ = exact_count bin₁ bin₂
common_count (some r) bin₁ bin₂ = count_by_bitmaps r bin₁ bin₂

unfoldable pub posting_list_intersection_count : Build → List Term → Reply
unfolding common_count
posting_list_intersection_count build argv =
    reply_or_badarg (two_binaries argv) λ (bin₁, bin₂). number (common_count build bin₁ bin₂)

unfoldable pub bitmap_contains_in : Build → Bytes → Bytes → Bool
bitmap_contains_in none bin key = Set.contains (parse_posting_list bin) key
bitmap_contains_in (some r) bin key = elim (extract_bitmap_v2 r bin) [
  | none ↦ Set.contains (parse_posting_list bin) key
  | some bitmap ↦ r.contains bitmap (hash_key key)
]

unfoldable pub posting_list_bitmap_contains : Build → List Term → Reply
unfolding bitmap_contains_in
posting_list_bitmap_contains build argv =
    reply_or_badarg (two_binaries argv) λ (bin, key). boolean (bitmap_contains_in build bin key)
