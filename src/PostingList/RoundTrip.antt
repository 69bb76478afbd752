-- ===== src/PostingList/RoundTrip.antt =====
-- What `serialize_v2` writes, every reader reads back.
use erlang_rocksdb.Prelude.{
  ◌^◌, ◌<◌, ◌≡◌, refl, sym, ap, ◌∙◌, false, List, [], ◌∷◌, ◌++◌, append-nil, append_assoc, foldl,
  length, All,
}
use erlang_rocksdb.Bytes.{Bytes}
use erlang_rocksdb.Ordered.Set.{Ascending, contains, insert_all, insert_all-append}
use erlang_rocksdb.Ordered.Set
use erlang_rocksdb.Ordered.Map
use erlang_rocksdb.PostingList.Format.{
  States, Build, v2, detect_version, bitmap_data, serialize_v2, parse_v2_value,
  parse_existing_value, key_entries, v2_loop,
}
use erlang_rocksdb.PostingList.Loops.{IsSize, take_header-serialize_v2, v2_loop-key_entries}
use erlang_rocksdb.PostingList.Parse.{parse_posting_list, parse_posting_list_v2}

-- All sizes and the number of keys fit the 32-bit fields of the format.
pub record Fits (build : Build) (ks : List Bytes) : Type 0 where
  pub bitmap_size : IsSize (bitmap_data build ks)
  pub key_count : length ks < 2 ^ 32
  pub key_sizes : All IsSize ks

pub foldl-snoc : (ks s : List Bytes) → foldl (λ a k. a ++ k ∷ []) s ks ≡ s ++ ks
foldl-snoc [] s = sym (append-nil s)
foldl-snoc (k ∷ ks) s = foldl-snoc ks (s ++ k ∷ []) ∙ append_assoc s (k ∷ []) ks

module _ (build : Build) (ks : List Bytes) where
  pub detect_version-serialize_v2 : detect_version (serialize_v2 build ks) ≡ v2
  unfolding detect_version serialize_v2
  detect_version-serialize_v2 = refl

module _ {build : Build} {ks : List Bytes} (fits : Fits build ks) where
  loop_over {ℓ} :
      {S : Type ℓ} (body : Bytes → S → S) (s : S)
      → v2_loop body (length ks) (key_entries ks) s ≡ foldl (λ a k. body k a) s ks
  loop_over body s =
      ap (λ d. v2_loop body (length ks) d s) (sym (append-nil (key_entries ks)))
      ∙ v2_loop-key_entries body ks [] s fits.key_sizes

  -- `ParseV2Value` writes the keys of the value, as active, over what the map holds.
  pub parse_existing_value-serialize_v2 :
      (st : States)
      → parse_existing_value (serialize_v2 build ks) st ≡ foldl (λ a k. Map.insert k false a) st ks
  unfolding parse_existing_value parse_v2_value
  parse_existing_value-serialize_v2 st =
      rw (detect_version-serialize_v2 build ks, parse_existing_value)
        (rw (take_header-serialize_v2 build ks fits.bitmap_size fits.key_count, parse_v2_value)
          (loop_over (λ k a. Map.insert k false a) st))

  -- Keys in strict order whose number and sizes fit the format are read back from what `serialize_v2`
  -- writes of them.
  pub parse_posting_list-serialize_v2 :
      Ascending ks → parse_posting_list (serialize_v2 build ks) ≡ ks
  unfolding parse_posting_list parse_posting_list_v2
  parse_posting_list-serialize_v2 h =
      rw (detect_version-serialize_v2 build ks, parse_posting_list)
        (rw
          (take_header-serialize_v2 build ks fits.bitmap_size fits.key_count, parse_posting_list_v2)
          (loop_over Set.insert [] ∙ insert_all-append ks [] h))
