-- ===== src/PostingList/Postings.antt =====
-- A posting list opened as a resource answers as the binary does.
use erlang_rocksdb.Prelude.{
  ◌≡◌, refl, ap, ◌∙◌, Bool, true, false, none, some, List, [], ◌∷◌, length, if◌then◌else◌, ◌==◌,
}
use erlang_rocksdb.Bytes.{Bytes}
use erlang_rocksdb.Ordered.Set.{Ascending}
use erlang_rocksdb.Term.{binary}
use erlang_rocksdb.PostingList.Roaring.{Roaring, IsRoaring, hash_key, build_bitmap_from_keys}
use erlang_rocksdb.PostingList.Format.{Build, serialize_v2, bitmap_data, detect_version, v1}
use erlang_rocksdb.PostingList.Parse.{parse_posting_list, extract_bitmap_v2}
use erlang_rocksdb.PostingList.RoundTrip.{Fits, parse_posting_list-serialize_v2}
use erlang_rocksdb.PostingList.Bitmaps.{
  has_hash, contains-build_bitmap_from_keys, extract_bitmap_v2-serialize_v2,
}
use erlang_rocksdb.PostingList.Nif.{boolean, bytes}
use erlang_rocksdb.PostingList.Nif.Resource.{
  Resource, opened, open_bitmap, bitmap_or_new, open_binary, bitmap_has, resource_bitmap_contains,
  postings_open, postings_bitmap_contains, postings_to_binary,
}

-- For keys in strict order that fit the format, `postings_open` on the stored value, with memory for
-- the resource, gives a resource that `postings_to_binary` writes out as the same bytes.
pub postings_to_binary-postings_open :
    (build : Build) (ks : List Bytes)
    → Ascending ks
    → Fits build ks
    → (resource : Resource build) × (postings_open build true (binary (serialize_v2 build ks) ∷ [])
        ≡ opened resource)
      × (postings_to_binary (some resource) [] ≡ bytes (serialize_v2 build ks))
unfolding postings_open postings_to_binary open_binary
postings_to_binary-postings_open build ks h fits = (
  open_binary build (serialize_v2 build ks),
  refl,
  ap (λ js. bytes (serialize_v2 build js)) (parse_posting_list-serialize_v2 fits h),
)

module _ (r : Roaring) (laws : IsRoaring r) where
  -- A bitmap that is read back from a stored value and one that is built anew are the same, and a
  -- value without a bitmap gets one.
  stored_or_new :
      (ks : List Bytes) (no_bytes : Bool)
      → bitmap_or_new r ks (if no_bytes then none else some (build_bitmap_from_keys r ks))
        ≡ some (build_bitmap_from_keys r ks)
  unfolding bitmap_or_new
  stored_or_new ks true = refl
  stored_or_new ks false = refl

  bitmap-v1 :
      (d : Bytes)
      → detect_version d ≡ v1
      → open_bitmap (some r) d (parse_posting_list d)
        ≡ some (build_bitmap_from_keys r (parse_posting_list d))
  unfolding open_bitmap extract_bitmap_v2 bitmap_or_new
  bitmap-v1 d e = rw (e, extract_bitmap_v2)

  -- The lookup by hash in an opened V1 value is true exactly if a key of the value has that hash.
  pub postings_bitmap_contains-v1 :
      (d k : Bytes)
      → detect_version d ≡ v1
      → postings_bitmap_contains (some (open_binary (some r) d)) (binary k ∷ [])
        ≡ boolean (has_hash (parse_posting_list d) (hash_key k))
  unfolding postings_bitmap_contains resource_bitmap_contains open_binary bitmap_has
  postings_bitmap_contains-v1 d k e =
      ap (λ b. boolean (bitmap_has r b (parse_posting_list d) k)) (bitmap-v1 d e)
      ∙ ap boolean (contains-build_bitmap_from_keys r laws (parse_posting_list d) (hash_key k))

  -- For keys in strict order that fit the format, and a CRoaring that keeps its documented laws,
  -- `postings_bitmap_contains` on the opened stored value replies true exactly if some key of the
  -- value has the hash of the key.
  pub postings_bitmap_contains-v2 :
      (ks : List Bytes) (k : Bytes)
      → Ascending ks
      → Fits (some r) ks
      → postings_bitmap_contains
          (some (open_binary (some r) (serialize_v2 (some r) ks)))
          (binary k ∷ [])
        ≡ boolean (has_hash ks (hash_key k))
  unfolding postings_bitmap_contains resource_bitmap_contains open_binary bitmap_has open_bitmap
  postings_bitmap_contains-v2 ks k h fits =
      ap
        (λ js.
          boolean (
            bitmap_has r (bitmap_or_new r js (extract_bitmap_v2 r (serialize_v2 (some r) ks))) js
              k))
        (parse_posting_list-serialize_v2 fits h)
      ∙ ap (λ o. boolean (bitmap_has r (bitmap_or_new r ks o) ks k))
          (extract_bitmap_v2-serialize_v2 r laws ks fits)
      ∙ ap (λ b. boolean (bitmap_has r b ks k))
          (stored_or_new ks (length (bitmap_data (some r) ks) == 0))
      ∙ ap boolean (contains-build_bitmap_from_keys r laws ks (hash_key k))
