-- ===== src/PostingList/Bitmaps.antt =====
-- Lookups by hash in the roaring bitmap: a key of the list is never missed, and a wrong hit needs
-- another key of the list with the same hash.
use erlang_rocksdb.Prelude.{
  ℕ, ◌≡◌, refl, ap, ◌∙◌, Bool, true, false, ◌||◌, none, some, List, [], ◌∷◌, foldl, length, arith,
  if◌then◌else◌, All, ◌==◌,
}
use erlang_rocksdb.Bytes.{Bytes}
use erlang_rocksdb.Bytes.Order.{eqb_iff}
use erlang_rocksdb.Bytes.BigEndian.{take_byte, take_u32-u32_bytes, take_bytes-append}
use erlang_rocksdb.Ordered.Set.{Ascending, contains}
use erlang_rocksdb.Term.{binary}
use erlang_rocksdb.PostingList.Roaring.{Roaring, IsRoaring, hash_key, build_bitmap_from_keys}
use erlang_rocksdb.PostingList.Format.{serialize_v2, bitmap_data}
use erlang_rocksdb.PostingList.Loops.{to_u32_small}
use erlang_rocksdb.PostingList.Parse.{extract_bitmap_v2, stored_bitmap}
use erlang_rocksdb.PostingList.RoundTrip.{
  Fits, parse_posting_list-serialize_v2, detect_version-serialize_v2,
}
use erlang_rocksdb.PostingList.Nif.{boolean, bitmap_contains_in, posting_list_bitmap_contains}

-- Some key has the hash.
abbrev pub has_hash : List Bytes → ℕ → Bool
has_hash [] x = false
has_hash (k ∷ ks) x = hash_key k == x || has_hash ks x

-- No key of the list other than `k` has the hash of `k`.
abbrev pub NoCollision : List Bytes → Bytes → Type 0
NoCollision ks k = All (λ j. hash_key j ≡ hash_key k → j ≡ k) ks

pub has_hash-contains :
    (ks : List Bytes) (k : Bytes) → contains ks k ≡ true → has_hash ks (hash_key k) ≡ true
unfolding contains
has_hash-contains [] k h = h
has_hash-contains (j ∷ ks) k h = ground (arith, (eqb_iff j k).0, has_hash-contains ks k)

pub has_hash-NoCollision :
    (ks : List Bytes) (k : Bytes) → NoCollision ks k → has_hash ks (hash_key k) ≡ contains ks k
unfolding contains
has_hash-NoCollision [] k h = refl
has_hash-NoCollision (j ∷ ks) k h =
    ground (arith, (eqb_iff j k).0, (eqb_iff j k).1, h.0, has_hash-NoCollision ks k h.1)

module _ (r : Roaring) (laws : IsRoaring r) where
  contains-foldl_add :
      (ks : List Bytes) (b : r.Bitmap) (x : ℕ)
      → r.contains (foldl (λ a k. r.add a (hash_key k)) b ks) x ≡ (has_hash ks x || r.contains b x)
  contains-foldl_add [] b x = ground arith
  contains-foldl_add (k ∷ ks) b x =
      ground
        (arith, contains-foldl_add ks (r.add b (hash_key k)) x, laws.contains-add b (hash_key k) x)

  pub contains-build_bitmap_from_keys :
      (ks : List Bytes) (x : ℕ) → r.contains (build_bitmap_from_keys r ks) x ≡ has_hash ks x
  unfolding build_bitmap_from_keys
  contains-build_bitmap_from_keys ks x =
      ground (arith, contains-foldl_add ks r.create x, laws.contains-create x)

  -- For keys that fit the format and a CRoaring that reads back what it wrote, the bitmap read from a
  -- stored value is the bitmap of its keys, or none where CRoaring wrote no bytes.
  pub extract_bitmap_v2-serialize_v2 :
      (ks : List Bytes)
      → Fits (some r) ks
      → extract_bitmap_v2 r (serialize_v2 (some r) ks) ≡ (
          if length (bitmap_data (some r) ks) == 0
          then none
          else some (build_bitmap_from_keys r ks))
  unfolding extract_bitmap_v2 stored_bitmap serialize_v2 take_byte
  extract_bitmap_v2-serialize_v2 ks fits =
      rw (detect_version-serialize_v2 (some r) ks, extract_bitmap_v2)
        (rw (to_u32_small (length (bitmap_data (some r) ks)) fits.bitmap_size) (
          rw (take_u32-u32_bytes (length (bitmap_data (some r) ks)) _ fits.bitmap_size) (
            rw (take_bytes-append (bitmap_data (some r) ks) _) (
              ap (λ o. if length (bitmap_data (some r) ks) == 0 then none else o)
                (unfold bitmap_data in laws.deserialize-serialize (build_bitmap_from_keys r ks))))))

  either_way :
      (ks : List Bytes) (k : Bytes) (no_bytes : Bool)
      → Ascending ks
      → Fits (some r) ks
      → extract_bitmap_v2 r (serialize_v2 (some r) ks)
        ≡ (if no_bytes then none else some (build_bitmap_from_keys r ks))
      → bitmap_contains_in (some r) (serialize_v2 (some r) ks) k
        ≡ (if no_bytes then contains ks k else has_hash ks (hash_key k))
  unfolding bitmap_contains_in
  either_way ks k true h fits e =
      rw (e, bitmap_contains_in) (ap (λ js. contains js k) (parse_posting_list-serialize_v2 fits h))
  either_way ks k false h fits e =
      rw (e, bitmap_contains_in) (contains-build_bitmap_from_keys ks (hash_key k))

  module _ (ks : List Bytes) (k : Bytes) (h : Ascending ks) (fits : Fits (some r) ks) where
    lookup_of_stored : bitmap_contains_in (some r) (serialize_v2 (some r) ks) k ≡ (
        if length (bitmap_data (some r) ks) == 0 then contains ks k else has_hash ks (hash_key k))
    lookup_of_stored =
        either_way ks k (length (bitmap_data (some r) ks) == 0) h fits
          (extract_bitmap_v2-serialize_v2 ks fits)

    -- For keys in strict order that fit the format, and a CRoaring that keeps its documented laws,
    -- `posting_list_bitmap_contains` on the stored value replies true for every key of it.
    pub posting_list_bitmap_contains_complete :
        contains ks k ≡ true
        → posting_list_bitmap_contains (some r) (binary (serialize_v2 (some r) ks) ∷ binary k ∷ [])
          ≡ boolean true
    unfolding posting_list_bitmap_contains
    posting_list_bitmap_contains_complete at =
        ap boolean (lookup_of_stored ∙ ground (arith, has_hash-contains ks k))

    -- For keys in strict order that fit the format, and a CRoaring that keeps its documented laws,
    -- `posting_list_bitmap_contains` on the stored value replies whether a key is in it, if no other
    -- key of the value has its hash.
    pub posting_list_bitmap_contains_exact :
        NoCollision ks k
        → posting_list_bitmap_contains (some r) (binary (serialize_v2 (some r) ks) ∷ binary k ∷ [])
          ≡ boolean (contains ks k)
    unfolding posting_list_bitmap_contains
    posting_list_bitmap_contains_exact none_other =
        ap boolean (lookup_of_stored ∙ ground (arith, has_hash-NoCollision ks k none_other))
