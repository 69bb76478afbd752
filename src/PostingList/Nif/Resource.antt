-- ===== src/PostingList/Nif/Resource.antt =====
-- `PostingListResource`: a posting list that is parsed once and asked often.
use erlang_rocksdb.Prelude.{Bool, true, false, Option, none, some, List, [], ◌∷◌, length}
use erlang_rocksdb.Bytes.{Bytes}
use erlang_rocksdb.Term.{Term}
use erlang_rocksdb.Ordered.Set
use erlang_rocksdb.PostingList.Roaring.{Roaring, hash_key, build_bitmap_from_keys}
use erlang_rocksdb.PostingList.Format.{Build, serialize_v2}
use erlang_rocksdb.PostingList.Parse.{parse_posting_list, extract_bitmap_v2}
use erlang_rocksdb.PostingList.Nif.{
  Reply, boolean, number, keys, bytes, badarg, one_binary, reply_or_badarg,
}

-- The build without CRoaring has no field for a bitmap.
abbrev pub Bitmap : Build → Type 0
Bitmap none = Unit {0}
Bitmap (some r) = Option r.Bitmap

pub record Resource (build : Build) : Type 0 where
  pub key_set : List Bytes
  pub sorted_keys : List Bytes
  pub bitmap : Bitmap build

-- `{ok, Resource}`, `{error, alloc_failed}`, or badarg.
pub data Opened (build : Build) : Type 0 where
  opened : Resource build → Opened build
  alloc_failed : Opened build
  not_a_binary : Opened build

unfoldable pub bitmap_or_new : (r : Roaring) → List Bytes → Option r.Bitmap → Option r.Bitmap
bitmap_or_new r key_set none = some (build_bitmap_from_keys r key_set)
bitmap_or_new r key_set (some bitmap) = some bitmap

-- `extract_bitmap_v2` is null unless the version is 2, and then a bitmap is built.
unfoldable pub open_bitmap : (build : Build) → Bytes → List Bytes → Bitmap build
unfolding bitmap_or_new
open_bitmap none bin key_set = tt
open_bitmap (some r) bin key_set = bitmap_or_new r key_set (extract_bitmap_v2 r bin)

unfoldable pub open_binary : (build : Build) → Bytes → Resource build
unfolding open_bitmap
open_binary build bin = record {
  key_set = parse_posting_list bin;
  sorted_keys = parse_posting_list bin;
  bitmap = open_bitmap build bin (parse_posting_list bin);
}

-- `allocated` says whether `enif_alloc_resource` gave memory.
unfoldable pub postings_open : (build : Build) → Bool → List Term → Opened build
postings_open build allocated argv = elim (one_binary argv) [
  | none ↦ not_a_binary
  | some bin ↦ elim allocated [ true ↦ opened (open_binary build bin) | false ↦ alloc_failed ]
]

unfoldable pub bitmap_has : (r : Roaring) → Option r.Bitmap → List Bytes → Bytes → Bool
bitmap_has r none key_set key = Set.contains key_set key
bitmap_has r (some bitmap) key_set key = r.contains bitmap (hash_key key)

unfoldable pub resource_bitmap_contains : (build : Build) → Resource build → Bytes → Bool
unfolding bitmap_has
resource_bitmap_contains none res key = Set.contains res.key_set key
resource_bitmap_contains (some r) res key = bitmap_has r res.bitmap res.key_set key

-- The first argument is what `enif_get_resource` finds for `argv[0]`, the other terms are the rest.
module _ {build : Build} (resource : Option (Resource build)) where
  unfoldable pub postings_contains : List Term → Reply
  postings_contains rest =
      reply_or_badarg resource
        λ res. reply_or_badarg (one_binary rest) λ key. boolean (Set.contains res.key_set key)

  unfoldable pub postings_bitmap_contains : List Term → Reply
  unfolding resource_bitmap_contains
  postings_bitmap_contains rest = reply_or_badarg resource λ res.
      reply_or_badarg (one_binary rest) λ key. boolean (resource_bitmap_contains build res key)

  unfoldable pub postings_count : List Term → Reply
  postings_count [] = reply_or_badarg resource λ res. number (length res.key_set)
  postings_count (t ∷ ts) = badarg

  unfoldable pub postings_keys : List Term → Reply
  postings_keys [] = reply_or_badarg resource λ res. keys res.key_set
  postings_keys (t ∷ ts) = badarg

  unfoldable pub postings_to_binary : List Term → Reply
  postings_to_binary [] = reply_or_badarg resource λ res. bytes (serialize_v2 build res.key_set)
  postings_to_binary (t ∷ ts) = badarg
