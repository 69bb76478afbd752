-- ===== src/Examples/Bitmaps.antt =====
-- The bitmap functions with a set of numbers for CRoaring's bitmaps.
use erlang_rocksdb.Prelude.{
  ℕ, ◌≡◌, refl, Bool, true, false, ◌||◌, some, List, [], ◌∷◌, length, arith, ◌==◌,
}
use erlang_rocksdb.Bytes.{Bytes}
use erlang_rocksdb.Bytes.Order.{compare_bytes, eqb}
use erlang_rocksdb.Ordered.Set.{contains, Ascending}
use erlang_rocksdb.PostingList.Roaring.{
  Roaring, IsRoaring, build_bitmap_from_keys, fmix64, hash_block, hash_from, hash_key,
}
use erlang_rocksdb.PostingList.Format.{bitmap_data}
use erlang_rocksdb.PostingList.RoundTrip.{Fits}
use erlang_rocksdb.PostingList.Bitmaps.{NoCollision}
use erlang_rocksdb.Examples.{key_a, key_b}

abbrev member : List ℕ → ℕ → Bool
member [] x = false
member (y ∷ ys) x = y == x || member ys x

-- A bitmap is the list of its members, and is written as that list.
abbrev listed : Roaring
listed = record {
  Bitmap = List ℕ;
  create = [];
  add = λ b x. x ∷ b;
  contains = member;
  and_cardinality = λ a b. length a;
  portable_serialize = λ b. b;
  portable_deserialize_safe = λ d. some d;
}

listed-IsRoaring : IsRoaring listed
listed-IsRoaring = record {
  contains-create = λ x. refl;
  contains-add = λ b x y. refl;
  deserialize-serialize = λ b. refl;
}

abbrev two_keys : List Bytes
two_keys = key_a ∷ key_b ∷ []

two_keys-Ascending : Ascending two_keys
unfolding compare_bytes
two_keys-Ascending = ((refl, tt), (tt, tt))

Fits-two : Fits (some listed) two_keys
unfolding bitmap_data build_bitmap_from_keys
Fits-two = record {
  bitmap_size = omega arith;
  key_count = omega arith;
  key_sizes = (omega arith, (omega arith, tt));
}

has_b : contains two_keys key_b ≡ true
unfolding contains eqb compare_bytes
has_b = refl

different_hashes : (hash_key key_a == hash_key key_b) ≡ false
unfolding hash_key hash_from hash_block fmix64
different_hashes = refl

no_collision : NoCollision two_keys key_b
no_collision = (λ e. absurd (ground (arith, different_hashes)), (λ e. refl, tt))
