-- ===== src/PostingList/Roaring.antt =====
-- The roaring bitmap of a V2 posting list: the hash of a key (`fmix64` and `hash_key`, which
-- posting_list_merge_operator.cc and posting_list_nif.cc have in two equal copies), and CRoaring as
-- a parameter. The host is little-endian, so `memcpy(&k, data, 8)` reads the lowest byte first.
use Prim.Native.Nat.{bit_xor, bit_or}
use erlang_rocksdb.Prelude.{
  ℕ, ◌+◌, ◌*◌, ◌/◌, ◌%◌, ◌^◌, ◌≡◌, ◌==◌, ◌||◌, Bool, false, Option, some, List, [], ◌∷◌, foldl,
  length,
}
use erlang_rocksdb.Bytes.{Bytes}

-- `uint64_t` arithmetic wraps around.
abbrev pub to_u64 : ℕ → ℕ
to_u64 n = n % 2 ^ 64

-- `k ^= k >> 33`
abbrev mix_high : ℕ → ℕ
mix_high k = bit_xor k (k / 2 ^ 33)

unfoldable pub fmix64 : ℕ → ℕ
fmix64 k =
    mix_high (to_u64 (mix_high (to_u64 (mix_high k * 0xff51afd7ed558ccd)) * 0xc4ceb9fe1a85ec53))

-- `h = (h << 27) | (h >> 37); h = h * 5 + 0x52dce729;` after `h ^= fmix64(k)`
unfoldable pub hash_block : ℕ → ℕ → ℕ
unfolding fmix64
hash_block h k =
    let mixed = bit_xor h (fmix64 k) in
    let rotated = bit_or (to_u64 (mixed * 2 ^ 27)) (mixed / 2 ^ 37) in
    to_u64 (rotated * 5 + 0x52dce729)

-- The bytes of a word, lowest first.
abbrev word_of : Bytes → ℕ
word_of [] = 0
word_of (b ∷ bs) = b + 256 * word_of bs

-- The loop over blocks of eight bytes, then the `switch (len & 7)` over what is left.
unfoldable pub hash_from : ℕ → ℕ → Bytes → ℕ
unfolding hash_block fmix64
hash_from len h (a ∷ b ∷ c ∷ d ∷ e ∷ f ∷ g ∷ i ∷ rest) =
    hash_from len (hash_block h (word_of (a ∷ b ∷ c ∷ d ∷ e ∷ f ∷ g ∷ i ∷ []))) rest
hash_from len h [] = fmix64 (bit_xor h len)
hash_from len h tail = fmix64 (bit_xor (bit_xor h (fmix64 (word_of tail))) len)

unfoldable pub hash_key : Bytes → ℕ
unfolding hash_from
hash_key key = hash_from (length key) 0x9e3779b97f4a7c15 key

-- CRoaring's 64-bit bitmaps, with what is documented of them. Members are `uint64_t` values.
pub record Roaring : Type 1 where
  pub Bitmap : Type 0
  pub create : Bitmap
  pub add : Bitmap → ℕ → Bitmap
  pub contains : Bitmap → ℕ → Bool
  pub and_cardinality : Bitmap → Bitmap → ℕ
  pub portable_serialize : Bitmap → Bytes
  pub portable_deserialize_safe : Bytes → Option Bitmap

pub record IsRoaring (r : Roaring) : Type 0 where
  pub contains-create : (x : ℕ) → r.contains r.create x ≡ false
  pub contains-add :
      (b : r.Bitmap) (x y : ℕ) → r.contains (r.add b x) y ≡ (x == y || r.contains b y)
  pub deserialize-serialize :
      (b : r.Bitmap) → r.portable_deserialize_safe (r.portable_serialize b) ≡ some b

-- `for (const auto& key : keys) roaring64_bitmap_add(bitmap, hash_key(key));`
unfoldable pub build_bitmap_from_keys : (r : Roaring) → List Bytes → r.Bitmap
build_bitmap_from_keys r keys = foldl (λ b k. r.add b (hash_key k)) r.create keys
