-- ===== src/PostingList/Search.antt =====
-- `binary_search_v2_keys`: the search in a V2 value that builds no set.
use erlang_rocksdb.Prelude.{
  ℕ, zero, suc, ◌+◌, ◌-◌, ◌/◌, ◌==◌, ltb, compare, Ordering, Bool, true, false, Option, none, some,
  List, [], ◌∷◌, ◌++◌, length, get_elem?, drop, ◌>>=◌, if◌then◌else◌,
}
use erlang_rocksdb.Bytes.{Bytes}
use erlang_rocksdb.Bytes.BigEndian.{to_u32, take_u32, take_byte}
use erlang_rocksdb.PostingList.Format.{v1, v2, detect_version, v2_loop}

-- The first `n` bytes of each, as `memcmp` compares them.
unfoldable pub memcmp : ℕ → Bytes → Bytes → Ordering
memcmp zero a b = Ordering.eq
memcmp (suc n) (x ∷ xs) (y ∷ ys) = elim (compare x y) [
  | Ordering.lt ↦ Ordering.lt
  | Ordering.gt ↦ Ordering.gt
  | Ordering.eq ↦ memcmp n xs ys
]
memcmp (suc n) a b = Ordering.eq

-- `cmp_len`, `memcmp`, and the lengths where that finds no difference.
unfoldable pub compare_key : Bytes → Bytes → Ordering
unfolding memcmp
compare_key key search_key =
    let cmp_len = if ltb (length key) (length search_key) then length key else length search_key in
    elim (memcmp cmp_len key search_key) [
      | Ordering.lt ↦ Ordering.lt
      | Ordering.gt ↦ Ordering.gt
      | Ordering.eq ↦ compare (length key) (length search_key)
    ]

-- `while (lo < hi)`. `none` is a read outside `key_offsets`, or fuel that ran out.
unfoldable pub search_loop : List Bytes → Bytes → ℕ → ℕ → ℕ → Option Bool
search_loop keys k zero lo hi = none
search_loop keys k (suc fuel) lo hi = elim (ltb lo hi) [
  | false ↦ some false
  | true ↦
      let mid = lo + (hi - lo) / 2 in
      elim (get_elem? keys mid) [
        | none ↦ none
        | some key ↦ elim (compare_key key k) [
          | Ordering.eq ↦ some true
          | Ordering.lt ↦ search_loop keys k fuel (mid + 1) hi
          | Ordering.gt ↦ search_loop keys k fuel lo mid
        ]
      ]
]

-- `key_offsets`: an offset with its length stands for the bytes there.
unfoldable pub key_offsets : ℕ → Bytes → List Bytes
unfolding v2_loop
key_offsets key_count d = v2_loop (λ key offsets. offsets ++ key ∷ []) key_count d []

unfoldable pub search_keys : List Bytes → Bytes → Option Bool
unfolding search_loop compare_key
search_keys keys k = search_loop keys k (suc (length keys)) 0 (length keys)

-- `ptr += 4 + bitmap_size`, a sum of 32 bits, from behind the version byte; then the key count.
unfoldable pub take_table : Bytes → Option (ℕ × Bytes)
take_table d = do
  (version, d₁) ← take_byte d
  (bitmap_size, d₂) ← take_u32 d₁
  take_u32 (drop (to_u32 (4 + bitmap_size)) d₁)

unfoldable pub binary_search_v2_keys : Bytes → Bytes → Option Bool
binary_search_v2_keys d k = elim (detect_version d) [
  | v1 ↦ some false
  | v2 ↦ elim (take_table d) [
    | none ↦ some false
    | some (key_count, rest) ↦
        if key_count == 0 then some false else search_keys (key_offsets key_count rest) k
  ]
]
