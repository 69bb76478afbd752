-- ===== src/PostingList/Table.antt =====
-- Where `binary_search_v2_keys` and the other readers find the key count of a V2 value.
use erlang_rocksdb.Prelude.{
  ℕ, zero, suc, ◌+◌, ◌^◌, ◌<◌, ◌≤◌, ◌≡◌, refl, ap, ◌∙◌, inl, inr, [], ◌∷◌, length, drop, leb, ◌>>=◌,
  arith, Bool-cases,
}
use erlang_rocksdb.Bytes.{Bytes}
use erlang_rocksdb.Bytes.BigEndian.{to_u32, u32_of, take_u32, take_byte, take_bytes}
use erlang_rocksdb.PostingList.Format.{take_header}
use erlang_rocksdb.PostingList.Search.{take_table}

-- The bitmap size that the header of a value gives.
abbrev pub bitmap_size_of : Bytes → ℕ
bitmap_size_of (v ∷ a ∷ b ∷ c ∷ e ∷ d) = u32_of a b c e
bitmap_size_of _ = 0

drop_all : (n : ℕ) (d : Bytes) → length d ≤ n → drop n d ≡ []
drop_all zero [] h = refl
drop_all zero (b ∷ d) h = absurd (omega arith)
drop_all (suc n) [] h = refl
drop_all (suc n) (b ∷ d) h = drop_all n d (omega arith)

behind_bitmap : (n : ℕ) (d : Bytes) → take_u32 (drop n d) ≡ (take_bytes n d >>= λ p. take_u32 p.1)
unfolding take_bytes take_u32
behind_bitmap n d = elim (Bool-cases (leb n (length d))) [
  | inl e ↦ rw (e, take_bytes) refl
  | inr e ↦ rw (e, take_bytes) (ap take_u32 (drop_all n d (ground arith)))
]

-- While the sum of the bitmap's size and 4 fits 32 bits the search finds what the other readers find.
pub take_table-take_header :
    (d : Bytes) → bitmap_size_of d + 4 < 2 ^ 32 → take_table d ≡ take_header d
unfolding take_table take_header take_byte take_u32
take_table-take_header [] h = refl
take_table-take_header (v ∷ []) h = refl
take_table-take_header (v ∷ a ∷ []) h = refl
take_table-take_header (v ∷ a ∷ b ∷ []) h = refl
take_table-take_header (v ∷ a ∷ b ∷ c ∷ []) h = refl
take_table-take_header (v ∷ a ∷ b ∷ c ∷ e ∷ d) h =
    let behind_size : to_u32 (4 + u32_of a b c e) ≡ suc (suc (suc (suc (u32_of a b c e)))) =
      omega arith in
    ap (λ n. take_u32 (drop n (a ∷ b ∷ c ∷ e ∷ d))) behind_size ∙ behind_bitmap (u32_of a b c e) d
