-- ===== src/PostingList/Loops.antt =====
-- The loops that read posting lists: they end, and they read back what was written.
use erlang_rocksdb.Prelude.{
  ℕ, zero, suc, ◌^◌, ◌≤◌, ◌<◌, ◌≡◌, refl, ◌∙◌, inl, inr, Bool, true, false, none, some, List, [],
  ◌∷◌, ◌++◌, append_assoc, foldl, length, arith, if◌then◌else◌, All, Option-cases,
}
use erlang_rocksdb.Bytes.{Bytes}
use erlang_rocksdb.Bytes.BigEndian.{
  u32_bytes, to_u32, take_u32, take_byte, take_bytes, take_u32-u32_bytes, take_bytes-append,
  take_u32_shorter, take_byte_shorter, take_bytes_shorter,
}
use erlang_rocksdb.PostingList.Format.{
  v1_loop, v2_loop, take_entry, take_key, take_header, key_entries, serialize_v2, Build,
  bitmap_data,
}

-- The size fits `uint32_t`.
abbrev pub IsSize : Bytes → Type 0
IsSize key = length key < 2 ^ 32

pub take_entry_shorter :
    (d key : Bytes) (t : Bool) (rest : Bytes)
    → take_entry d ≡ some ((key, t), rest)
    → length rest < length d
unfolding take_entry
take_entry_shorter d key t rest h = elim (Option-cases (take_u32 d)) [
  | inl e ↦ ground arith
  | inr ((len, d₁), e) ↦ elim (Option-cases (take_byte d₁)) [
    | inl e₁ ↦ ground arith
    | inr ((flag, d₂), e₁) ↦ elim (Option-cases (take_bytes len d₂)) [
      | inl e₂ ↦ ground arith
      | inr ((k, r), e₂) ↦ ground (
        arith,
        take_u32_shorter d len d₁ e,
        take_byte_shorter d₁ flag d₂ e₁,
        take_bytes_shorter len d₂ k r e₂,
      )
    ]
  ]
]

take_entry-nil : take_entry [] ≡ none
unfolding take_entry take_u32
take_entry-nil = refl

-- A V1 value as its entries.
abbrev pub entries_v1 : List (Bytes × Bool) → Bytes
entries_v1 [] = []
entries_v1 ((key, t) ∷ es) =
    u32_bytes (to_u32 (length key)) ++ ((if t then 1 else 0) ∷ (key ++ entries_v1 es))

pub to_u32_small : (n : ℕ) → n < 2 ^ 32 → to_u32 n ≡ n
to_u32_small n h = omega arith

take_entry-entry :
    (key : Bytes) (t : Bool) (rest : Bytes)
    → IsSize key
    → take_entry (u32_bytes (to_u32 (length key)) ++ ((if t then 1 else 0) ∷ (key ++ rest)))
      ≡ some ((key, t), rest)
unfolding take_entry take_byte
take_entry-entry key true rest h =
    rw (to_u32_small (length key) h)
      (rw (take_u32-u32_bytes (length key) (1 ∷ (key ++ rest)) h) (rw (take_bytes-append key rest)))
take_entry-entry key false rest h =
    rw (to_u32_small (length key) h)
      (rw (take_u32-u32_bytes (length key) (0 ∷ (key ++ rest)) h) (rw (take_bytes-append key rest)))

take_key-entry :
    (k : Bytes) (ks : List Bytes) (rest : Bytes)
    → IsSize k
    → take_key (u32_bytes (to_u32 (length k)) ++ (k ++ key_entries ks) ++ rest)
      ≡ some (k, key_entries ks ++ rest)
unfolding take_key
take_key-entry k ks rest h = rw (to_u32_small (length k) h) (
    rw (append_assoc (u32_bytes (length k)) (k ++ key_entries ks) rest) (
      rw (take_u32-u32_bytes (length k) (k ++ key_entries ks ++ rest) h)
        (rw (append_assoc k (key_entries ks) rest) (take_bytes-append k (key_entries ks ++ rest)))))

module _ {ℓ} {S : Type ℓ} (body : Bytes → Bool → S → S) where
  -- Any two amounts of fuel that cover the input give the same result.
  pub v1_loop-fuel :
      (f g : ℕ) (d : Bytes) (s : S)
      → length d ≤ f
      → length d ≤ g
      → v1_loop body f d s ≡ v1_loop body g d s
  unfolding v1_loop
  v1_loop-fuel zero zero d s hf hg = refl
  v1_loop-fuel zero (suc g) [] s hf hg = ground (arith, take_entry-nil)
  v1_loop-fuel zero (suc g) (b ∷ d) s hf hg = elim hf [ ]
  v1_loop-fuel (suc f) zero [] s hf hg = ground (arith, take_entry-nil)
  v1_loop-fuel (suc f) zero (b ∷ d) s hf hg = elim hg [ ]
  v1_loop-fuel (suc f) (suc g) d s hf hg = elim (Option-cases (take_entry d)) [
    | inl e ↦ rw (e, v1_loop)
    | inr (((key, t), rest), e) ↦
        rw (e, v1_loop)
          (v1_loop-fuel f g rest (body key t s) (omega (arith, take_entry_shorter d key t rest e))
            (omega (arith, take_entry_shorter d key t rest e)))
  ]

  -- With fuel for every byte of the input, the loop over V1 entries takes an entry and goes on with
  -- such fuel for the rest, or ends where there is no entry: the fuel never runs out.
  pub v1_loop_unroll :
      (d : Bytes) (s : S)
      → v1_loop body (length d) d s ≡ elim (take_entry d) [
        | none ↦ s
        | some ((key, t), rest) ↦ v1_loop body (length rest) rest (body key t s)
      ]
  unfolding v1_loop
  v1_loop_unroll [] s = rw take_entry-nil
  v1_loop_unroll (b ∷ d) s = elim (Option-cases (take_entry (b ∷ d))) [
    | inl e ↦ rw (e, v1_loop)
    | inr (((key, t), rest), e) ↦
        rw (e, v1_loop)
          (v1_loop-fuel (length d) (length rest) rest (body key t s)
            (omega (arith, take_entry_shorter (b ∷ d) key t rest e)) (omega arith))
  ]

  pub v1_loop-entries :
      (es : List (Bytes × Bool)) (s : S)
      → All (λ e. IsSize e.0) es
      → v1_loop body (length (entries_v1 es)) (entries_v1 es) s ≡ foldl (λ a e. body e.0 e.1 a) s es
  v1_loop-entries [] s h = unfold v1_loop in refl
  v1_loop-entries ((key, t) ∷ es) s h =
      v1_loop_unroll (entries_v1 ((key, t) ∷ es)) s
      ∙ rw (take_entry-entry key t (entries_v1 es) h.0) (v1_loop-entries es (body key t s) h.1)

module _ {ℓ} {S : Type ℓ} (body : Bytes → S → S) where
  -- The keys that were written are read back in order, whatever follows them.
  pub v2_loop-key_entries :
      (ks : List Bytes) (rest : Bytes) (s : S)
      → All IsSize ks
      → v2_loop body (length ks) (key_entries ks ++ rest) s ≡ foldl (λ a k. body k a) s ks
  unfolding v2_loop key_entries
  v2_loop-key_entries [] rest s h = refl
  v2_loop-key_entries (k ∷ ks) rest s h =
      rw (take_key-entry k ks rest h.0, v2_loop) (v2_loop-key_entries ks rest (body k s) h.1)

module _ (build : Build) (keys : List Bytes) where
  -- The header of what `serialize_v2` writes.
  pub take_header-serialize_v2 :
      IsSize (bitmap_data build keys)
      → length keys < 2 ^ 32
      → take_header (serialize_v2 build keys) ≡ some (length keys, key_entries keys)
  unfolding take_header serialize_v2 take_byte
  take_header-serialize_v2 hb hk =
      rw (to_u32_small (length (bitmap_data build keys)) hb, to_u32_small (length keys) hk)
        (rw (take_u32-u32_bytes (length (bitmap_data build keys)) _ hb) (
          rw (take_bytes-append (bitmap_data build keys) _)
            (take_u32-u32_bytes (length keys) (key_entries keys) hk)))
