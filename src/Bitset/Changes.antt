-- ===== src/Bitset/Changes.antt =====
-- The bit array against its meaning: each bit is what the last operand on it made of it.
use erlang_rocksdb.Prelude.{
  ℕ, zero, suc, ◌*◌, ◌/◌, ◌%◌, ◌<◌, ◌≡◌, ◌⊎◌, refl, sym, ap, ◌∙◌, inl, inr, Bool, false, not, ◌&&◌,
  ◌||◌, ltb, ◌==◌, some, List, [], ◌∷◌, length, replicate, length-replicate, arith, Bool-cases,
  subst,
}
use erlang_rocksdb.Prelude.Int.{pos}
use erlang_rocksdb.Bytes.{Bytes, IsBytes}
use erlang_rocksdb.Merged.{Merged, merged, rejected, undefined, exception, ◌>>=◌}
use erlang_rocksdb.Stoi.{stoi}
use erlang_rocksdb.Bitset.{
  bit_mask, set_mask, clear_mask, write_at, apply_at, apply_operand, apply_operands, initial_data,
  full_merge_v2, memory_after, existing_value_after,
}
use erlang_rocksdb.Bitset.Masks.{
  bit_in, test_bit, length-set_mask, length-clear_mask, set_mask-IsBytes, clear_mask-IsBytes,
  test_bit-set_mask, test_bit-clear_mask,
}

pub data Change : Type 0 where
  sets clears : ℕ → Change
  wipes : Change

-- What a change makes of bit `i`.
abbrev pub bit_after : Change → ℕ → Bool → Bool
bit_after (sets p) i was = i == p || was
bit_after (clears p) i was = not (i == p) && was
bit_after wipes i was = false

abbrev pub bit_after_all : List Change → ℕ → Bool → Bool
bit_after_all [] i was = was
bit_after_all (c ∷ cs) i was = bit_after_all cs i (bit_after c i was)

-- The operand is the text of the change, at a position inside an array of `size` bytes.
abbrev pub Denotes : ℕ → Bytes → Change → Type 0
Denotes size (sign ∷ digits) (sets p) =
    (sign ≡ b'+') × (stoi digits ≡ some (pos p)) × (p < 8 * size)
Denotes size (sign ∷ digits) (clears p) =
    (sign ≡ b'-') × (stoi digits ≡ some (pos p)) × (p < 8 * size)
Denotes size [] wipes = Unit {0}
Denotes size _ _ = ⊥

abbrev pub Denote : ℕ → List Bytes → List Change → Type 0
Denote size [] [] = Unit {0}
Denote size (o ∷ os) (c ∷ cs) = Denotes size o c × Denote size os cs
Denote size _ _ = ⊥

record Applied (d : Bytes) (c : Change) (d' : Bytes) : Type 0 where
  pub size : length d' ≡ length d
  pub bytes : IsBytes d'
  pub bits : (i : ℕ) → test_bit d' i ≡ bit_after c i (test_bit d i)

bit_in-zeros : (n o j : ℕ) → bit_in (replicate n 0) o j ≡ false
bit_in-zeros zero o j = refl
bit_in-zeros (suc n) zero j = ground arith
bit_in-zeros (suc n) (suc o) j = bit_in-zeros n o j

zeros-IsBytes : (n : ℕ) → IsBytes (replicate n 0)
zeros-IsBytes zero = tt
zeros-IsBytes (suc n) = (omega arith, zeros-IsBytes n)

apply_at_sets :
    (sign p : ℕ) (d : Bytes)
    → sign ≡ b'+'
    → p < 8 * length d
    → apply_at sign (pos p) d ≡ merged (set_mask (p / 8) (bit_mask (p % 8)) d)
unfolding apply_at write_at
apply_at_sets sign p d hs hp = ground arith

apply_at_clears :
    (sign p : ℕ) (d : Bytes)
    → sign ≡ b'-'
    → p < 8 * length d
    → apply_at sign (pos p) d ≡ merged (clear_mask (p / 8) (bit_mask (p % 8)) d)
unfolding apply_at write_at
apply_at_clears sign p d hs hp = ground arith

apply_operand-stoi :
    (sign : ℕ) (digits d : Bytes) (p : ℕ)
    → stoi digits ≡ some (pos p)
    → apply_operand (sign ∷ digits) d ≡ apply_at sign (pos p) d
unfolding apply_operand
apply_operand-stoi sign digits d p h = rw (h) refl

apply_operand_empty : (d : Bytes) → apply_operand [] d ≡ merged (replicate (length d) 0)
unfolding apply_operand
apply_operand_empty d = refl

apply_operand-Applied :
    (o : Bytes) (c : Change) (d : Bytes)
    → Denotes (length d) o c
    → IsBytes d
    → (d' : Bytes) × (apply_operand o d ≡ merged d') × Applied d c d'
apply_operand-Applied [] wipes d h hd = (
  replicate (length d) 0,
  apply_operand_empty d,
  record {
    size = length-replicate (length d) 0;
    bytes = zeros-IsBytes (length d);
    bits = λ i. bit_in-zeros (length d) (i / 8) (i % 8);
  },
)
apply_operand-Applied [] (sets p) d h hd = elim h [ ]
apply_operand-Applied [] (clears p) d h hd = elim h [ ]
apply_operand-Applied (sign ∷ digits) wipes d h hd = elim h [ ]
apply_operand-Applied (sign ∷ digits) (sets p) d h hd = (
  _,
  apply_operand-stoi sign digits d p h.1 ∙ apply_at_sets sign p d h.0 h.2,
  record {
    size = length-set_mask (p / 8) (bit_mask (p % 8)) d;
    bytes = set_mask-IsBytes (p / 8) (p % 8) d (omega arith) hd;
    bits = λ i. test_bit-set_mask d p i hd h.2;
  },
)
apply_operand-Applied (sign ∷ digits) (clears p) d h hd = (
  _,
  apply_operand-stoi sign digits d p h.1 ∙ apply_at_clears sign p d h.0 h.2,
  record {
    size = length-clear_mask (p / 8) (bit_mask (p % 8)) d;
    bytes = clear_mask-IsBytes (p / 8) (p % 8) d (omega arith) hd;
    bits = λ i. test_bit-clear_mask d p i hd h.2;
  },
)

-- The array after all changes, when it began as `d`.
pub record AllApplied (d : Bytes) (cs : List Change) (d' : Bytes) : Type 0 where
  pub size : length d' ≡ length d
  pub bytes : IsBytes d'
  pub bits : (i : ℕ) → test_bit d' i ≡ bit_after_all cs i (test_bit d i)

-- Operands that are the texts of changes at positions inside the array, on an array of bytes, are all
-- applied: the size stays, the bytes stay bytes, and each bit is what the changes make of it in turn.
pub apply_operands-AllApplied :
    (os : List Bytes) (cs : List Change) (d : Bytes)
    → Denote (length d) os cs
    → IsBytes d
    → (d' : Bytes) × (apply_operands os d ≡ merged d') × AllApplied d cs d'
unfolding apply_operands
apply_operands-AllApplied [] [] d h hd =
    (d, refl, record { size = refl; bytes = hd; bits = λ i. refl })
apply_operands-AllApplied [] (c ∷ cs) d h hd = elim h [ ]
apply_operands-AllApplied (o ∷ os) [] d h hd = elim h [ ]
apply_operands-AllApplied (o ∷ os) (c ∷ cs) d h hd =
    let (d1, e, a) = apply_operand-Applied o c d h.0 hd in
    let (d2, f, b) =
      apply_operands-AllApplied os cs d1 (subst (λ n. Denote n os cs) (sym (Applied.size a)) h.1)
        (Applied.bytes a) in
    (
      d2,
      ap (λ m. m >>= apply_operands os) e ∙ f,
      record {
        size = AllApplied.size b ∙ Applied.size a;
        bytes = AllApplied.bytes b;
        bits = λ i. AllApplied.bits b i ∙ ap (bit_after_all cs i) (Applied.bits a i);
      },
    )

-- An operand `+p` or `-p` with `p / 8` equal to the size of the array passes the test `ofs > size`,
-- and its write is outside the buffer.
pub apply_operand_past_end :
    (sign : ℕ) (digits d : Bytes) (p : ℕ)
    → (sign ≡ b'+') ⊎ (sign ≡ b'-')
    → stoi digits ≡ some (pos p)
    → p / 8 ≡ length d
    → apply_operand (sign ∷ digits) d ≡ undefined
unfolding apply_at write_at
apply_operand_past_end sign digits d p hs h hp = apply_operand-stoi sign digits d p h ∙ at_end
  where
    at_end : apply_at sign (pos p) d ≡ undefined
    at_end = elim hs [ inl s ↦ ground arith | inr s ↦ ground arith ]

merged≢rejected : {a : Bytes} → merged a ≡ rejected → ⊥
merged≢rejected e = cc

merged≢undefined : {a : Bytes} → merged a ≡ undefined → ⊥
merged≢undefined e = cc

merged≢exception : {a : Bytes} → merged a ≡ exception → ⊥
merged≢exception e = cc

memory_after-apply_operands :
    (os : List Bytes) (d d' : Bytes) → apply_operands os d ≡ merged d' → memory_after os d ≡ d'
unfolding apply_operands memory_after
memory_after-apply_operands [] d d' h = cc
memory_after-apply_operands (o ∷ os) d d' h =
    by_operand (λ d1 h1. memory_after-apply_operands os d1 d' h1) (apply_operand o d) refl
  where
    by_operand :
        ((d1 : Bytes) → apply_operands os d1 ≡ merged d' → memory_after os d1 ≡ d')
        → (m : Merged Bytes) → apply_operand o d ≡ m
        → memory_after (o ∷ os) d ≡ d'
    by_operand later (merged d1) e = rw (e, memory_after) (later d1 (rw (e) at h))
    by_operand later rejected e = absurd (merged≢rejected (sym (rw (e) at h)))
    by_operand later undefined e = absurd (merged≢undefined (sym (rw (e) at h)))
    by_operand later exception e = absurd (merged≢exception (sym (rw (e) at h)))

-- A merge over a stored value that succeeds has written its result into the stored value's memory.
pub full_merge_v2-existing_value_after :
    (capacity : ℕ) (existing : Bytes) (os : List Bytes) (d : Bytes)
    → full_merge_v2 capacity (some existing) os ≡ merged d
    → existing_value_after capacity existing os ≡ d
unfolding full_merge_v2 existing_value_after initial_data
full_merge_v2-existing_value_after capacity existing os d h =
    elim (Bool-cases (ltb (length existing) (capacity / 8))) [
      | inl e ↦ absurd (merged≢rejected (sym (rw (e) at h)))
      | inr e ↦
          rw (e, existing_value_after) (memory_after-apply_operands os existing d (rw (e) at h))
    ]
