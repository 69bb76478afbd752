-- ===== src/ErlangMerge/Integers.antt =====
-- Merges of integers: the sum, while it fits 64 bits.
use erlang_rocksdb.Prelude.{
  ◌≡◌, refl, inl, inr, Bool, true, ◌&&◌, List, [], ◌∷◌, if◌then◌else◌, Bool-cases, foldl,
}
use erlang_rocksdb.Prelude.Int.{ℤ, ◌+ℤ◌}
use erlang_rocksdb.Bytes.{Bytes}
use erlang_rocksdb.Term.{Runtime, atom, int, int_add, is_int64}
use erlang_rocksdb.ErlangMerge.Operations.{merged, undefined, or_reject, int_operand, add_int}
use erlang_rocksdb.ErlangMerge.Operator.{operand_terms, int_loop, merge_erlang_int}

abbrev pub total : ℤ → List ℤ → ℤ
total = foldl ◌+ℤ◌

-- Every partial sum is an `int64`.
abbrev pub sums_fit : ℤ → List ℤ → Bool
sums_fit n [] = true
sums_fit n (v ∷ vs) = is_int64 (n +ℤ v) && sums_fit (n +ℤ v) vs

-- The operands are terms `{int_add, V}` for these values, each an `int64`.
abbrev pub Adds : Runtime → List Bytes → List ℤ → Type 0
Adds runtime [] [] = Unit {0}
Adds runtime (o ∷ os) (v ∷ vs) =
    (operand_terms runtime o ≡ merged (atom int_add ∷ int v ∷ []))
    × (is_int64 v ≡ true)
    × Adds runtime os vs
Adds runtime _ _ = ⊥

int_loop-total :
    (runtime : Runtime) (n : ℤ) (os : List Bytes) (vs : List ℤ)
    → Adds runtime os vs
    → int_loop runtime n os ≡ (if sums_fit n vs then merged (total n vs) else undefined)
unfolding int_loop int_operand add_int
int_loop-total runtime n [] [] h = refl
int_loop-total runtime n [] (v ∷ vs) h = elim h [ ]
int_loop-total runtime n (o ∷ os) [] h = elim h [ ]
int_loop-total runtime n (o ∷ os) (v ∷ vs) (e, fits, h) = elim (Bool-cases (is_int64 (n +ℤ v))) [
  | inl s ↦ rw e (rw fits (rw s (int_loop-total runtime (n +ℤ v) os vs h)))
  | inr s ↦ rw e (rw fits (rw s))
]

-- A run of `int_add` operands of `int64` values over an integer stores the exact sum, if every partial
-- sum is an `int64`; else an addition overflows, which C++ leaves undefined.
pub merge_erlang_int-total :
    (runtime : Runtime) (n : ℤ) (os : List Bytes) (vs : List ℤ)
    → Adds runtime os vs
    → merge_erlang_int runtime n os
      ≡ (if sums_fit n vs then or_reject (runtime.term_to_binary (int (total n vs))) else undefined)
unfolding merge_erlang_int
merge_erlang_int-total runtime n os vs h = elim (Bool-cases (sums_fit n vs)) [
  | inl s ↦ rw (int_loop-total runtime n os vs h) (rw s)
  | inr s ↦ rw (int_loop-total runtime n os vs h) (rw s)
]
