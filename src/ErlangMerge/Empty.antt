-- ===== src/ErlangMerge/Empty.antt =====
-- A merge without a stored value, which the first operand starts.
use erlang_rocksdb.Prelude.{
  ◌≡◌, refl, subst, ◌∙◌, inl, inr, Bool, Option, none, some, List, [], ◌∷◌, arith, Bool-cases,
  Option-cases, some_inj,
}
use erlang_rocksdb.Prelude.Int.{ℤ, pos, ◌+ℤ◌}
use erlang_rocksdb.Bytes.{Bytes}
use erlang_rocksdb.Term.{
  Atom, Term, Runtime, atom, int, binary, nil, int_add, list_append, list_substract, binary_append,
  get_int64, is_list, is_proper_list, list_items, inspect_binary,
}
use erlang_rocksdb.ErlangMerge.Operations.{
  merged, int_operand, add_int, list_operation, list_operation_2, binary_operation, substract,
  erase_first,
}
use erlang_rocksdb.ErlangMerge.Operator.{
  operand_terms, start_of, int_loop, list_loop, binary_loop, merge_erlang_int, merge_erlang_list,
  merge_erlang_binary, merge_existing, full_merge_v2,
}

-- The empty value of the kind that an operation is for.
abbrev pub initial : Atom → Option Term
initial int_add = some (int (pos 0))
initial list_append = some nil
initial list_substract = some nil
initial binary_append = some (binary [])
initial _ = none

zero_add_int : (t : Term) (v : ℤ) → get_int64 t ≡ some v → add_int (pos 0) v ≡ merged v
unfolding add_int ◌+ℤ◌
zero_add_int (int n) v h = ground arith
zero_add_int _ v h = cc

substract-nil : (eq : Term → Term → Bool) (items : List Term) → substract eq [] items ≡ []
unfolding substract erase_first
substract-nil eq [] = refl
substract-nil eq (t ∷ items) = substract-nil eq items

module _ (runtime : Runtime) (first : Bytes) (rest : List Bytes) (x : Term) where
  -- The first operand is this operation.
  abbrev Begins : Atom → Type 0
  Begins a = operand_terms runtime first ≡ merged (atom a ∷ x ∷ [])

  abbrev StartsAs : Term → Type 0
  StartsAs empty =
      full_merge_v2 runtime none (first ∷ rest) ≡ merge_existing runtime empty (first ∷ rest)

  int_start : Begins int_add → StartsAs (int (pos 0))
  unfolding full_merge_v2 start_of merge_existing merge_erlang_int int_loop int_operand
  int_start e = elim (Option-cases (get_int64 x)) [
    | inl n ↦ rw e (rw n)
    | inr (v, s) ↦ rw e (rw s (rw (zero_add_int x v s)))
  ]

  append_start : Begins list_append → StartsAs nil
  unfolding full_merge_v2 start_of merge_existing merge_erlang_list list_loop list_operation
      list_operation_2
  append_start e = elim (Bool-cases (is_list x)) [
    | inl l ↦ rw e (rw l (rw e (rw l)))
    | inr n ↦ rw e (rw n)
  ]

  substract_start : is_list x ≡ is_proper_list x → Begins list_substract → StartsAs nil
  unfolding full_merge_v2 start_of merge_existing merge_erlang_list list_loop list_operation
      list_operation_2
  substract_start proper e = elim (Bool-cases (is_proper_list x)) [
    | inl l ↦ rw e (rw (proper ∙ l, l) (rw (substract-nil runtime.compares_equal (list_items x))))
    | inr n ↦ rw e (rw (proper ∙ n, n))
  ]

  binary_start : Begins binary_append → StartsAs (binary [])
  unfolding full_merge_v2 start_of merge_existing merge_erlang_binary binary_loop binary_operation
  binary_start e = elim (Option-cases (inspect_binary x)) [
    | inl n ↦ rw e (rw n)
    | inr (v, s) ↦ rw e (rw s)
  ]

  -- A merge without a stored value whose first operand is an `int_add`, `list_append`,
  -- `list_substract` or `binary_append` pair does what it does on a stored 0, empty list or empty
  -- binary, by the kind of that operand, if the list of a first `list_substract` is not improper.
  pub full_merge_v2-initial :
      (a : Atom) (empty : Term)
      → initial a ≡ some empty
      → (a ≡ list_substract → is_list x ≡ is_proper_list x)
      → operand_terms runtime first ≡ merged (atom a ∷ x ∷ [])
      → full_merge_v2 runtime none (first ∷ rest) ≡ merge_existing runtime empty (first ∷ rest)
  full_merge_v2-initial int_add empty i proper e = subst StartsAs (some_inj i) (int_start e)
  full_merge_v2-initial list_append empty i proper e = subst StartsAs (some_inj i) (append_start e)
  full_merge_v2-initial list_substract empty i proper e =
      subst StartsAs (some_inj i) (substract_start (proper refl) e)
  full_merge_v2-initial binary_append empty i proper e =
      subst StartsAs (some_inj i) (binary_start e)
  full_merge_v2-initial _ empty i proper e = cc
