-- ===== src/ErlangMerge/Operator.antt =====
-- `ErlangMergeOperator`: the loops over the operands, and the choice by what is stored.
use erlang_rocksdb.Prelude.{Bool, true, false, Option, none, some, List, [], ◌∷◌, if◌then◌else◌}
use erlang_rocksdb.Prelude.Int.{ℤ}
use erlang_rocksdb.Bytes.{Bytes}
use erlang_rocksdb.Term.{
  Term, Runtime, atom, int, float, binary, nil, cons, int_add, list_append, list_substract,
  binary_append, get_tuple, get_int64, is_list, list_items, inspect_binary, make_list,
}
use erlang_rocksdb.ErlangMerge.Operations.{
  Merged, merged, rejected, undefined, ◌>>=◌, or_reject, int_operand, add_int, list_operation,
  binary_operation,
}

-- Where a merge without a stored value starts: the value, and whether the first operand is used up.
pub data Start : Type 0 where
  from_int : ℤ → Start
  from_list : Bool → Start
  from_binary : Bytes → Start

-- The chain of tests on the first operand; `op[0]` and `op[1]` are read with no test of the arity.
unfoldable pub start_of : List Term → Merged Start
start_of [] = undefined
start_of (atom int_add ∷ []) = undefined
start_of (atom list_append ∷ []) = undefined
start_of (atom list_substract ∷ []) = undefined
start_of (atom binary_append ∷ []) = undefined
start_of (atom int_add ∷ value ∷ rest) = do val ← or_reject (get_int64 value); merged (from_int val)
start_of (atom list_append ∷ items ∷ rest) =
    if is_list items then merged (from_list false) else rejected
start_of (atom list_substract ∷ items ∷ rest) =
    if is_list items then merged (from_list true) else rejected
start_of (atom binary_append ∷ value ∷ rest) = do
  bin ← or_reject (inspect_binary value)
  merged (from_binary bin)
start_of (t ∷ rest) = rejected

module _ (runtime : Runtime) where
  open runtime use {binary_to_term, term_to_binary, compares_equal}

  -- `enif_binary_to_term` and `enif_get_tuple`, as every loop begins.
  unfoldable pub operand_terms : Bytes → Merged (List Term)
  operand_terms operand = do term ← or_reject (binary_to_term operand); or_reject (get_tuple term)

  unfoldable pub int_loop : ℤ → List Bytes → Merged ℤ
  int_loop new_val [] = merged new_val
  int_loop new_val (operand ∷ rest) = do
    op ← operand_terms operand
    val ← int_operand op
    sum ← add_int new_val val
    int_loop sum rest

  unfoldable pub list_loop : List Term → List Bytes → Merged (List Term)
  list_loop list [] = merged list
  list_loop list (operand ∷ rest) = do
    op ← operand_terms operand
    list' ← list_operation compares_equal op list
    list_loop list' rest

  unfoldable pub binary_loop : Bytes → List Bytes → Merged Bytes
  binary_loop s [] = merged s
  binary_loop s (operand ∷ rest) = do
    op ← operand_terms operand
    s' ← binary_operation op s
    binary_loop s' rest

  -- `mergeErlangInt`, `mergeErlangList` and `mergeErlangBinary` on the operands that are left.
  unfoldable pub merge_erlang_int : ℤ → List Bytes → Merged Bytes
  merge_erlang_int new_val operands = do
    sum ← int_loop new_val operands
    or_reject (term_to_binary (int sum))

  unfoldable pub merge_erlang_list : List Term → List Bytes → Merged Bytes
  merge_erlang_list list operands = do
    list' ← list_loop list operands
    or_reject (term_to_binary (make_list list'))

  unfoldable pub merge_erlang_binary : Bytes → List Bytes → Merged Bytes
  merge_erlang_binary s operands = do
    s' ← binary_loop s operands
    or_reject (term_to_binary (binary s'))

  -- By what the stored value is. A float is a number that is no `int64`.
  unfoldable pub merge_existing : Term → List Bytes → Merged Bytes
  merge_existing (int n) operands = do
    old_val ← or_reject (get_int64 (int n))
    merge_erlang_int old_val operands
  merge_existing (float x) operands = rejected
  merge_existing nil operands = merge_erlang_list [] operands
  merge_existing (cons head tail) operands =
      merge_erlang_list (list_items (cons head tail)) operands
  merge_existing (binary s) operands = merge_erlang_binary s operands
  merge_existing _ operands = rejected

  unfoldable pub merge_from : Start → Bytes → List Bytes → Merged Bytes
  merge_from (from_int val) first rest = merge_erlang_int val rest
  merge_from (from_list true) first rest = merge_erlang_list [] rest
  merge_from (from_list false) first rest = merge_erlang_list [] (first ∷ rest)
  merge_from (from_binary bin) first rest = merge_erlang_binary bin rest

  unfoldable pub full_merge_v2 : Option Bytes → List Bytes → Merged Bytes
  unfolding merge_from
  full_merge_v2 (some existing) operands = do
    term ← or_reject (binary_to_term existing)
    merge_existing term operands
  full_merge_v2 none [] = undefined
  full_merge_v2 none (first ∷ rest) = do
    op ← operand_terms first
    start ← start_of op
    merge_from start first rest
