-- ===== src/PostingList/Operator.antt =====
-- `PostingListMergeOperator`: how RocksDB has a stored value and a run of operands merged.
-- A result is the new value, or `none` where the method returns false.
use erlang_rocksdb.Prelude.{
  Bool, true, false, Option, none, some, List, [], ◌∷◌, foldl, length, ltb, ◌>>=◌, if◌then◌else◌,
}
use erlang_rocksdb.Bytes.{Bytes}
use erlang_rocksdb.Term.{Term, binary, atom, get_tuple, posting_add, posting_delete}
use erlang_rocksdb.Ordered.Map
use erlang_rocksdb.PostingList.Format.{States, Build, parse_existing_value, serialize_states}

-- A pair of `posting_add` or `posting_delete` and a binary.
unfoldable pub operand_of : List Term → Option (Bytes × Bool)
operand_of (atom posting_add ∷ binary key ∷ []) = some (key, false)
operand_of (atom posting_delete ∷ binary key ∷ []) = some (key, true)
operand_of _ = none

module _ (binary_to_term : Bytes → Option Term) where
  unfoldable pub parse_operand : Bytes → Option (Bytes × Bool)
  parse_operand operand = do term ← binary_to_term operand; terms ← get_tuple term; operand_of terms

  -- The body of the loops over the operands.
  unfoldable pub merge_operand : States → Bytes → States
  merge_operand key_states operand = elim (parse_operand operand) [
    | some (key, is_tombstone) ↦ Map.insert key is_tombstone key_states
    | none ↦ parse_existing_value operand key_states
  ]

  unfoldable pub existing_states : Option Bytes → States
  existing_states none = []
  existing_states (some []) = []
  existing_states (some (b ∷ value)) = parse_existing_value (b ∷ value) []

  unfoldable pub full_merge_v2 : Build → Option Bytes → List Bytes → Option Bytes
  full_merge_v2 build existing operands =
      some (serialize_states build (foldl merge_operand (existing_states existing) operands))

  unfoldable pub partial_merge_multi : Build → List Bytes → Option Bytes
  partial_merge_multi build operands =
      if ltb (length operands) 2
      then none
      else some (serialize_states build (foldl merge_operand [] operands))
