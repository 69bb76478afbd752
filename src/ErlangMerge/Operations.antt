-- ===== src/ErlangMerge/Operations.antt =====
-- What one operand does to the integer, the list or the binary that is merged.
pub use erlang_rocksdb.Merged.{Merged, merged, rejected, undefined, exception, ◌>>=◌, or_reject}
use erlang_rocksdb.Prelude.{
  ℕ, zero, suc, ◌+◌, ◌-◌, ltb, leb, Bool, List, [], ◌∷◌, ◌++◌, length, take, drop, set,
  if◌then◌else◌,
}
use erlang_rocksdb.Prelude.Int.{ℤ, ◌+ℤ◌}
use erlang_rocksdb.Bytes.{Bytes}
use erlang_rocksdb.Bytes.BigEndian.{to_u32}
use erlang_rocksdb.Term.{
  Atom, Term, atom, int_add, list_append, list_substract, list_set, list_delete, list_insert,
  binary_append, binary_erase, binary_insert, binary_replace, get_int64, is_int64, get_uint,
  is_list, list_items, is_proper_list, inspect_binary,
}

-- `op[0] != ATOM_MERGE_INT_ADD || !enif_get_int64(env, op[1], &val)`, with no test of the arity.
unfoldable pub int_operand : List Term → Merged ℤ
int_operand [] = undefined
int_operand (atom int_add ∷ []) = undefined
int_operand (atom int_add ∷ value ∷ rest) = or_reject (get_int64 value)
int_operand (t ∷ rest) = rejected

-- `new_val += val` on `ErlNifSInt64`.
unfoldable pub add_int : ℤ → ℤ → Merged ℤ
add_int a b = if is_int64 (a +ℤ b) then merged (a +ℤ b) else undefined

module _ (compares_equal : Term → Term → Bool) where
  -- The inner loop of `list_substract`: the first element that compares equal is erased.
  unfoldable pub erase_first : Term → List Term → List Term
  erase_first head [] = []
  erase_first head (t ∷ ts) = if compares_equal t head then ts else t ∷ erase_first head ts

  unfoldable pub substract : List Term → List Term → List Term
  substract list [] = list
  substract list (head ∷ tail) = substract (erase_first head list) tail

-- `std::advance(lit, pos); list_in.erase(lit)`, behind `pos < list_in.size()`.
unfoldable pub erase_at : ℕ → List Term → List Term
erase_at pos [] = []
erase_at zero (t ∷ ts) = ts
erase_at (suc pos) (t ∷ ts) = t ∷ erase_at pos ts

-- `for (i = start; i <= end; i++) lit = list_in.erase(lit);`
unfoldable pub erase_times : ℕ → ℕ → List Term → List Term
erase_times zero pos list = list
erase_times (suc left) pos list = erase_times left pos (erase_at pos list)

unfoldable pub erase_range : ℕ → ℕ → List Term → Merged (List Term)
unfolding erase_times erase_at
erase_range start stop list =
    if leb stop start
    then rejected
    else merged (if ltb stop (length list) then erase_times (stop + 1 - start) start list else list)

-- `list_in.insert(lit, head)` for each item puts the items, in order, before the position.
unfoldable pub insert_at : ℕ → List Term → List Term → List Term
insert_at pos items list =
    if ltb pos (length list) then take pos list ++ (items ++ drop pos list) else list

module _ (compares_equal : Term → Term → Bool) where
  unfoldable pub list_operation_2 : Atom → Term → List Term → Merged (List Term)
  list_operation_2 list_append items list =
      if is_list items then merged (list ++ list_items items) else rejected
  list_operation_2 list_substract items list =
      if is_proper_list items
      then merged (substract compares_equal list (list_items items))
      else rejected
  list_operation_2 list_delete position list = do
    pos ← or_reject (get_uint position)
    merged (if ltb pos (length list) then erase_at pos list else list)
  list_operation_2 _ _ _ = rejected

unfoldable pub list_operation_3 : Atom → Term → Term → List Term → Merged (List Term)
list_operation_3 list_set position value list = do
  pos ← or_reject (get_uint position)
  merged (if ltb pos (length list) then set list pos value else list)
list_operation_3 list_delete first last list = do
  start ← or_reject (get_uint first)
  stop ← or_reject (get_uint last)
  erase_range start stop list
list_operation_3 list_insert position items list = do
  pos ← or_reject (get_uint position)
  (if is_list items then merged (insert_at pos (list_items items) list) else rejected)
list_operation_3 _ _ _ _ = rejected

-- The arity is tested before any element is read.
unfoldable pub list_operation : (Term → Term → Bool) → List Term → List Term → Merged (List Term)
list_operation compares_equal (atom a ∷ x ∷ []) list = list_operation_2 compares_equal a x list
list_operation compares_equal (atom a ∷ x ∷ y ∷ []) list = list_operation_3 a x y list
list_operation compares_equal _ list = rejected

-- `s.replace(pos, count, ...)` behind `pos2 < s.size()`, where `pos2 = pos + count` is an
-- `unsigned int`. `std::string::replace` throws if `pos` is past the end, and stops at the end.
unfoldable pub replace : ℕ → ℕ → Bytes → Bytes → Merged Bytes
replace pos count bin s =
    if ltb (to_u32 (pos + count)) (length s)
    then (if ltb (length s) pos
        then exception
        else merged (take pos s ++ (bin ++ drop (pos + count) s)))
    else merged s

unfoldable pub erase_bytes : ℕ → ℕ → Bytes → Bytes
erase_bytes pos count s = if ltb pos (length s) then take pos s ++ drop (pos + count) s else s

unfoldable pub insert_bytes : ℕ → Bytes → Bytes → Bytes
insert_bytes pos chunk s = if leb pos (length s) then take pos s ++ (chunk ++ drop pos s) else s

unfoldable pub binary_operation : List Term → Bytes → Merged Bytes
binary_operation (atom binary_append ∷ x ∷ []) s = do
  bin ← or_reject (inspect_binary x)
  merged (s ++ bin)
binary_operation (atom binary_erase ∷ x ∷ y ∷ []) s = do
  pos ← or_reject (get_uint x)
  count ← or_reject (get_uint y)
  merged (erase_bytes pos count s)
binary_operation (atom binary_insert ∷ x ∷ y ∷ []) s = do
  pos ← or_reject (get_uint x)
  bin ← or_reject (inspect_binary y)
  merged (insert_bytes pos bin s)
binary_operation (atom binary_replace ∷ x ∷ y ∷ z ∷ []) s = do
  pos ← or_reject (get_uint x)
  count ← or_reject (get_uint y)
  bin ← or_reject (inspect_binary z)
  replace pos count bin s
binary_operation _ s = rejected
