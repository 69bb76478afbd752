-- ===== src/Term.antt =====
-- Erlang terms as the NIF functions see them, and the runtime that encodes, decodes and compares
-- them. The external term format and the term order are the runtime's: they are parameters.
use erlang_rocksdb.Prelude.{
  ℕ, ◌^◌, Bool, true, false, ltb, Option, none, some, List, [], ◌∷◌, if◌then◌else◌,
}
use erlang_rocksdb.Prelude.Int.{ℤ, pos, negsuc}
use erlang_rocksdb.Bytes.{Bytes}

-- Atoms of the replies and the options of the calls.
pub data Name : Type 0 where
  atom_ok atom_error atom_not_found atom_corruption atom_unknown_status_error : Name
  atom_incomplete atom_busy atom_timed_out atom_try_again atom_expired : Name
  atom_true atom_false atom_undefined atom_default_column_family : Name
  atom_sync atom_disable_wal atom_ignore_missing_column_families atom_no_slowdown : Name
  atom_low_pri atom_wait atom_allow_write_stall : Name
  atom_read_tier atom_read_all_tier atom_block_cache_tier atom_persisted_tier : Name
  atom_memtable_tier atom_verify_checksums atom_fill_cache atom_tailing : Name
  atom_total_order_seek atom_auto_refresh_iterator_with_snapshot atom_readahead_size : Name
  atom_key_prefix atom_key_suffix atom_key_contains atom_value_prefix : Name
  atom_value_empty atom_always_delete atom_ttl_from_key : Name
  atom_exclusive_manual_compaction atom_change_level atom_target_level : Name
  atom_max_subcompactions atom_bottommost_level_compaction atom_skip : Name
  atom_if_have_compaction_filter atom_force atom_force_optimized : Name
  atom_async_io atom_set_snapshot atom_deadlock_detect atom_lock_timeout : Name
  atom_column_family_id atom_key atom_waiting_txns : Name

-- The atoms that the modelled code compares with (atoms.h); `other` stands for any other.
pub data Atom : Type 0 where
  posting_add posting_delete : Atom
  int_add list_append list_substract list_set list_delete list_insert : Atom
  binary_append binary_erase binary_insert binary_replace : Atom
  atom_keep atom_remove atom_change_value : Atom
  atom_iterate_upper_bound atom_iterate_lower_bound atom_snapshot : Atom
  atom_first atom_last atom_next atom_prev atom_seek atom_seek_for_prev : Atom
  named : Name → Atom
  other : ℕ → Atom

mutual
  pub data Term : Type 0 where
    atom : Atom → Term
    int : ℤ → Term
    float : ℕ → Term
    binary : Bytes → Term
    nil : Term
    cons : Term → Term → Term
    tuple : Elements → Term
    opaque : ℕ → Term

  pub data Elements : Type 0 where
    end : Elements
    element : Term → Elements → Elements

abbrev pub elements : Elements → List Term
elements end = []
elements (element t ts) = t ∷ elements ts

-- `enif_get_tuple`: the elements, whose number is the arity.
abbrev pub get_tuple : Term → Option (List Term)
get_tuple (tuple ts) = some (elements ts)
get_tuple _ = none

-- `enif_get_list_cell`
abbrev pub get_list_cell : Term → Option (Term × Term)
get_list_cell (cons head tail) = some (head, tail)
get_list_cell _ = none

-- `enif_is_list`: the empty list or a list cell.
abbrev pub is_list : Term → Bool
is_list nil = true
is_list (cons head tail) = true
is_list _ = false

-- `enif_is_number`
abbrev pub is_number : Term → Bool
is_number (int n) = true
is_number (float x) = true
is_number _ = false

-- `enif_inspect_binary`
abbrev pub inspect_binary : Term → Option Bytes
inspect_binary (binary b) = some b
inspect_binary _ = none

abbrev pub is_binary : Term → Bool
is_binary (binary b) = true
is_binary _ = false

-- An integer that fits `ErlNifSInt64`.
abbrev pub is_int64 : ℤ → Bool
is_int64 (pos n) = ltb n (2 ^ 63)
is_int64 (negsuc n) = ltb n (2 ^ 63)

-- `enif_get_int64`
abbrev pub get_int64 : Term → Option ℤ
get_int64 (int n) = if is_int64 n then some n else none
get_int64 _ = none

-- `enif_get_int`
abbrev pub get_int : Term → Option ℤ
get_int (int (pos n)) = if ltb n (2 ^ 31) then some (pos n) else none
get_int (int (negsuc n)) = if ltb n (2 ^ 31) then some (negsuc n) else none
get_int _ = none

-- `enif_get_uint`: an integer that fits 32 bits without a sign.
abbrev pub get_uint : Term → Option ℕ
get_uint (int (pos n)) = if ltb n (2 ^ 32) then some n else none
get_uint _ = none

-- `enif_get_uint64`
abbrev pub get_uint64 : Term → Option ℕ
get_uint64 (int (pos n)) = if ltb n (2 ^ 64) then some n else none
get_uint64 _ = none

-- `while (enif_get_list_cell(env, tail, &head, &tail))` visits the cells; an improper tail ends it.
abbrev pub list_items : Term → List Term
list_items (cons head tail) = head ∷ list_items tail
list_items _ = []

-- `enif_get_list_length`: fails on what is no proper list.
abbrev pub is_proper_list : Term → Bool
is_proper_list nil = true
is_proper_list (cons head tail) = is_proper_list tail
is_proper_list _ = false

-- `enif_make_list(env, 0)` and a loop of `enif_make_list_cell` from the back.
abbrev pub make_list : List Term → Term
make_list [] = nil
make_list (t ∷ ts) = cons t (make_list ts)

-- The runtime: `enif_binary_to_term`, `enif_term_to_binary`, and `enif_compare(a, b) == 0`.
pub record Runtime : Type 0 where
  pub binary_to_term : Bytes → Option Term
  pub term_to_binary : Term → Option Bytes
  pub compares_equal : Term → Term → Bool
