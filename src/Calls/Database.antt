-- ===== src/Calls/Database.antt =====
-- Reads and writes of a database: the NIF functions of c_src/erocksdb_db.cc that hand over to
-- `rocksdb::DB`, with the arguments after the database.
use erlang_rocksdb.Prelude.{ℕ, Bool, Option, none, some, List, [], ◌∷◌, if◌then◌else◌, ◌>>=◌}
use erlang_rocksdb.Bytes.{Bytes}
use erlang_rocksdb.Term.{
  Term, atom, named, atom_error, atom_undefined, atom_default_column_family, inspect_binary,
  list_items, is_list, get_tuple,
}
use erlang_rocksdb.WriteBatch.{
  Record, put, merge, delete, single_delete, delete_range, Handles, key_value, cf_key_value, cf_key,
}
use erlang_rocksdb.Calls.{Status, Reply, badarg, returned, done_term, fold}
use erlang_rocksdb.Calls.Options.{
  WriteOptions, ReadOptions, FlushOptions, CompactRangeOptions, parse_write_option,
  parse_flush_option, parse_compact_range_option,
}

-- `rocksdb::DB`: the defaults of the options, and the methods. A column family is a number, 0 for
-- `DefaultColumnFamily()`. `write` is `Put`, `Merge`, `Delete`, `SingleDelete` and `DeleteRange`;
-- `is_valid_at_first` is `Valid()` of a new iterator after `SeekToFirst()`.
pub record Library (D : Type 0) : Type 0 where
  pub write_options : WriteOptions
  pub read_options : ReadOptions
  pub flush_options : FlushOptions
  pub compact_range_options : CompactRangeOptions
  pub get : ReadOptions → ℕ → Bytes → D → Status × Bytes
  pub multi_get : ReadOptions → ℕ → List Bytes → D → List (Status × Bytes)
  pub get_entity : ReadOptions → ℕ → Bytes → D → Status × List (Bytes × Bytes)
  pub write : WriteOptions → Record → D → Status × D
  pub put_entity : WriteOptions → ℕ → Bytes → List (Bytes × Bytes) → D → Status × D
  pub flush : FlushOptions → ℕ → D → Status × D
  pub compact_range : CompactRangeOptions → ℕ → Option Bytes → Option Bytes → D → Status × D
  pub is_valid_at_first : ReadOptions → D → Bool

-- How `ok` or an error is returned with the database.
abbrev pub written : {D : Type 0} → Status × D → Reply × D
written r = (returned (done_term atom_error r.0), r.1)

-- The pairs of `PutEntity`: the cells of the list, each of two binaries.
abbrev pub column : Term → Option (Bytes × Bytes)
column head = get_tuple head >>= two
  where
    two : List Term → Option (Bytes × Bytes)
    two (n ∷ v ∷ []) = inspect_binary n >>= λ col_name.
        inspect_binary v >>= λ col_value. some (col_name, col_value)
    two _ = none

unfoldable pub columns : List Term → Option (List (Bytes × Bytes))
columns [] = some []
columns (head ∷ tail) = column head >>= λ c. columns tail >>= λ cs. some (c ∷ cs)

-- A bound of `CompactRange`: the slice is empty for `undefined`.
abbrev pub range_slice : Term → Option Bytes
range_slice (atom (named atom_undefined)) = some []
range_slice t = inspect_binary t

module _ {D : Type 0} (lib : Library D) (handles : Handles) where
  abbrev pub Call : Type 0
  Call = D → Reply × D

  abbrev pub refused : Call
  refused d = (badarg, d)

  unfoldable pub write_options_of : Term → WriteOptions
  unfolding fold parse_write_option
  write_options_of list = (fold parse_write_option list lib.write_options).1

  -- A write whose options are read from the term.
  abbrev pub write_with : Term → Option Record → Call
  write_with opts none = refused
  write_with opts (some r) = λ d. written (lib.write (write_options_of opts) r d)

  unfoldable pub db_put : List Term → Call
  unfolding write_options_of
  db_put (cf ∷ key ∷ value ∷ opts ∷ rest) = write_with opts (cf_key_value handles put cf key value)
  db_put (key ∷ value ∷ opts ∷ []) = write_with opts (key_value put key value)
  db_put _ = refused

  -- `argv[3]` holds the options, also with a column family.
  unfoldable pub db_merge : List Term → Call
  unfolding write_options_of
  db_merge (cf ∷ key ∷ value ∷ opts ∷ rest) =
      write_with value (cf_key_value handles merge cf key value)
  db_merge (key ∷ value ∷ opts ∷ []) = write_with opts (key_value merge key value)
  db_merge _ = refused

  -- `argv[2]` holds the options, also with a column family.
  unfoldable pub db_delete : List Term → Call
  unfolding write_options_of
  db_delete (cf ∷ key ∷ opts ∷ rest) = write_with key (cf_key handles delete cf key)
  db_delete (key ∷ opts ∷ []) = write_with opts (inspect_binary key >>= λ k. some (delete 0 k))
  db_delete _ = refused

  unfoldable pub db_single_delete : List Term → Call
  unfolding write_options_of
  db_single_delete (cf ∷ key ∷ opts ∷ rest) = write_with key (cf_key handles single_delete cf key)
  db_single_delete (key ∷ opts ∷ []) =
      write_with opts (inspect_binary key >>= λ k. some (single_delete 0 k))
  db_single_delete _ = refused

  unfoldable pub db_delete_range : List Term → Call
  unfolding write_options_of
  db_delete_range (cf ∷ begin ∷ end_ ∷ opts ∷ []) =
      write_with opts (cf_key_value handles delete_range cf begin end_)
  db_delete_range (begin ∷ end_ ∷ opts ∷ []) = write_with opts (key_value delete_range begin end_)
  db_delete_range _ = refused

  abbrev pub entity_with : Term → Option (ℕ × Bytes) → Term → Call
  entity_with opts (some (cf, key)) columns_list =
      if is_list columns_list
      then elim (columns (list_items columns_list)) [
        | none ↦ refused
        | some cs ↦ λ d. written (lib.put_entity (write_options_of opts) cf key cs d)
      ]
      else refused
  entity_with opts none columns_list = refused

  unfoldable pub db_put_entity : List Term → Call
  unfolding write_options_of columns
  db_put_entity (cf ∷ key ∷ columns_list ∷ opts ∷ rest) =
      entity_with opts (handles.get_cf cf >>= λ c. inspect_binary key >>= λ k. some (c, k))
        columns_list
  db_put_entity (key ∷ columns_list ∷ opts ∷ []) =
      entity_with opts (inspect_binary key >>= λ k. some (0, k)) columns_list
  db_put_entity _ = refused

  abbrev pub flush_in : Term → Option ℕ → Call
  flush_in opts none = refused
  flush_in opts (some cf) =
      λ d. written (lib.flush (fold parse_flush_option opts lib.flush_options).1 cf d)

  abbrev pub flush_cf : Term → Option ℕ
  flush_cf (atom (named atom_default_column_family)) = some 0
  flush_cf cf = handles.get_cf cf

  unfoldable pub db_flush : Term → Term → Call
  unfolding fold parse_flush_option
  db_flush cf opts = flush_in opts (flush_cf cf)

  -- `CompactRange(opts, column_family, &begin, &end)`: both pointers are to slices.
  abbrev pub compact_in : Term → Option ℕ → Option Bytes → Option Bytes → Call
  compact_in opts (some cf) (some begin) (some end_) d = written (
      lib.compact_range (fold parse_compact_range_option opts lib.compact_range_options).1 cf
        (some begin) (some end_) d)
  compact_in opts _ _ _ d = refused d

  unfoldable pub db_compact_range : List Term → Call
  unfolding fold parse_compact_range_option
  db_compact_range (cf ∷ begin ∷ end_ ∷ opts ∷ []) =
      compact_in opts (handles.get_cf cf) (range_slice begin) (range_slice end_)
  db_compact_range (begin ∷ end_ ∷ opts ∷ []) =
      compact_in opts (some 0) (range_slice begin) (range_slice end_)
  db_compact_range _ = refused
