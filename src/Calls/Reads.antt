-- ===== src/Calls/Reads.antt =====
-- Reads of a database: `Get`, `MultiGet`, `GetEntity` and `IsEmpty` of c_src/erocksdb_db.cc, with the
-- arguments after the database.
use erlang_rocksdb.Prelude.{ℕ, Option, none, some, List, [], ◌∷◌, map, if◌then◌else◌, ◌>>=◌}
use erlang_rocksdb.Bytes.{Bytes}
use erlang_rocksdb.Term.{
  Term, atom, named, atom_true, atom_false, inspect_binary, make_list, list_items, is_proper_list,
}
use erlang_rocksdb.WriteBatch.{Handles}
use erlang_rocksdb.Calls.{Reply, badarg, returned, value_term, fold, key_slices, columns_term}
use erlang_rocksdb.Calls.Options.{ReadOptions, parse_read_option}
use erlang_rocksdb.Calls.Database.{Library}

module _ {D : Type 0} (lib : Library D) (handles : Handles) (get_snapshot : Term → Option ℕ) where
  unfoldable pub read_options_of : Term → ReadOptions
  unfolding fold parse_read_option
  read_options_of list = (fold (parse_read_option get_snapshot) list lib.read_options).1

  -- The key is inspected before the column family.
  abbrev pub cf_and_key : Term → Term → Option (ℕ × Bytes)
  cf_and_key cf key = inspect_binary key >>= λ k. handles.get_cf cf >>= λ c. some (c, k)

  abbrev pub read_with :
      (ReadOptions → ℕ → Bytes → D → Term) → Term → Option (ℕ × Bytes) → D → Reply
  read_with read opts none d = badarg
  read_with read opts (some (cf, key)) d = returned (read (read_options_of opts) cf key d)

  unfoldable pub db_get : List Term → D → Reply
  unfolding read_options_of value_term
  db_get (cf ∷ key ∷ opts ∷ []) =
      read_with (λ o c k d. value_term (lib.get o c k d)) opts (cf_and_key cf key)
  db_get (key ∷ opts ∷ rest) =
      read_with (λ o c k d. value_term (lib.get o c k d)) opts
        (inspect_binary key >>= λ k. some (0, k))
  db_get _ = λ d. badarg

  unfoldable pub db_get_entity : List Term → D → Reply
  unfolding read_options_of columns_term
  db_get_entity (cf ∷ key ∷ opts ∷ []) =
      read_with (λ o c k d. columns_term (lib.get_entity o c k d)) opts (cf_and_key cf key)
  db_get_entity (key ∷ opts ∷ rest) =
      read_with (λ o c k d. columns_term (lib.get_entity o c k d)) opts
        (inspect_binary key >>= λ k. some (0, k))
  db_get_entity _ = λ d. badarg

  abbrev pub read_slices : Term → ℕ → Option (List Bytes) → D → Reply
  read_slices opts cf none d = badarg
  read_slices opts cf (some ks) d =
      returned (make_list (map value_term (lib.multi_get (read_options_of opts) cf ks d)))

  -- The list of the keys is empty, or each of them is read.
  abbrev pub read_all : Term → ℕ → List Term → D → Reply
  read_all opts cf [] d = returned (make_list [])
  read_all opts cf (key ∷ keys) d = read_slices opts cf (key_slices (key ∷ keys)) d

  abbrev pub multi_with : Option ℕ → Term → Term → D → Reply
  multi_with none keys_list opts d = badarg
  multi_with (some cf) keys_list opts d =
      if is_proper_list keys_list then read_all opts cf (list_items keys_list) d else badarg

  unfoldable pub db_multi_get : List Term → D → Reply
  unfolding read_options_of value_term key_slices
  db_multi_get (cf ∷ keys_list ∷ opts ∷ []) = multi_with (handles.get_cf cf) keys_list opts
  db_multi_get (keys_list ∷ opts ∷ rest) = multi_with (some 0) keys_list opts
  db_multi_get _ = λ d. badarg

  unfoldable pub db_is_empty : D → Reply
  db_is_empty d = returned (
      if lib.is_valid_at_first lib.read_options d
      then atom (named atom_false)
      else atom (named atom_true))
