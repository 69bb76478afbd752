-- ===== src/Calls/Outcome.antt =====
-- What a call of c_src/erocksdb_db.cc asks of the library, and how it answers by the status.
use erlang_rocksdb.Prelude.{ℕ, ◌≡◌, Option, none, some, List, [], ◌∷◌, ◌>>=◌, if◌then◌else◌}
use erlang_rocksdb.Bytes.{Bytes}
use erlang_rocksdb.Term.{
  Term, atom_ok, atom_error, atom_not_found, atom_corruption, atom_unknown_status_error,
  inspect_binary, list_items, is_list,
}
use erlang_rocksdb.WriteBatch.{Handles}
use erlang_rocksdb.Calls.{Code, k_ok, k_not_found, k_corruption, Reply, badarg, returned, fold}
use erlang_rocksdb.Calls.Options.{parse_flush_option, parse_compact_range_option}
use erlang_rocksdb.Calls.Database.{
  Library, columns, write_options_of, db_put_entity, flush_cf, db_flush, db_compact_range,
  range_slice,
}
use erlang_rocksdb.Calls.Reads.{read_options_of, db_get, db_get_entity}
use erlang_rocksdb.Calls.Asked.{Operation, asked, heeds, serve}
use erlang_rocksdb.Calls.Types.{
  ErlangType, an_atom, a_binary, pair_of, HasType, failure, columns_type,
}

-- A call with the arguments after the database.
pub data Request : Type 0 where
  gets gets_entity puts_entity compacts : List Term → Request
  writes : Operation → List Term → Request
  flushes : Term → Term → Request

-- A read of a value of that type, or a change.
pub data Answer : Type 0 where
  value : ErlangType → Answer
  done : Answer

-- The term for a status.
abbrev pub Answers : Answer → Code → Term → Type 0
Answers (value ty) k_ok t = HasType (pair_of (an_atom atom_ok) ty) t
Answers (value ty) k_not_found t = HasType (an_atom atom_not_found) t
Answers (value ty) k_corruption t = HasType (failure atom_corruption) t
Answers (value ty) _ t = HasType (failure atom_unknown_status_error) t
Answers done k_ok t = HasType (an_atom atom_ok) t
Answers done _ t = HasType (failure atom_error) t

-- `none` are arguments that are refused, before the library is called.
abbrev pub Answered : Answer → Option Code → Reply → Type 0
Answered answer none reply = reply ≡ badarg
Answered answer (some code) reply = (t : Term) × (reply ≡ returned t) × Answers answer code t

abbrev pub answer_of : Request → Answer
answer_of (gets args) = value a_binary
answer_of (gets_entity args) = value columns_type
answer_of _ = done

module _ {D : Type 0} (lib : Library D) (handles : Handles) (get_snapshot : Term → Option ℕ) where
  abbrev pub call : Request → D → Reply × D
  call (gets args) d = (db_get lib handles get_snapshot args d, d)
  call (gets_entity args) d = (db_get_entity lib handles get_snapshot args d, d)
  call (puts_entity args) d = db_put_entity lib handles args d
  call (compacts args) d = db_compact_range lib handles args d
  call (writes op args) d = serve lib handles op args d
  call (flushes cf opts) d = db_flush lib handles cf opts d

  -- The options, the column family and the key of a read.
  abbrev pub key_read : List Term → Option (Term × (ℕ × Bytes))
  key_read (cf ∷ key ∷ opts ∷ []) =
      inspect_binary key >>= λ k. handles.get_cf cf >>= λ c. some (opts, (c, k))
  key_read (key ∷ opts ∷ rest) = inspect_binary key >>= λ k. some (opts, (0, k))
  key_read _ = none

  -- The columns of `PutEntity`, a list of pairs.
  abbrev pub columns_asked : Term → Option (List (Bytes × Bytes))
  columns_asked cols = if is_list cols then columns (list_items cols) else none

  -- The options, the column family, the key and the columns of `PutEntity`.
  abbrev pub entity_of :
      Term → Option ℕ → Option Bytes → Term → Option (Term × ((ℕ × Bytes) × List (Bytes × Bytes)))
  entity_of opts f o cols =
      f >>= λ c. o >>= λ k. columns_asked cols >>= λ cs. some (opts, ((c, k), cs))

  abbrev pub entity_asked : List Term → Option (Term × ((ℕ × Bytes) × List (Bytes × Bytes)))
  entity_asked (cf ∷ key ∷ cols ∷ opts ∷ rest) =
      entity_of opts (handles.get_cf cf) (inspect_binary key) cols
  entity_asked (key ∷ cols ∷ opts ∷ []) = entity_of opts (some 0) (inspect_binary key) cols
  entity_asked _ = none

  -- The options, the column family and the range of `CompactRange`.
  abbrev pub range_of :
      Term → Option ℕ → Option Bytes → Option Bytes → Option (Term × (ℕ × (Bytes × Bytes)))
  range_of opts f begin end_ = f >>= λ c. begin >>= λ b. end_ >>= λ e. some (opts, (c, (b, e)))

  abbrev pub range_asked : List Term → Option (Term × (ℕ × (Bytes × Bytes)))
  range_asked (cf ∷ begin ∷ end_ ∷ opts ∷ []) =
      range_of opts (handles.get_cf cf) (range_slice begin) (range_slice end_)
  range_asked (begin ∷ end_ ∷ opts ∷ []) =
      range_of opts (some 0) (range_slice begin) (range_slice end_)
  range_asked _ = none

  -- The status of the library's call, if it is called.
  abbrev pub status_of : Request → D → Option Code
  status_of (gets args) d = key_read args >>= λ x.
      some (lib.get (read_options_of lib handles get_snapshot x.0) x.1.0 x.1.1 d).0.code
  status_of (gets_entity args) d = key_read args >>= λ x.
      some (lib.get_entity (read_options_of lib handles get_snapshot x.0) x.1.0 x.1.1 d).0.code
  status_of (puts_entity args) d = entity_asked args >>= λ x.
      some (lib.put_entity (write_options_of lib handles x.0) x.1.0.0 x.1.0.1 x.1.1 d).0.code
  status_of (compacts args) d = range_asked args >>= λ x.
      some
        (lib.compact_range (fold parse_compact_range_option x.0 lib.compact_range_options).1 x.1.0
          (some x.1.1.0) (some x.1.1.1) d).0.code
  status_of (writes op args) d = (asked handles op args).0 >>= λ r.
      some
        (lib.write
          (if heeds op args
            then write_options_of lib handles (asked handles op args).1
            else lib.write_options)
          r d).0.code
  status_of (flushes cf opts) d = flush_cf lib handles cf >>= λ c.
      some (lib.flush (fold parse_flush_option opts lib.flush_options).1 c d).0.code
