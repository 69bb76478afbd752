-- ===== src/Transaction/Pessimistic.antt =====
-- The functions of c_src/pessimistic_transaction.cc.
use erlang_rocksdb.Prelude.{
  ℕ, ◌⊎◌, inl, inr, Bool, true, false, Option, none, some, List, [], ◌∷◌, map, if◌then◌else◌,
}
use erlang_rocksdb.Prelude.Int.{pos}
use erlang_rocksdb.Bytes.{Bytes}
use erlang_rocksdb.Term.{
  Term, Name, atom, int, binary, named, make_list, atom_column_family_id, atom_key,
  atom_waiting_txns, atom_ok, atom_error, atom_busy, atom_timed_out, atom_corruption,
  atom_try_again, atom_expired, atom_unknown_status_error,
}
use erlang_rocksdb.WriteBatch.{Handles}
use erlang_rocksdb.Calls.{
  Code, k_ok, k_not_found, k_busy, k_timed_out, k_corruption, k_try_again, k_expired, Status, Reply,
  returned, tuple2, error_message, error_tuple, value_term, fold,
}
use erlang_rocksdb.Calls.Options.{parse_write_option, parse_txn_option}
use erlang_rocksdb.Transaction.{
  Library, Session, done_with, value_with, plain_error, pair_args, key_args, read_args, multi_args,
  Call, in_tx, read_options_of, finished, put_with, delete_with, get_with, update_with, multi_with,
  multi_update_with,
}

-- The errors of a write, of a commit, and of reads that lock.
abbrev pub lock_error : Code → Name
lock_error k_busy = atom_busy
lock_error k_timed_out = atom_timed_out
lock_error _ = atom_error

abbrev pub commit_error : Code → Name
commit_error k_busy = atom_busy
commit_error k_expired = atom_expired
commit_error _ = atom_error

abbrev pub get_error : Code → Name
get_error k_busy = atom_busy
get_error k_timed_out = atom_timed_out
get_error k_corruption = atom_corruption
get_error k_try_again = atom_try_again
get_error _ = atom_unknown_status_error

abbrev pub multi_get_error : Code → Name
multi_get_error k_busy = atom_busy
multi_get_error k_timed_out = atom_timed_out
multi_get_error k_corruption = atom_corruption
multi_get_error _ = atom_unknown_status_error

-- "no savepoint set"
abbrev no_savepoint_set : Bytes
no_savepoint_set =
    110 ∷ 111 ∷ 32 ∷ 115 ∷ 97 ∷ 118 ∷ 101 ∷ 112 ∷ 111 ∷ 105 ∷ 110 ∷ 116 ∷ 32 ∷ 115 ∷ 101 ∷ 116 ∷ []

-- How the save point functions return.
unfoldable pub savepoint_term : Status → Term
unfolding error_tuple
savepoint_term status = elim status.code [
  | k_ok ↦ atom (named atom_ok)
  | k_not_found ↦ error_message atom_error no_savepoint_set
  | _ ↦ error_tuple atom_error status
]

-- "not a pessimistic transaction db"
abbrev not_pessimistic : Bytes
not_pessimistic =
    110 ∷ 111 ∷ 116 ∷ 32 ∷ 97 ∷ 32 ∷ 112 ∷ 101 ∷ 115 ∷ 115 ∷ 105 ∷ 109 ∷ 105 ∷ 115 ∷ 116 ∷ 105 ∷ 99
    ∷ 32 ∷ 116 ∷ 114 ∷ 97 ∷ 110 ∷ 115 ∷ 97 ∷ 99 ∷ 116 ∷ 105 ∷ 111 ∷ 110 ∷ 32 ∷ 100 ∷ 98 ∷ []

module _ {W : Type 0} (lib : Library W) (handles : Handles) (get_snapshot : Term → Option ℕ) where
  abbrev pub tx : (W → Reply × W) → Call lib handles get_snapshot
  tx = in_tx lib handles get_snapshot

  -- `m_IsPessimistic` of the database, then the term of the write options, and that of the
  -- transaction's where it is given.
  unfoldable pub new_pessimistic_transaction : Bool → Term → Option Term → W → Reply ⊎ Session W
  unfolding fold parse_write_option parse_txn_option
  new_pessimistic_transaction false opts txn_opts w =
      inl (returned (error_message atom_error not_pessimistic))
  new_pessimistic_transaction true opts txn_opts w = inr (record {
    is_open = true;
    world =
        lib.begin_pessimistic (fold parse_write_option opts lib.write_options).1
          (elim txn_opts [
            | none ↦ lib.transaction_options
            | some list ↦ (fold parse_txn_option list lib.transaction_options).1
          ])
          w;
  })

  unfoldable pub pessimistic_transaction_put : List Term → Call lib handles get_snapshot
  unfolding pair_args done_with
  pessimistic_transaction_put args =
      tx (put_with lib handles get_snapshot lock_error (pair_args handles args))

  unfoldable pub pessimistic_transaction_get : List Term → Call lib handles get_snapshot
  unfolding read_args read_options_of value_term
  pessimistic_transaction_get args = tx (get_with lib handles get_snapshot (read_args handles args))

  unfoldable pub pessimistic_transaction_get_for_update : List Term → Call lib handles get_snapshot
  unfolding read_args read_options_of value_with
  pessimistic_transaction_get_for_update args =
      tx (update_with lib handles get_snapshot (value_with get_error) (read_args handles args))

  unfoldable pub pessimistic_transaction_multi_get : List Term → Call lib handles get_snapshot
  unfolding multi_args read_options_of value_term
  pessimistic_transaction_multi_get args =
      tx (multi_with lib handles get_snapshot (multi_args handles args))

  unfoldable pub pessimistic_transaction_multi_get_for_update :
      List Term → Call lib handles get_snapshot
  unfolding multi_args read_options_of value_with
  pessimistic_transaction_multi_get_for_update args =
      tx (multi_update_with lib handles get_snapshot multi_get_error (multi_args handles args))

  unfoldable pub pessimistic_transaction_delete : List Term → Call lib handles get_snapshot
  unfolding key_args done_with
  pessimistic_transaction_delete args =
      tx (delete_with lib handles get_snapshot lock_error (key_args handles args))

  unfoldable pub pessimistic_transaction_commit : Call lib handles get_snapshot
  unfolding done_with
  pessimistic_transaction_commit =
      tx (λ w. finished lib handles get_snapshot commit_error (lib.commit w))

  unfoldable pub pessimistic_transaction_rollback : Call lib handles get_snapshot
  unfolding done_with
  pessimistic_transaction_rollback =
      tx (λ w. finished lib handles get_snapshot plain_error (lib.rollback w))

  unfoldable pub pessimistic_transaction_set_savepoint : Call lib handles get_snapshot
  pessimistic_transaction_set_savepoint =
      tx (λ w. (returned (atom (named atom_ok)), lib.set_save_point w))

  unfoldable pub pessimistic_transaction_rollback_to_savepoint : Call lib handles get_snapshot
  unfolding savepoint_term
  pessimistic_transaction_rollback_to_savepoint = tx (λ w.
      let r : Status × W = lib.rollback_to_save_point w in (returned (savepoint_term r.0), r.1))

  unfoldable pub pessimistic_transaction_pop_savepoint : Call lib handles get_snapshot
  unfolding savepoint_term
  pessimistic_transaction_pop_savepoint =
      tx (λ w. let r : Status × W = lib.pop_save_point w in (returned (savepoint_term r.0), r.1))

  unfoldable pub pessimistic_transaction_get_id : Call lib handles get_snapshot
  pessimistic_transaction_get_id =
      tx (λ w. (returned (tuple2 (atom (named atom_ok)) (int (pos (lib.get_id w)))), w))

  -- The family and the key that the transaction waits for, and the transactions that hold its lock,
  -- in a map. `make_map` is `enif_make_map_from_arrays`, by its keys and its values.
  unfoldable pub pessimistic_transaction_get_waiting_txns :
      (make_map : List Term → List Term → Term) → Call lib handles get_snapshot
  pessimistic_transaction_get_waiting_txns make_map = tx (λ w.
      let r : ℕ × Bytes × List ℕ = lib.get_waiting_txns w in
      (
        returned (
            tuple2 (atom (named atom_ok)) (
              make_map
                (atom (named atom_column_family_id)
                  ∷ atom (named atom_key)
                  ∷ atom (named atom_waiting_txns)
                  ∷ [])
                (int (pos r.0) ∷ binary r.1 ∷ make_list (map (λ n. int (pos n)) r.2) ∷ []))),
        w,
      ))

  -- `ReleasePessimisticTransaction`
  unfoldable pub release_pessimistic_transaction : Call lib handles get_snapshot
  release_pessimistic_transaction s =
      if s.is_open
      then (
        returned (atom (named atom_ok)),
        record { is_open = false; world = lib.destroy s.world },
      )
      else (returned (atom (named atom_ok)), s)
