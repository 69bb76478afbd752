-- ===== src/Transaction.antt =====
-- Transactions: c_src/transaction.cc here, and c_src/pessimistic_transaction.cc in Pessimistic; their
-- iterators are in Iterator.Bounds. Both call the methods of `rocksdb::Transaction` on the same kind
-- of object.
pub mod Pessimistic
pub mod Spec
pub mod Answers
pub mod Terms
pub mod Steps
pub mod Methods
pub mod Replies
pub mod Tracking
use erlang_rocksdb.Prelude.{
  ℕ, Bool, true, false, Option, none, some, List, [], ◌∷◌, map, if◌then◌else◌, ◌>>=◌,
}
use erlang_rocksdb.Bytes.{Bytes}
use erlang_rocksdb.Term.{
  Term, Name, atom, binary, named, atom_ok, atom_error, atom_not_found, atom_busy, atom_corruption,
  atom_unknown_status_error, inspect_binary, make_list, list_items, is_proper_list,
}
use erlang_rocksdb.WriteBatch.{Handles}
use erlang_rocksdb.Calls.{
  Code, k_ok, k_not_found, k_busy, k_corruption, Status, Reply, badarg, returned, tuple2,
  error_tuple, is_ok, done_term, value_term, fold, key_slices,
}
use erlang_rocksdb.Calls.Options.{
  WriteOptions, ReadOptions, TransactionOptions, parse_write_option, parse_read_option,
}

-- `rocksdb::Transaction` on a database `W`, and `BeginTransaction`. A column family is a number, 0
-- for `DefaultColumnFamily()`. `destroy` is `delete m_Tx`. `get_waiting_txns` has the column family
-- and the key that it is asked to write, first.
pub record Library (W : Type 0) : Type 0 where
  pub read_options : ReadOptions
  pub write_options : WriteOptions
  pub transaction_options : TransactionOptions
  pub begin_optimistic : WriteOptions → W → W
  pub begin_pessimistic : WriteOptions → TransactionOptions → W → W
  pub put : ℕ → Bytes → Bytes → W → Status × W
  pub delete_ : ℕ → Bytes → W → Status × W
  pub get : ReadOptions → ℕ → Bytes → W → Status × Bytes
  pub get_for_update : ReadOptions → ℕ → Bytes → W → (Status × Bytes) × W
  pub multi_get : ReadOptions → ℕ → List Bytes → W → List (Status × Bytes)
  pub multi_get_for_update : ReadOptions → ℕ → List Bytes → W → List (Status × Bytes) × W
  pub commit : W → Status × W
  pub rollback : W → Status × W
  pub set_save_point : W → W
  pub rollback_to_save_point : W → Status × W
  pub pop_save_point : W → Status × W
  pub destroy : W → W
  pub get_id : W → ℕ
  pub get_waiting_txns : W → ℕ × Bytes × List ℕ

-- A transaction object with the database: `RetrieveTransactionObject` finds it while it is open.
pub record Session (W : Type 0) : Type 0 where
  pub is_open : Bool
  pub world : W

-- How a write, a commit or the like returns, with the name of the error for each code.
unfoldable pub done_with : (Code → Name) → Status → Term
unfolding error_tuple
done_with name status =
    if is_ok status then atom (named atom_ok) else error_tuple (name status.code) status

-- The branches of a locking read's status that is not ok.
abbrev pub absent_with : (Code → Name) → Status → Term
absent_with name status = elim status.code [
  | k_not_found ↦ atom (named atom_not_found)
  | _ ↦ error_tuple (name status.code) status
]

unfoldable pub value_with : (Code → Name) → Status × Bytes → Term
unfolding error_tuple
value_with name (status, value) =
    if is_ok status then tuple2 (atom (named atom_ok)) (binary value) else absent_with name status

-- The errors of `GetForUpdateTransaction` and of `MultiGetForUpdateTransaction`.
abbrev pub update_error : Code → Name
update_error k_busy = atom_busy
update_error k_corruption = atom_corruption
update_error _ = atom_unknown_status_error

abbrev pub plain_error : Code → Name
plain_error _ = atom_error

-- The arguments after the transaction: a column family or the default one, then the rest.
module _ (handles : Handles) where
  unfoldable pub pair_args : List Term → Option (ℕ × (Bytes × Bytes))
  pair_args (cf ∷ key ∷ value ∷ rest) = handles.get_cf cf >>= λ c.
      inspect_binary key >>= λ k. inspect_binary value >>= λ v. some (c, (k, v))
  pair_args (key ∷ value ∷ []) =
      inspect_binary key >>= λ k. inspect_binary value >>= λ v. some (0, (k, v))
  pair_args _ = none

  unfoldable pub key_args : List Term → Option (ℕ × Bytes)
  key_args (cf ∷ key ∷ rest) = handles.get_cf cf >>= λ c. inspect_binary key >>= λ k. some (c, k)
  key_args (key ∷ []) = inspect_binary key >>= λ k. some (0, k)
  key_args [] = none

  -- With the term of the read options.
  unfoldable pub read_args : List Term → Option ((ℕ × Bytes) × Term)
  read_args (cf ∷ key ∷ opts ∷ []) =
      inspect_binary key >>= λ k. handles.get_cf cf >>= λ c. some ((c, k), opts)
  read_args (key ∷ opts ∷ rest) = inspect_binary key >>= λ k. some ((0, k), opts)
  read_args _ = none

  abbrev pub slices_of : Term → Option (List Bytes)
  slices_of keys_list = if is_proper_list keys_list then key_slices (list_items keys_list) else none

  unfoldable pub multi_args : List Term → Option ((ℕ × List Bytes) × Term)
  unfolding key_slices
  multi_args (cf ∷ keys_list ∷ opts ∷ []) =
      handles.get_cf cf >>= λ c. slices_of keys_list >>= λ ks. some ((c, ks), opts)
  multi_args (keys_list ∷ opts ∷ rest) = slices_of keys_list >>= λ ks. some ((0, ks), opts)
  multi_args _ = none

module _ {W : Type 0} (lib : Library W) (handles : Handles) (get_snapshot : Term → Option ℕ) where
  abbrev pub Call : Type 0
  Call = Session W → Reply × Session W

  -- `enif_get_transaction`, then the call.
  abbrev pub in_tx : (W → Reply × W) → Call
  in_tx f s = if s.is_open then ((f s.world).0, record s { world = (f s.world).1 }) else (badarg, s)

  unfoldable pub read_options_of : Term → ReadOptions
  unfolding fold parse_read_option
  read_options_of list = (fold (parse_read_option get_snapshot) list lib.read_options).1

  -- A status as the reply.
  abbrev pub finished : (Code → Name) → Status × W → Reply × W
  finished name r = (returned (done_with name r.0), r.1)

  abbrev pub put_with : (Code → Name) → Option (ℕ × (Bytes × Bytes)) → W → Reply × W
  put_with name none w = (badarg, w)
  put_with name (some (c, (k, v))) w = finished name (lib.put c k v w)

  abbrev pub delete_with : (Code → Name) → Option (ℕ × Bytes) → W → Reply × W
  delete_with name none w = (badarg, w)
  delete_with name (some (c, k)) w = finished name (lib.delete_ c k w)

  abbrev pub get_with : Option ((ℕ × Bytes) × Term) → W → Reply × W
  get_with none w = (badarg, w)
  get_with (some ((c, k), opts)) w =
      (returned (value_term (lib.get (read_options_of opts) c k w)), w)

  abbrev pub update_with : (Status × Bytes → Term) → Option ((ℕ × Bytes) × Term) → W → Reply × W
  update_with term none w = (badarg, w)
  update_with term (some ((c, k), opts)) w =
      let r : (Status × Bytes) × W = lib.get_for_update (read_options_of opts) c k w in
      (returned (term r.0), r.1)

  -- An empty list of keys is answered without a read.
  abbrev pub multi_with : Option ((ℕ × List Bytes) × Term) → W → Reply × W
  multi_with none w = (badarg, w)
  multi_with (some ((c, []), opts)) w = (returned (make_list []), w)
  multi_with (some ((c, k ∷ ks), opts)) w =
      (returned (make_list (map value_term (lib.multi_get (read_options_of opts) c (k ∷ ks) w))), w)

  abbrev pub multi_update_with : (Code → Name) → Option ((ℕ × List Bytes) × Term) → W → Reply × W
  multi_update_with name none w = (badarg, w)
  multi_update_with name (some ((c, []), opts)) w = (returned (make_list []), w)
  multi_update_with name (some ((c, k ∷ ks), opts)) w =
      let r : List (Status × Bytes) × W =
        lib.multi_get_for_update (read_options_of opts) c (k ∷ ks) w in
      (returned (make_list (map (value_with name) r.0)), r.1)

  unfoldable pub put_transaction : List Term → Call
  unfolding pair_args done_with
  put_transaction args = in_tx (put_with plain_error (pair_args handles args))

  -- It reads with `GetForUpdate`.
  unfoldable pub get_transaction : List Term → Call
  unfolding read_args read_options_of value_term
  get_transaction args = in_tx (update_with value_term (read_args handles args))

  unfoldable pub get_for_update_transaction : List Term → Call
  unfolding read_args read_options_of value_with
  get_for_update_transaction args =
      in_tx (update_with (value_with update_error) (read_args handles args))

  unfoldable pub multi_get_transaction : List Term → Call
  unfolding multi_args read_options_of value_term
  multi_get_transaction args = in_tx (multi_with (multi_args handles args))

  unfoldable pub multi_get_for_update_transaction : List Term → Call
  unfolding multi_args read_options_of value_with
  multi_get_for_update_transaction args =
      in_tx (multi_update_with update_error (multi_args handles args))

  unfoldable pub del_transaction : List Term → Call
  unfolding key_args done_with
  del_transaction args = in_tx (delete_with plain_error (key_args handles args))

  unfoldable pub commit_transaction : Call
  unfolding done_with
  commit_transaction = in_tx (λ w. finished plain_error (lib.commit w))

  unfoldable pub rollback_transaction : Call
  unfolding done_with
  rollback_transaction = in_tx (λ w. finished plain_error (lib.rollback w))

  -- The request to close, and the destructor that it leads to with no call under way.
  unfoldable pub release_transaction : Call
  release_transaction s =
      if s.is_open
      then (
        returned (atom (named atom_ok)),
        record { is_open = false; world = lib.destroy s.world },
      )
      else (returned (atom (named atom_ok)), s)

  unfoldable pub new_transaction : Term → W → Session W
  unfolding fold parse_write_option
  new_transaction opts w = record {
    is_open = true;
    world = lib.begin_optimistic (fold parse_write_option opts lib.write_options).1 w;
  }
