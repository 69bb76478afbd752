-- ===== src/Transaction/Tracking.antt =====
-- What a plain read of an optimistic transaction leaves behind.
use erlang_rocksdb.Prelude.{ℕ, ◌≡◌, refl, Bool, true, false, Option, none, some, List}
use erlang_rocksdb.Bytes.{Bytes}
use erlang_rocksdb.Term.{Term}
use erlang_rocksdb.WriteBatch.{Handles}
use erlang_rocksdb.Calls.{Status}
use erlang_rocksdb.Transaction.{
  Library, Session, update_error, read_args, value_with, in_tx, update_with, get_transaction,
  get_for_update_transaction,
}
use erlang_rocksdb.Calls.{value_term}

module _ {W : Type 0} (lib : Library W) (handles : Handles) (get_snapshot : Term → Option ℕ) where
  same_session :
      (term term' : Status × Bytes → Term) (args : Option ((ℕ × Bytes) × Term)) (b : Bool) (w : W)
      → (in_tx lib handles get_snapshot
          (update_with lib handles get_snapshot term args)
          (record { is_open = b; world = w })).1
        ≡ (in_tx lib handles get_snapshot
            (update_with lib handles get_snapshot term' args)
            (record { is_open = b; world = w })).1
  same_session term term' args false w = refl
  same_session term term' none true w = refl
  same_session term term' (some ((c, k), opts)) true w = refl

  -- A `transaction_get` leaves the transaction as a `transaction_get_for_update` of the same
  -- arguments does, which tracks the key for conflicts.
  pub get_transaction-get_for_update :
      (args : List Term) (s : Session W)
      → (get_transaction lib handles get_snapshot args s).1
        ≡ (get_for_update_transaction lib handles get_snapshot args s).1
  unfolding get_transaction get_for_update_transaction
  get_transaction-get_for_update args s =
      same_session value_term (value_with update_error) (read_args handles args) s.is_open s.world
