-- ===== src/Transaction/Answers.antt =====
-- Calls on a transaction, what its client knows after their replies, and what a reply may be.
use erlang_rocksdb.Prelude.{ℕ, ◌≡◌, ◌⊎◌, Bool, true, false, Option, none, some, List, [], ◌∷◌, map}
use erlang_rocksdb.Bytes.{Bytes}
use erlang_rocksdb.Term.{Term, atom, binary, named, atom_ok, atom_error, atom_not_found, make_list}
use erlang_rocksdb.WriteBatch.{Handles}
use erlang_rocksdb.Calls.{Reply, badarg, returned, tuple2}
use erlang_rocksdb.Calls.Options.{k_read_all_tier}
use erlang_rocksdb.Transaction.{
  Library, Session, pair_args, key_args, read_args, multi_args, read_options_of, put_transaction,
  get_transaction, get_for_update_transaction, multi_get_transaction,
  multi_get_for_update_transaction, del_transaction, commit_transaction, rollback_transaction,
  release_transaction,
}
use erlang_rocksdb.Transaction.Pessimistic.{
  pessimistic_transaction_put, pessimistic_transaction_get, pessimistic_transaction_get_for_update,
  pessimistic_transaction_multi_get, pessimistic_transaction_multi_get_for_update,
  pessimistic_transaction_delete, pessimistic_transaction_commit, pessimistic_transaction_rollback,
  pessimistic_transaction_set_savepoint, pessimistic_transaction_rollback_to_savepoint,
  pessimistic_transaction_pop_savepoint, release_pessimistic_transaction,
}
use erlang_rocksdb.Transaction.Spec.{
  Write, Log, visible, add, committed, discarded, saved, back_to, popped, stored_by_others, when,
}

pub data Api : Type 0 where
  optimistic pessimistic : Api

-- A call with the arguments after the transaction, or a commit of other clients.
pub data Request : Type 0 where
  puts deletes gets gets_for_update multi_gets multi_gets_for_update : Api → List Term → Request
  commits rolls_back releases : Api → Request
  sets_savepoint rolls_back_to pops : Request
  others_commit : List Write → Request

module _ {W : Type 0} (lib : Library W) (others : List Write → W → W) (handles : Handles)
    (get_snapshot : Term → Option ℕ) where
  abbrev pub serve : Request → Session W → Reply × Session W
  serve (puts optimistic args) = put_transaction lib handles get_snapshot args
  serve (puts pessimistic args) = pessimistic_transaction_put lib handles get_snapshot args
  serve (deletes optimistic args) = del_transaction lib handles get_snapshot args
  serve (deletes pessimistic args) = pessimistic_transaction_delete lib handles get_snapshot args
  serve (gets optimistic args) = get_transaction lib handles get_snapshot args
  serve (gets pessimistic args) = pessimistic_transaction_get lib handles get_snapshot args
  serve (gets_for_update optimistic args) = get_for_update_transaction lib handles get_snapshot args
  serve (gets_for_update pessimistic args) =
      pessimistic_transaction_get_for_update lib handles get_snapshot args
  serve (multi_gets optimistic args) = multi_get_transaction lib handles get_snapshot args
  serve (multi_gets pessimistic args) =
      pessimistic_transaction_multi_get lib handles get_snapshot args
  serve (multi_gets_for_update optimistic args) =
      multi_get_for_update_transaction lib handles get_snapshot args
  serve (multi_gets_for_update pessimistic args) =
      pessimistic_transaction_multi_get_for_update lib handles get_snapshot args
  serve (commits optimistic) = commit_transaction lib handles get_snapshot
  serve (commits pessimistic) = pessimistic_transaction_commit lib handles get_snapshot
  serve (rolls_back optimistic) = rollback_transaction lib handles get_snapshot
  serve (rolls_back pessimistic) = pessimistic_transaction_rollback lib handles get_snapshot
  serve (releases optimistic) = release_transaction lib handles get_snapshot
  serve (releases pessimistic) = release_pessimistic_transaction lib handles get_snapshot
  serve sets_savepoint = pessimistic_transaction_set_savepoint lib handles get_snapshot
  serve rolls_back_to = pessimistic_transaction_rollback_to_savepoint lib handles get_snapshot
  serve pops = pessimistic_transaction_pop_savepoint lib handles get_snapshot
  serve (others_commit ws) =
      λ s. (returned (atom (named atom_ok)), record s { world = others ws s.world })

-- The reply is `ok`.
abbrev pub is_done : Reply → Bool
is_done (returned (atom (named atom_ok))) = true
is_done _ = false

-- What the client knows: whether it has released the transaction, and what was answered with `ok`.
pub record Known : Type 0 where
  pub is_open : Bool
  pub log : Log

abbrev pub put_in : Option (ℕ × (Bytes × Bytes)) → Log → Log
put_in none log = log
put_in (some (c, (k, v))) log = add (record { column_family = c; key = k; value = some v }) log

abbrev pub delete_in : Option (ℕ × Bytes) → Log → Log
delete_in none log = log
delete_in (some (c, k)) log = add (record { column_family = c; key = k; value = none }) log

abbrev pub effect : Handles → Request → Log → Log
effect handles (puts api args) log = put_in (pair_args handles args) log
effect handles (deletes api args) log = delete_in (key_args handles args) log
effect handles (commits api) log = committed log
effect handles (rolls_back api) log = discarded log
effect handles sets_savepoint log = saved log
effect handles rolls_back_to log = back_to log.saves log
effect handles pops log = popped log.saves log
effect handles (others_commit ws) log = stored_by_others ws log
effect handles _ log = log

abbrev pub still_open : Request → Bool → Bool
still_open (releases api) b = false
still_open _ b = b

abbrev pub next : Handles → Request → Reply → Known → Known
next handles q reply known = record {
  is_open = still_open q known.is_open;
  log = when (is_done reply) (effect handles q) known.log;
}

abbrev pub is_commit : Request → Bool
is_commit (commits api) = true
is_commit _ = false

-- After a commit that has failed the writes may also be gone.
abbrev pub CommitFailed : Request → Reply → Type 0
CommitFailed (commits api) reply = is_done reply ≡ false
CommitFailed q reply = ⊥

abbrev pub emptied : Known → Known
emptied known = record known { log = discarded known.log }

abbrev pub IsError : Term → Type 0
IsError t = (reason : Term) × (t ≡ tuple2 (atom (named atom_error)) reason)

-- Of a key with that value or none: `{ok, Value}`, `not_found`, or an error.
abbrev pub AnswersAs : Option Bytes → Term → Type 0
AnswersAs expected t =
    ((value : Bytes) × (expected ≡ some value) × (t ≡ tuple2 (atom (named atom_ok)) (binary value)))
    ⊎ ((expected ≡ none) × (t ≡ atom (named atom_not_found)))
    ⊎ IsError t

abbrev pub AllAnswerAs : List (Option Bytes) → List Term → Type 0
AllAnswerAs [] [] = Unit
AllAnswerAs (e ∷ es) (t ∷ ts) = AnswersAs e t × AllAnswerAs es ts
AllAnswerAs _ _ = ⊥

-- `badarg` just where the transaction is released or the arguments are refused.
abbrev pub Served : {A : Type 0} → Bool → Option A → (A → Term → Type 0) → Reply → Type 0
Served false args P reply = reply ≡ badarg
Served true none P reply = reply ≡ badarg
Served true (some a) P reply = (t : Term) × (reply ≡ returned t) × P a t

abbrev pub IsOkOrError : {A : Type 0} → A → Term → Type 0
IsOkOrError a t = (t ≡ atom (named atom_ok)) ⊎ IsError t

module _ {W : Type 0} (lib : Library W) (handles : Handles) (get_snapshot : Term → Option ℕ) where
  abbrev pub KeyAnswer : Log → (ℕ × Bytes) × Term → Term → Type 0
  KeyAnswer log ((c, k), opts) =
      AnswersAs (visible log (read_options_of lib handles get_snapshot opts).snapshot c k)

  abbrev pub KeysAnswer : Log → (ℕ × List Bytes) × Term → Term → Type 0
  KeysAnswer log ((c, ks), opts) t =
      (ts : List Term) × (t ≡ make_list ts)
      × AllAnswerAs
          (map (visible log (read_options_of lib handles get_snapshot opts).snapshot c) ks) ts

  abbrev pub Explains : Request → Known → Reply → Type 0
  Explains (puts api args) known = Served known.is_open (pair_args handles args) IsOkOrError
  Explains (deletes api args) known = Served known.is_open (key_args handles args) IsOkOrError
  Explains (gets api args) known =
      Served known.is_open (read_args handles args) (KeyAnswer known.log)
  Explains (gets_for_update api args) known =
      Served known.is_open (read_args handles args) (KeyAnswer known.log)
  Explains (multi_gets api args) known =
      Served known.is_open (multi_args handles args) (KeysAnswer known.log)
  Explains (multi_gets_for_update api args) known =
      Served known.is_open (multi_args handles args) (KeysAnswer known.log)
  Explains (releases api) known = λ reply. reply ≡ returned (atom (named atom_ok))
  Explains (others_commit ws) known = λ reply. reply ≡ returned (atom (named atom_ok))
  Explains _ known = Served known.is_open (some tt) IsOkOrError

  abbrev pub WholeTier : {A : Type 0} → Option (A × Term) → Type 0
  WholeTier none = Unit
  WholeTier (some (a, opts)) =
      (read_options_of lib handles get_snapshot opts).read_tier ≡ k_read_all_tier

  -- The read options leave the tier of reads as `read_all_tier`.
  abbrev pub ReadsAll : Request → Type 0
  ReadsAll (gets api args) = WholeTier (read_args handles args)
  ReadsAll (gets_for_update api args) = WholeTier (read_args handles args)
  ReadsAll (multi_gets api args) = WholeTier (multi_args handles args)
  ReadsAll (multi_gets_for_update api args) = WholeTier (multi_args handles args)
  ReadsAll _ = Unit
