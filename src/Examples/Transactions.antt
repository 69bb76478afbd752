-- ===== src/Examples/Transactions.antt =====
-- A transaction at concrete inputs, over a library that is its own log and takes every write.
use erlang_rocksdb.Prelude.{ℕ, ◌≡◌, refl, true, false, Option, none, some, List, [], ◌∷◌, map}
use erlang_rocksdb.Prelude.Int.{pos}
use erlang_rocksdb.Bytes.{Bytes}
use erlang_rocksdb.Term.{
  Term, atom, int, named, cons, binary, nil, make_list, atom_ok, atom_column_family_id, atom_key,
  atom_waiting_txns,
}
use erlang_rocksdb.Examples.{key_a, key_b}
use erlang_rocksdb.Examples.DatabaseCalls.{
  ok_status, not_found_status, write_defaults, read_defaults, one_family, no_snapshots,
}
use erlang_rocksdb.Calls.{Status, fold, is_ok, tuple2, returned, badarg}
use erlang_rocksdb.Calls.Options.{ReadOptions}
use erlang_rocksdb.Transaction.{Library, Session, read_args, multi_args, read_options_of}
use erlang_rocksdb.Transaction.Pessimistic.{pessimistic_transaction_get_waiting_txns}
use erlang_rocksdb.Transaction.Spec.{
  Write, Log, visible, add, committed, discarded, saved, back_to, popped, stored_by_others, when,
  ReadsAs, AllReadAs, IsTransaction,
}
use erlang_rocksdb.Transaction.Answers.{
  pessimistic, optimistic, Request, puts, deletes, gets, multi_gets, commits, releases,
  sets_savepoint, rolls_back_to, others_commit, Known,
}
use erlang_rocksdb.Transaction.Replies.{AllExplained, serve-AllExplained}

abbrev found : Option Bytes → Status × Bytes
found none = (not_found_status, [])
found (some v) = (ok_status, v)

abbrev read : ReadOptions → ℕ → Bytes → Log → Status × Bytes
read o c k log = found (visible log o.snapshot c k)

abbrev to_save_point : List (List Write) → Log → Status × Log
to_save_point [] log = (not_found_status, log)
to_save_point (ws ∷ rest) log = (ok_status, back_to (ws ∷ rest) log)

abbrev without_save_point : List (List Write) → Log → Status × Log
without_save_point [] log = (not_found_status, log)
without_save_point (ws ∷ rest) log = (ok_status, popped (ws ∷ rest) log)

abbrev in_log : Library Log
in_log = record {
  read_options = read_defaults;
  write_options = write_defaults;
  transaction_options = record {
    set_snapshot = false;
    deadlock_detect = false;
    lock_timeout = pos 0;
  };
  begin_optimistic = λ o log. discarded log;
  begin_pessimistic = λ o t log. discarded log;
  put = λ c k v log. (ok_status, add (record { column_family = c; key = k; value = some v }) log);
  delete_ = λ c k log. (ok_status, add (record { column_family = c; key = k; value = none }) log);
  get = read;
  get_for_update = λ o c k log. (read o c k log, log);
  multi_get = λ o c ks log. map (λ k. read o c k log) ks;
  multi_get_for_update = λ o c ks log. (map (λ k. read o c k log) ks, log);
  commit = λ log. (ok_status, committed log);
  rollback = λ log. (ok_status, discarded log);
  set_save_point = saved;
  rollback_to_save_point = λ log. to_save_point log.saves log;
  pop_save_point = λ log. without_save_point log.saves log;
  destroy = discarded;
  get_id = λ log. 1;
  get_waiting_txns = λ log. (0, key_a, 2 ∷ 3 ∷ []);
}

found-ReadsAs : (e : Option Bytes) → ReadsAs (found e).0.code (found e).1 e
found-ReadsAs none = refl
found-ReadsAs (some v) = refl

read-AllReadAs :
    (o : ReadOptions) (c : ℕ) (ks : List Bytes) (log : Log)
    → AllReadAs (map (λ k. read o c k log) ks) (map (visible log o.snapshot c) ks)
read-AllReadAs o c [] log = tt
read-AllReadAs o c (k ∷ ks) log =
    (found-ReadsAs (visible log o.snapshot c k), read-AllReadAs o c ks log)

to_save_point-view :
    (s : List (List Write)) (log : Log)
    → (to_save_point s log).1 ≡ when (is_ok (to_save_point s log).0) (back_to s) log
to_save_point-view [] log = refl
to_save_point-view (ws ∷ rest) log = refl

without_save_point-view :
    (s : List (List Write)) (log : Log)
    → (without_save_point s log).1 ≡ when (is_ok (without_save_point s log).0) (popped s) log
without_save_point-view [] log = refl
without_save_point-view (ws ∷ rest) log = refl

in_log-IsTransaction : IsTransaction in_log stored_by_others (λ log. log)
in_log-IsTransaction = record {
  put_view = λ c k v w. refl;
  delete_view = λ c k w. refl;
  get_reads = λ o c k w t. found-ReadsAs (visible w o.snapshot c k);
  get_for_update_reads = λ o c k w t. found-ReadsAs (visible w o.snapshot c k);
  get_for_update_view = λ o c k w. refl;
  multi_get_reads = λ o c ks w t. read-AllReadAs o c ks w;
  multi_get_for_update_reads = λ o c ks w t. read-AllReadAs o c ks w;
  multi_get_for_update_view = λ o c ks w. refl;
  commit_view = λ w. refl;
  rollback_view = λ w. refl;
  save_view = λ w. refl;
  rollback_to_view = λ w. to_save_point-view w.saves w;
  pop_view = λ w. without_save_point-view w.saves w;
  others_view = λ ws w. refl;
}

abbrev empty_log : Log
empty_log = record { stored = λ s c k. none; written = []; saves = [] }

abbrev calls : List Request
calls =
    puts pessimistic (binary key_a ∷ binary key_b ∷ [])
    ∷ sets_savepoint
    ∷ others_commit (record { column_family = 0; key = key_b; value = some key_b } ∷ [])
    ∷ deletes pessimistic (binary key_b ∷ [])
    ∷ multi_gets pessimistic (make_list (binary key_a ∷ binary key_b ∷ []) ∷ nil ∷ [])
    ∷ rolls_back_to
    ∷ gets optimistic (binary key_b ∷ nil ∷ [])
    ∷ commits pessimistic
    ∷ releases pessimistic
    ∷ gets pessimistic (binary key_a ∷ nil ∷ [])
    ∷ []

abbrev session : Session Log
session = record { is_open = true; world = empty_log }

abbrev known : Known
known = record { is_open = true; log = empty_log }

-- A map as a list of its pairs.
abbrev pairs : List Term → List Term → Term
pairs (k ∷ ks) (v ∷ vs) = cons (tuple2 k v) (pairs ks vs)
pairs _ _ = nil

waits_for_two :
    pessimistic_transaction_get_waiting_txns in_log one_family no_snapshots pairs session ≡ (
      returned (
          tuple2 (atom (named atom_ok)) (
            make_list (
              tuple2 (atom (named atom_column_family_id)) (int (pos 0))
              ∷ tuple2 (atom (named atom_key)) (binary key_a)
              ∷ tuple2 (atom (named atom_waiting_txns)) (make_list (int (pos 2) ∷ int (pos 3) ∷ []))
              ∷ []))),
      session,
    )
unfolding pessimistic_transaction_get_waiting_txns
waits_for_two = refl

waits_for_none_released :
    (pessimistic_transaction_get_waiting_txns in_log one_family no_snapshots pairs
      (record { is_open = false; world = empty_log })).0
    ≡ badarg
unfolding pessimistic_transaction_get_waiting_txns
waits_for_none_released = refl

serve-AllExplained_example :
    AllExplained in_log stored_by_others
      (λ log. log)
      in_log-IsTransaction
      one_family
      no_snapshots
      calls
      session
      known
unfolding read_args multi_args read_options_of fold
serve-AllExplained_example =
    serve-AllExplained in_log stored_by_others (λ log. log) in_log-IsTransaction one_family
      no_snapshots calls session known
      (tt, (tt, (tt, (tt, (refl, (tt, (refl, (tt, (tt, (refl, tt))))))))))
      (record { is_open = refl; log = λ e. refl })
