-- ===== src/Examples/TransactionLogs.antt =====
-- Updates of a log at concrete inputs, over a library whose batches are their own bytes.
use erlang_rocksdb.Prelude.{ℕ, ◌≡◌, refl, Bool, true, false, List, [], ◌∷◌, ◌++◌, map}
use erlang_rocksdb.Bytes.{Bytes}
use erlang_rocksdb.Examples.{key_a, key_b}
use erlang_rocksdb.Term.{nil}
use erlang_rocksdb.WriteBatch.{put}
use erlang_rocksdb.Examples.DatabaseCalls.{write_defaults}
use erlang_rocksdb.TransactionLog.{Library, invalid_iterator}
use erlang_rocksdb.TransactionLog.Replication.{
  IsLog, updates, copied, all_written, update_of, updates-pending, copied-pending,
}

abbrev Pending : Type 0
Pending = List (ℕ × Bytes)

abbrev any : Pending → Bool
any [] = false
any (u ∷ us) = true

abbrev front : Pending → ℕ × Bytes
front [] = (0, [])
front (u ∷ us) = u

abbrev others : Pending → Pending
others [] = []
others (u ∷ us) = us

-- A batch puts its bytes under themselves; a database is the list of what was written.
abbrev of_bytes : Library Pending Bytes (List Bytes)
of_bytes = record {
  valid = any;
  status = any;
  sequence = λ i. (front i).0;
  get_batch = λ i. (front i).1;
  next = others;
  records = λ b. put 0 b b ∷ [];
  get_data = λ b. b;
  of_data = λ d. d;
  write_options = write_defaults;
  write = λ o b db. (true, db ++ b ∷ []);
}

of_bytes-IsLog : IsLog of_bytes (λ i. i)
of_bytes-IsLog = record {
  at_end = λ i h. rw h refl;
  at_update = λ i n b rest h. rw h (refl, refl, refl, refl, refl);
  restored = λ b. refl;
}

abbrev two_updates : Pending
two_updates = (7, key_a) ∷ (8, key_b) ∷ []

reads_both :
    updates of_bytes 3 two_updates ≡ map (update_of of_bytes) two_updates ++ invalid_iterator ∷ []
reads_both = updates-pending of_bytes (λ i. i) of_bytes-IsLog two_updates

copied-pending_example :
    copied of_bytes nil 2 two_updates [] ≡ all_written of_bytes nil two_updates []
copied-pending_example = copied-pending of_bytes (λ i. i) of_bytes-IsLog nil two_updates []

copies_both : all_written of_bytes nil two_updates [] ≡ key_a ∷ key_b ∷ []
copies_both = refl
