-- ===== src/TransactionLog/Replication.antt =====
-- Updates that are read one after the other and written to another database.
use erlang_rocksdb.Prelude.{
  ℕ, zero, suc, ◌≡◌, refl, ◌∙◌, ap, true, false, List, [], ◌∷◌, ◌++◌, map, foldl, length,
}
use erlang_rocksdb.Term.{Term, binary}
use erlang_rocksdb.Calls.{fold}
use erlang_rocksdb.Calls.Options.{parse_write_option}
use erlang_rocksdb.Prelude.Int.{ℤ}
use erlang_rocksdb.WriteBatch.Spec.{listed}
use erlang_rocksdb.WriteBatch.Listing.{iterate-listed}
use erlang_rocksdb.TransactionLog.{
  Library, Reply, update, binary_update, invalid_iterator, to_int64, transaction_log_next_update,
  transaction_log_next_binary_update, write_binary_update, write_options_of,
}

-- What the library documents: `pending` are the updates that the iterator has before it, with
-- their sequence numbers.
pub record IsLog {I B D : Type 0} (lib : Library I B D) (pending : I → List (ℕ × B)) : Type 0 where
  pub at_end : (i : I) → pending i ≡ [] → lib.valid i ≡ false
  pub at_update :
      (i : I) (n : ℕ) (b : B) (rest : List (ℕ × B))
      → pending i ≡ (n, b) ∷ rest
      → (lib.valid i ≡ true)
        × (lib.status i ≡ true)
        × (lib.sequence i ≡ n)
        × (lib.get_batch i ≡ b)
        × (pending (lib.next i) ≡ rest)
  pub restored : (b : B) → lib.of_data (lib.get_data b) ≡ b

module _ {I B D : Type 0} (lib : Library I B D) where
  -- Calls of `next_update` in turn.
  abbrev pub updates : ℕ → I → List Reply
  updates zero i = []
  updates (suc n) i =
      (transaction_log_next_update lib i).0 ∷ updates n (transaction_log_next_update lib i).1

  -- What a reply of `next_binary_update` brings is written to the database.
  abbrev pub apply_reply : Term → Reply → D → D
  apply_reply options (binary_update n b) db =
      (write_binary_update lib true (binary b) options db).1
  apply_reply options _ db = db

  -- Calls of `next_binary_update` in turn, with their updates written to another database.
  abbrev pub copied : Term → ℕ → I → D → D
  copied options zero i db = db
  copied options (suc n) i db =
      copied options n (transaction_log_next_binary_update lib i).1
        (apply_reply options (transaction_log_next_binary_update lib i).0 db)

  -- The batches written in turn, with what the options say over the defaults.
  abbrev pub all_written : Term → List (ℕ × B) → D → D
  all_written options us db =
      foldl (λ d u. (lib.write (fold parse_write_option options lib.write_options).1 u.1 d).1) db us

  abbrev pub update_of : ℕ × B → Reply
  update_of u = update (to_int64 u.0) (listed (lib.records u.1)) (lib.get_data u.1)

  module _ (pending : I → List (ℕ × B)) (law : IsLog lib pending) where
    updates_of :
        (us : List (ℕ × B)) (i : I)
        → pending i ≡ us
        → updates (suc (length us)) i ≡ map update_of us ++ invalid_iterator ∷ []
    unfolding transaction_log_next_update
    updates_of [] i h = rw (law.at_end i h) refl
    updates_of ((n, b) ∷ us) i h =
        let (v, s, q, g, r) = law.at_update i n b us h in
        rw (v, s, q, g, iterate-listed (lib.records b) [])
          (ap (◌∷◌ (update_of (n, b))) (updates_of us (lib.next i) r))

    -- Calls of `next_update` answer the updates before the iterator, each once and in order, with
    -- their rows up to the first deletion of a range, and then that the iterator is not valid.
    pub updates-pending :
        (i : I)
        → updates (suc (length (pending i))) i ≡ map update_of (pending i) ++ invalid_iterator ∷ []
    updates-pending i = updates_of (pending i) i refl

    binary_at :
        (i : I) (n : ℕ) (b : B) (us : List (ℕ × B))
        → pending i ≡ (n, b) ∷ us
        → transaction_log_next_binary_update lib i
          ≡ (binary_update (to_int64 n) (lib.get_data b), lib.next i)
    unfolding transaction_log_next_binary_update
    binary_at i n b us h = let (v, s, q, g, r) = law.at_update i n b us h in rw (v, s, q, g) refl

    applied :
        (options : Term) (m : ℤ) (b : B) (db : D)
        → apply_reply options (binary_update m (lib.get_data b)) db
          ≡ (lib.write (fold parse_write_option options lib.write_options).1 b db).1
    unfolding write_binary_update write_options_of
    applied options m b db =
        ap (λ x. (lib.write (fold parse_write_option options lib.write_options).1 x db).1)
          (law.restored b)

    copied_of :
        (options : Term) (us : List (ℕ × B)) (i : I) (db : D)
        → pending i ≡ us
        → copied options (length us) i db ≡ all_written options us db
    copied_of options [] i db h = refl
    copied_of options ((n, b) ∷ us) i db h =
        ap (λ x. copied options (length us) x.1 (apply_reply options x.0 db)) (binary_at i n b us h)
        ∙ (ap (copied options (length us) (lib.next i)) (applied options (to_int64 n) b db)
            ∙ copied_of options us (lib.next i) _ (law.at_update i n b us h).4)

    -- Calls of `next_binary_update`, each of whose updates `write_binary_update` gives to a database,
    -- write the batches before the iterator to it, in order, each with the write options that the
    -- list of options asks for, where the library keeps its documented behaviour.
    pub copied-pending :
        (options : Term) (i : I) (db : D)
        → copied options (length (pending i)) i db ≡ all_written options (pending i) db
    copied-pending options i db = copied_of options (pending i) i db refl
