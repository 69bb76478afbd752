-- ===== src/WriteBatch/Writes.antt =====
-- The functions that write to a batch answer as its log does.
use erlang_rocksdb.Prelude.{ℕ, ◌≡◌, refl, ◌∙◌, ap, Option, none, some, List, [], ◌∷◌, ◌++◌}
use erlang_rocksdb.Term.{Term}
use erlang_rocksdb.WriteBatch.{
  Record, Library, Handles, Batch, Reply, atom_ok, badarg, add, add_or_badarg, put_batch,
  merge_batch, delete_batch, single_delete_batch, delete_range_batch,
}
use erlang_rocksdb.WriteBatch.Spec.{
  IsWriteBatch, Request, puts, merges, deletes, single_deletes, delete_ranges, serve, Log,
  write_answer, answer,
}

module _ {W : Type 0} (lib : Library W) (saved : W → List (List Record)) (size : List Record → ℕ)
    (law : IsWriteBatch lib saved size) where
  -- The batch is there, and holds what the log says.
  pub record Matches (b : Batch W) (log : Log) : Type 0 where
    pub w : W
    pub copies : List Term
    pub is_w : b.wb ≡ some w
    pub is_env : b.env ≡ some copies
    pub written : lib.records w ≡ log.written
    pub saves : saved w ≡ log.saves

  -- A call that answers as the log does, and leaves a batch that matches the log's.
  pub record Agrees (r : Reply × Batch W) (s : Reply × Log) : Type 0 where
    pub reply : r.0 ≡ s.0
    pub after : Matches r.1 s.1

  add-Agrees :
      (r : Record) (copies : List Term) (b : Batch W) (log : Log)
      → Matches b log
      → Agrees (add lib r copies b) (atom_ok, record log { written = log.written ++ r ∷ [] })
  unfolding add
  add-Agrees r copies b log m =
      rw (m.is_env, m.is_w)
        (record {
          reply = refl;
          after = record {
            w = lib.write r m.w;
            copies = m.copies ++ copies;
            is_w = refl;
            is_env = refl;
            written = law.write_records r m.w ∙ ap (λ l. l ++ r ∷ []) m.written;
            saves = law.write_saved r m.w ∙ m.saves;
          };
        })

  module _ (handles : Handles) where
    asked-Agrees :
        (copies : List Term) (o : Option Record) (b : Batch W) (log : Log)
        → Matches b log
        → Agrees (add_or_badarg lib copies o b) (write_answer handles o log)
    asked-Agrees copies none b log m = record { reply = refl; after = m }
    asked-Agrees copies (some r) b log m = add-Agrees r copies b log m

    pub refused : (b : Batch W) (log : Log) → Matches b log → Agrees (badarg, b) (badarg, log)
    refused b log m = record { reply = refl; after = m }

    abbrev pub Same : Request → Type 0
    Same q =
        (b : Batch W) (log : Log)
        → Matches b log
        → Agrees (serve lib handles q b) (answer handles lib.write_options size q log)

    pub put-Agrees : (args : List Term) → Same (puts args)
    unfolding put_batch
    put-Agrees [] b log m = refused b log m
    put-Agrees (k ∷ []) b log m = refused b log m
    put-Agrees (k ∷ v ∷ []) b log m = asked-Agrees _ _ b log m
    put-Agrees (cf ∷ k ∷ v ∷ rest) b log m = asked-Agrees _ _ b log m

    pub merge-Agrees : (args : List Term) → Same (merges args)
    unfolding merge_batch
    merge-Agrees [] b log m = refused b log m
    merge-Agrees (k ∷ []) b log m = refused b log m
    merge-Agrees (k ∷ v ∷ []) b log m = asked-Agrees _ _ b log m
    merge-Agrees (cf ∷ k ∷ v ∷ rest) b log m = asked-Agrees _ _ b log m

    pub delete_range-Agrees : (args : List Term) → Same (delete_ranges args)
    unfolding delete_range_batch
    delete_range-Agrees [] b log m = refused b log m
    delete_range-Agrees (k ∷ []) b log m = refused b log m
    delete_range-Agrees (k ∷ v ∷ []) b log m = asked-Agrees _ _ b log m
    delete_range-Agrees (cf ∷ k ∷ v ∷ rest) b log m = asked-Agrees _ _ b log m

    pub delete-Agrees : (args : List Term) → Same (deletes args)
    unfolding delete_batch
    delete-Agrees [] b log m = refused b log m
    delete-Agrees (k ∷ []) b log m = asked-Agrees _ _ b log m
    delete-Agrees (cf ∷ k ∷ rest) b log m = asked-Agrees _ _ b log m

    pub single_delete-Agrees : (args : List Term) → Same (single_deletes args)
    unfolding single_delete_batch
    single_delete-Agrees [] b log m = refused b log m
    single_delete-Agrees (k ∷ []) b log m = asked-Agrees _ _ b log m
    single_delete-Agrees (cf ∷ k ∷ rest) b log m = asked-Agrees _ _ b log m
