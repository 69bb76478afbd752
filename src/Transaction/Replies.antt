-- ===== src/Transaction/Replies.antt =====
-- Runs of calls on a transaction, with what other clients commit between them.
use erlang_rocksdb.Prelude.{
  ℕ, ◌≡◌, refl, sym, ap, ◌∙◌, subst, ◌⊎◌, inl, inr, Bool, true, false, Option, some, List, [], ◌∷◌,
  All,
}
use erlang_rocksdb.Term.{Term, Name, atom, named, atom_ok}
use erlang_rocksdb.WriteBatch.{Handles}
use erlang_rocksdb.Calls.{Code, Reply, is_ok, returned, value_term}
use erlang_rocksdb.Transaction.{
  Library, Session, in_tx, finished, value_with, plain_error, update_error, pair_args, key_args,
  read_args, multi_args, put_transaction, get_transaction, get_for_update_transaction,
  multi_get_transaction, multi_get_for_update_transaction, del_transaction, commit_transaction,
  rollback_transaction, release_transaction,
}
use erlang_rocksdb.Transaction.Pessimistic.{
  lock_error, commit_error, get_error, multi_get_error, pessimistic_transaction_put,
  pessimistic_transaction_get, pessimistic_transaction_get_for_update,
  pessimistic_transaction_multi_get, pessimistic_transaction_multi_get_for_update,
  pessimistic_transaction_delete, pessimistic_transaction_commit, pessimistic_transaction_rollback,
  pessimistic_transaction_set_savepoint, pessimistic_transaction_rollback_to_savepoint,
  pessimistic_transaction_pop_savepoint, release_pessimistic_transaction,
}
use erlang_rocksdb.Transaction.Spec.{
  Write, Log, AfterCommit, committed, discarded, saved, back_to, popped, stored_by_others,
  IsTransaction,
}
use erlang_rocksdb.Transaction.Answers.{
  Api, optimistic, pessimistic, Request, puts, deletes, gets, gets_for_update, multi_gets,
  multi_gets_for_update, commits, rolls_back, releases, sets_savepoint, rolls_back_to, pops,
  others_commit, serve, is_done, is_commit, CommitFailed, Known, emptied, next, Served, IsOkOrError,
  Explains, ReadsAll,
}
use erlang_rocksdb.Transaction.Terms.{
  done_with-IsOkOrError, is_done-done_with, value_term-AnswersAs, value_with-AnswersAs,
}
use erlang_rocksdb.Transaction.Methods.{
  Matches, in_tx-Good, put_served, delete_served, update_served, get_served, multi_served,
  multi_update_served, finished_served, savepoint_served,
}

module _ {W : Type 0} (lib : Library W) (others : List Write → W → W) (view : W → Log)
    (law : IsTransaction lib others view) (handles : Handles) (get_snapshot : Term → Option ℕ) where
  abbrev Kept : Request → Session W → Known → Type 0
  Kept q s known =
      Explains lib handles get_snapshot q known (serve lib others handles get_snapshot q s).0
      × Matches lib others view law handles get_snapshot
          (serve lib others handles get_snapshot q s).1
          (next handles q (serve lib others handles get_snapshot q s).0 known)

  release_served :
      (api : Api) (b : Bool) (w : W) (log : Log)
      → Kept (releases api) (record { is_open = b; world = w }) (record { is_open = b; log = log })
  unfolding release_transaction release_pessimistic_transaction
  release_served optimistic true w log = (refl, record { is_open = refl; log = λ e. cc })
  release_served optimistic false w log = (refl, record { is_open = refl; log = λ e. cc })
  release_served pessimistic true w log = (refl, record { is_open = refl; log = λ e. cc })
  release_served pessimistic false w log = (refl, record { is_open = refl; log = λ e. cc })

  -- The session by whether it is open.
  served :
      (q : Request)
      → is_commit q ≡ false
      → ReadsAll lib handles get_snapshot q
      → (b : Bool) (w : W) (log : Log) → (b ≡ true → view w ≡ log)
      → Kept q (record { is_open = b; world = w }) (record { is_open = b; log = log })
  unfolding put_transaction get_transaction get_for_update_transaction multi_get_transaction
      multi_get_for_update_transaction del_transaction commit_transaction rollback_transaction
      release_transaction pessimistic_transaction_put pessimistic_transaction_get
      pessimistic_transaction_get_for_update pessimistic_transaction_multi_get
      pessimistic_transaction_multi_get_for_update pessimistic_transaction_delete
      pessimistic_transaction_commit pessimistic_transaction_rollback
      pessimistic_transaction_set_savepoint pessimistic_transaction_rollback_to_savepoint
      pessimistic_transaction_pop_savepoint release_pessimistic_transaction
  served (puts optimistic args) q r =
      put_served lib others view law handles get_snapshot plain_error (pair_args handles args)
  served (puts pessimistic args) q r =
      put_served lib others view law handles get_snapshot lock_error (pair_args handles args)
  served (deletes optimistic args) q r =
      delete_served lib others view law handles get_snapshot plain_error (key_args handles args)
  served (deletes pessimistic args) q r =
      delete_served lib others view law handles get_snapshot lock_error (key_args handles args)
  served (gets optimistic args) q r =
      update_served lib others view law handles get_snapshot value_term value_term-AnswersAs
        (read_args handles args) r
  served (gets pessimistic args) q r =
      get_served lib others view law handles get_snapshot (read_args handles args) r
  served (gets_for_update optimistic args) q r =
      update_served lib others view law handles get_snapshot (value_with update_error)
        (value_with-AnswersAs update_error) (read_args handles args) r
  served (gets_for_update pessimistic args) q r =
      update_served lib others view law handles get_snapshot (value_with get_error)
        (value_with-AnswersAs get_error) (read_args handles args) r
  served (multi_gets optimistic args) q r =
      multi_served lib others view law handles get_snapshot (multi_args handles args) r
  served (multi_gets pessimistic args) q r =
      multi_served lib others view law handles get_snapshot (multi_args handles args) r
  served (multi_gets_for_update optimistic args) q r =
      multi_update_served lib others view law handles get_snapshot update_error
        (multi_args handles args) r
  served (multi_gets_for_update pessimistic args) q r =
      multi_update_served lib others view law handles get_snapshot multi_get_error
        (multi_args handles args) r
  served (commits api) q r = cc
  served (rolls_back optimistic) q r =
      finished_served lib others view law handles get_snapshot plain_error lib.rollback discarded
        law.rollback_view
  served (rolls_back pessimistic) q r =
      finished_served lib others view law handles get_snapshot plain_error lib.rollback discarded
        law.rollback_view
  served sets_savepoint q r =
      in_tx-Good lib others view law handles get_snapshot (some tt) (λ log. IsOkOrError) saved
        (λ w. (returned (atom (named atom_ok)), lib.set_save_point w))
        (λ w. ((_, refl, inl refl), law.save_view w))
  served rolls_back_to q r =
      savepoint_served lib others view law handles get_snapshot lib.rollback_to_save_point
        (λ l. back_to l.saves l) law.rollback_to_view
  served pops q r =
      savepoint_served lib others view law handles get_snapshot lib.pop_save_point
        (λ l. popped l.saves l) law.pop_view
  served (releases api) q r = λ b w log h. release_served api b w log
  served (others_commit ws) q r = λ b w log h. (
    refl,
    record { is_open = refl; log = λ e. law.others_view ws w ∙ ap (stored_by_others ws) (h e) },
  )

  -- What a call leaves: what its client then knows, or a commit failed and the writes are gone.
  abbrev pub After : Request → Reply → Session W → Known → Type 0
  After q reply s known =
      Matches lib others view law handles get_snapshot s (next handles q reply known)
      ⊎ (CommitFailed q reply
          × Matches lib others view law handles get_snapshot s
              (emptied (next handles q reply known)))

  abbrev Outcome : Request → Session W → Known → Type 0
  Outcome q s known =
      Explains lib handles get_snapshot q known (serve lib others handles get_snapshot q s).0
      × After q (serve lib others handles get_snapshot q s).0
          (serve lib others handles get_snapshot q s).1 known

  commit-Served :
      (name : Code → Name) (api : Api) (b : Bool) (w : W) (log : Log)
      → (b ≡ true → view w ≡ log)
      → let r =
          in_tx lib handles get_snapshot
            (λ x. finished lib handles get_snapshot name (lib.commit x))
            (record { is_open = b; world = w }) in
        Served {A = Unit} b (some tt) IsOkOrError r.0
        × After (commits api) r.0 r.1 (record { is_open = b; log = log })
  commit-Served name api false w log h = (refl, inl (record { is_open = refl; log = λ e. cc }))
  commit-Served name api true w log h = (
    (_, refl, done_with-IsOkOrError name (lib.commit w).0.code (lib.commit w).0.to_string),
    by_status (is_ok (lib.commit w).0)
        (is_done-done_with name (lib.commit w).0.code (lib.commit w).0.to_string)
        (law.commit_view w),
  )
    where
      reply : Reply
      reply = (finished lib handles get_snapshot name (lib.commit w)).0

      s' : Session W
      s' = record { is_open = true; world = (lib.commit w).1 }

      by_status :
          (d : Bool)
          → is_done reply ≡ d
          → AfterCommit d (view w) (view (lib.commit w).1)
          → After (commits api) reply s' (record { is_open = true; log = log })
      by_status true e a =
          inl (record { is_open = refl; log = λ t. rw e (a ∙ ap committed (h refl)) })
      by_status false e (inl a) = inl (record { is_open = refl; log = λ t. rw e (a ∙ h refl) })
      by_status false e (inr a) =
          inr (e, record { is_open = refl; log = λ t. rw e (a ∙ ap discarded (h refl)) })

  outcome :
      (q : Request)
      → ReadsAll lib handles get_snapshot q
      → (b : Bool) (w : W) (log : Log) → (b ≡ true → view w ≡ log)
      → Outcome q (record { is_open = b; world = w }) (record { is_open = b; log = log })
  unfolding commit_transaction pessimistic_transaction_commit
  outcome (commits optimistic) r = commit-Served plain_error optimistic
  outcome (commits pessimistic) r = commit-Served commit_error pessimistic
  outcome q r = λ b w log h. let k = served q refl r b w log h in (k.0, inl k.1)

  -- Each call answers by what the client knows, who knows as much after it.
  step :
      (q : Request) (s : Session W) (known : Known)
      → ReadsAll lib handles get_snapshot q
      → Matches lib others view law handles get_snapshot s known
      → Outcome q s known
  step q s known r m =
      subst (λ b. Outcome q (record { is_open = b; world = s.world }) known) (sym m.is_open)
        (outcome q r known.is_open s.world known.log m.log)

  -- Calls in turn, each with what the client knows of the replies before it. After a commit that
  -- failed the client knows that the writes are all there or all gone, not which.
  abbrev pub AllExplained : List Request → Session W → Known → Type 0
  AllExplained [] s known = Unit
  AllExplained (q ∷ qs) s known =
      let r = serve lib others handles get_snapshot q s in
      Explains lib handles get_snapshot q known r.0
      × (AllExplained qs r.1 (next handles q r.0 known)
          ⊎ (CommitFailed q r.0 × AllExplained qs r.1 (emptied (next handles q r.0 known))))

  -- If transactions behave as the storage library documents, where a failed commit keeps or clears
  -- the writes, then in any sequence of calls on a transaction and of commits by other clients, where
  -- the options of reads keep `read_all_tier` and the client knows what the transaction holds at
  -- first, each reply is as the replies before it say: `badarg` for a released transaction and for
  -- refused arguments only; for a read the value that the client has written since with the reply
  -- `ok` and not rolled back, else the committed one or that of the snapshot, or an error; `ok` or an
  -- error for every other call. From a failed commit on, the replies are so with all of the writes
  -- before it, or with none of them.
  pub serve-AllExplained :
      (qs : List Request) (s : Session W) (known : Known)
      → All (ReadsAll lib handles get_snapshot) qs
      → Matches lib others view law handles get_snapshot s known
      → AllExplained qs s known
  serve-AllExplained [] s known r m = tt
  serve-AllExplained (q ∷ qs) s known r m = elim (step q s known r.0 m).1 [
    | inl kept ↦ ((step q s known r.0 m).0, inl (serve-AllExplained qs _ _ r.1 kept))
    | inr (failed, gone) ↦
        ((step q s known r.0 m).0, inr (failed, serve-AllExplained qs _ _ r.1 gone))
  ]
