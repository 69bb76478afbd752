-- ===== src/Transaction/Methods.antt =====
-- The methods of a transaction behind `enif_get_transaction`: a session against what its client
-- knows.
use erlang_rocksdb.Prelude.{
  ℕ, ◌≡◌, refl, sym, ap, ◌∙◌, subst, Bool, true, false, Option, some, List,
}
use erlang_rocksdb.Bytes.{Bytes}
use erlang_rocksdb.Term.{Term, Name}
use erlang_rocksdb.WriteBatch.{Handles}
use erlang_rocksdb.Calls.{Code, Status, Reply, returned, is_ok}
use erlang_rocksdb.Transaction.{
  Library, Session, in_tx, put_with, delete_with, get_with, update_with, multi_with,
  multi_update_with, finished,
}
use erlang_rocksdb.Transaction.Pessimistic.{savepoint_term}
use erlang_rocksdb.Transaction.Spec.{Write, Log, when, IsTransaction}
use erlang_rocksdb.Transaction.Answers.{
  is_done, Known, Served, IsOkOrError, put_in, delete_in, KeyAnswer, KeysAnswer, WholeTier,
}
use erlang_rocksdb.Transaction.Terms.{Answering, savepoint-IsOkOrError, is_done-savepoint}
use erlang_rocksdb.Transaction.Steps.{
  Good, finished-Good, put-Good, delete-Good, get-Good, update-Good, multi-Good, multi_update-Good,
}

module _ {W : Type 0} (lib : Library W) (others : List Write → W → W) (view : W → Log)
    (law : IsTransaction lib others view) (handles : Handles) (get_snapshot : Term → Option ℕ) where
  -- The client knows whether the transaction is open, and its log while it is.
  pub record Matches (s : Session W) (known : Known) : Type 0 where
    pub is_open : s.is_open ≡ known.is_open
    pub log : known.is_open ≡ true → view s.world ≡ known.log

  -- A method behind `enif_get_transaction`.
  pub in_tx-Good :
      {A : Type 0} (args : Option A) (P : Log → A → Term → Type 0) (eff : Log → Log)
      (f : W → Reply × W)
      → Good lib others view law handles get_snapshot args P eff f
      → (b : Bool) (w : W) (log : Log) → (b ≡ true → view w ≡ log)
      → Served b args
          (P log)
          (in_tx lib handles get_snapshot f (record { is_open = b; world = w })).0
        × Matches (in_tx lib handles get_snapshot f (record { is_open = b; world = w })).1 (record {
          is_open = b;
          log =
              when
                (is_done (in_tx lib handles get_snapshot f (record { is_open = b; world = w })).0)
                eff
                log;
        })
  in_tx-Good args P eff f good false w log h = (refl, record { is_open = refl; log = λ e. cc })
  in_tx-Good args P eff f good true w log h =
      subst
        (λ l.
          Served true args (P l) (f w).0
          × Matches (record { is_open = true; world = (f w).1 })
              (record { is_open = true; log = when (is_done (f w).0) eff l }))
        (h refl) ((good w).0, record { is_open = refl; log = λ e. (good w).1 })

  savepoint-Good :
      (call : W → Status × W) (eff : Log → Log)
      → ((w : W) → view (call w).1 ≡ when (is_ok (call w).0) eff (view w))
      → Good lib others view law handles get_snapshot {A = Unit}
          (some tt)
          (λ log. IsOkOrError)
          eff
          (λ w. (returned (savepoint_term (call w).0), (call w).1))
  savepoint-Good call eff h w = (
    (_, refl, savepoint-IsOkOrError (call w).0.code (call w).0.to_string),
    h w
        ∙ ap (λ b. when b eff (view w))
            (sym (is_done-savepoint (call w).0.code (call w).0.to_string)),
  )

  -- What `in_tx-Good` gives for a method.
  abbrev pub InTx :
      {A : Type 0} → Option A → (Log → A → Term → Type 0) → (Log → Log) → (W → Reply × W) → Type 0
  InTx args P eff f =
      (b : Bool) (w : W) (log : Log)
      → (b ≡ true → view w ≡ log)
      → Served b args (P log)
          (in_tx lib handles get_snapshot f (record { is_open = b; world = w })).0
        × Matches (in_tx lib handles get_snapshot f (record { is_open = b; world = w })).1 (record {
          is_open = b;
          log =
              when
                (is_done (in_tx lib handles get_snapshot f (record { is_open = b; world = w })).0)
                eff log;
        })

  pub put_served :
      (name : Code → Name) (args : Option (ℕ × (Bytes × Bytes)))
      → InTx args (λ log. IsOkOrError) (put_in args) (put_with lib handles get_snapshot name args)
  put_served name args =
      in_tx-Good args (λ log. IsOkOrError) (put_in args)
        (put_with lib handles get_snapshot name args)
        (put-Good lib others view law handles get_snapshot name args)

  pub delete_served :
      (name : Code → Name) (args : Option (ℕ × Bytes))
      → InTx args
          (λ log. IsOkOrError)
          (delete_in args)
          (delete_with lib handles get_snapshot name args)
  delete_served name args =
      in_tx-Good args (λ log. IsOkOrError) (delete_in args)
        (delete_with lib handles get_snapshot name args)
        (delete-Good lib others view law handles get_snapshot name args)

  pub update_served :
      (term : Status × Bytes → Term) (f : Answering term) (args : Option ((ℕ × Bytes) × Term))
      (h : WholeTier lib handles get_snapshot args)
      → InTx args
          (KeyAnswer lib handles get_snapshot)
          (λ l. l)
          (update_with lib handles get_snapshot term args)
  update_served term f args h =
      in_tx-Good args (KeyAnswer lib handles get_snapshot) (λ l. l)
        (update_with lib handles get_snapshot term args)
        (update-Good lib others view law handles get_snapshot term f args h)

  pub get_served :
      (args : Option ((ℕ × Bytes) × Term)) (h : WholeTier lib handles get_snapshot args)
      → InTx args
          (KeyAnswer lib handles get_snapshot)
          (λ l. l)
          (get_with lib handles get_snapshot args)
  get_served args h =
      in_tx-Good args (KeyAnswer lib handles get_snapshot) (λ l. l)
        (get_with lib handles get_snapshot args)
        (get-Good lib others view law handles get_snapshot args h)

  pub multi_served :
      (args : Option ((ℕ × List Bytes) × Term)) (h : WholeTier lib handles get_snapshot args)
      → InTx args
          (KeysAnswer lib handles get_snapshot)
          (λ l. l)
          (multi_with lib handles get_snapshot args)
  multi_served args h =
      in_tx-Good args (KeysAnswer lib handles get_snapshot) (λ l. l)
        (multi_with lib handles get_snapshot args)
        (multi-Good lib others view law handles get_snapshot args h)

  pub multi_update_served :
      (name : Code → Name) (args : Option ((ℕ × List Bytes) × Term))
      (h : WholeTier lib handles get_snapshot args)
      → InTx args
          (KeysAnswer lib handles get_snapshot)
          (λ l. l)
          (multi_update_with lib handles get_snapshot name args)
  multi_update_served name args h =
      in_tx-Good args (KeysAnswer lib handles get_snapshot) (λ l. l)
        (multi_update_with lib handles get_snapshot name args)
        (multi_update-Good lib others view law handles get_snapshot name args h)

  pub finished_served :
      (name : Code → Name) (call : W → Status × W) (eff : Log → Log)
      (h : (w : W) → view (call w).1 ≡ when (is_ok (call w).0) eff (view w))
      → InTx {A = Unit}
          (some tt)
          (λ log. IsOkOrError)
          eff
          (λ w. finished lib handles get_snapshot name (call w))
  finished_served name call eff h =
      in_tx-Good {A = Unit} (some tt) (λ log. IsOkOrError) eff
        (λ w. finished lib handles get_snapshot name (call w))
        (finished-Good lib others view law handles get_snapshot name call eff h)

  pub savepoint_served :
      (call : W → Status × W) (eff : Log → Log)
      (h : (w : W) → view (call w).1 ≡ when (is_ok (call w).0) eff (view w))
      → InTx {A = Unit}
          (some tt)
          (λ log. IsOkOrError)
          eff
          (λ w. (returned (savepoint_term (call w).0), (call w).1))
  savepoint_served call eff h =
      in_tx-Good {A = Unit} (some tt) (λ log. IsOkOrError) eff
        (λ w. (returned (savepoint_term (call w).0), (call w).1)) (savepoint-Good call eff h)
