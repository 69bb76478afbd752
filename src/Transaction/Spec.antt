-- ===== src/Transaction/Spec.antt =====
-- A transaction as its client sees it: the writes that were answered with `ok`, over what the
-- database holds.
use erlang_rocksdb.Prelude.{
  ℕ, ◌≡◌, ◌⊎◌, Bool, true, false, Option, none, some, List, [], ◌∷◌, map, ◌==◌, ◌&&◌, if◌then◌else◌,
}
use erlang_rocksdb.Bytes.{Bytes}
use erlang_rocksdb.Bytes.Order.{eqb}
use erlang_rocksdb.Calls.{Code, k_ok, k_not_found, Status, is_ok}
use erlang_rocksdb.Calls.Options.{ReadOptions, k_read_all_tier}
use erlang_rocksdb.Transaction.{Library}

-- No value for a deletion.
pub record Write : Type 0 where
  pub column_family : ℕ
  pub key : Bytes
  pub value : Option Bytes

-- What is committed, as of a snapshot or now; the writes of the transaction, the latest first, and
-- those of its save points.
pub record Log : Type 0 where
  pub stored : Option ℕ → ℕ → Bytes → Option Bytes
  pub written : List Write
  pub saves : List (List Write)

-- The latest write of a key, if there is one.
abbrev pub latest : List Write → ℕ → Bytes → Option (Option Bytes)
latest [] c k = none
latest (w ∷ ws) c k = if (w.column_family == c) && eqb w.key k then some w.value else latest ws c k

abbrev pub over : List Write → (ℕ → Bytes → Option Bytes) → ℕ → Bytes → Option Bytes
over ws stored c k = elim (latest ws c k) [ none ↦ stored c k | some v ↦ v ]

-- A transaction reads its own writes, then the snapshot or the database.
abbrev pub visible : Log → Option ℕ → ℕ → Bytes → Option Bytes
visible log snapshot = over log.written (log.stored snapshot)

-- A commit of writes leaves the snapshots as they are.
abbrev pub store :
    List Write → (Option ℕ → ℕ → Bytes → Option Bytes) → Option ℕ → ℕ → Bytes → Option Bytes
store ws stored none = over ws (stored none)
store ws stored (some snapshot) = stored (some snapshot)

abbrev pub add : Write → Log → Log
add w log = record log { written = w ∷ log.written }

abbrev pub committed : Log → Log
committed log = record { stored = store log.written log.stored; written = []; saves = [] }

abbrev pub discarded : Log → Log
discarded log = record log { written = []; saves = [] }

abbrev pub saved : Log → Log
saved log = record log { saves = log.written ∷ log.saves }

abbrev pub back_to : List (List Write) → Log → Log
back_to [] log = log
back_to (ws ∷ rest) log = record log { written = ws; saves = rest }

abbrev pub popped : List (List Write) → Log → Log
popped [] log = log
popped (ws ∷ rest) log = record log { saves = rest }

abbrev pub stored_by_others : List Write → Log → Log
stored_by_others ws log = record log { stored = store ws log.stored }

abbrev pub when : Bool → (Log → Log) → Log → Log
when b f log = if b then f log else log

-- A status and a value against what is visible.
abbrev pub ReadsAs : Code → Bytes → Option Bytes → Type 0
ReadsAs k_ok value expected = expected ≡ some value
ReadsAs k_not_found value expected = expected ≡ none
ReadsAs _ value expected = Unit

abbrev pub AllReadAs : List (Status × Bytes) → List (Option Bytes) → Type 0
AllReadAs [] [] = Unit
AllReadAs (r ∷ rs) (e ∷ es) = ReadsAs r.0.code r.1 e × AllReadAs rs es
AllReadAs _ _ = ⊥

-- A commit that fails may leave the writes to be tried again or have cleared them: an optimistic
-- transaction keeps them, a pessimistic one clears them where the write of its batch fails.
abbrev pub AfterCommit : Bool → Log → Log → Type 0
AfterCommit true log log' = log' ≡ committed log
AfterCommit false log log' = (log' ≡ log) ⊎ (log' ≡ discarded log)

-- What the storage library documents of a transaction's methods: a call whose status is ok has its
-- effect, another but a commit has none, and a read that is not an error is of what is visible.
pub record IsTransaction {W : Type 0} (lib : Library W) (others : List Write → W → W)
    (view : W → Log) : Type 0 where
  pub put_view :
      (c : ℕ) (k v : Bytes) (w : W)
      → view (lib.put c k v w).1
        ≡ when
            (is_ok (lib.put c k v w).0)
            (add (record { column_family = c; key = k; value = some v }))
            (view w)
  pub delete_view :
      (c : ℕ) (k : Bytes) (w : W)
      → view (lib.delete_ c k w).1
        ≡ when
            (is_ok (lib.delete_ c k w).0)
            (add (record { column_family = c; key = k; value = none }))
            (view w)
  pub get_reads :
      (o : ReadOptions) (c : ℕ) (k : Bytes) (w : W)
      → o.read_tier ≡ k_read_all_tier
      → ReadsAs (lib.get o c k w).0.code (lib.get o c k w).1 (visible (view w) o.snapshot c k)
  pub get_for_update_reads :
      (o : ReadOptions) (c : ℕ) (k : Bytes) (w : W)
      → o.read_tier ≡ k_read_all_tier
      → ReadsAs
          (lib.get_for_update o c k w).0.0.code
          (lib.get_for_update o c k w).0.1
          (visible (view w) o.snapshot c k)
  pub get_for_update_view :
      (o : ReadOptions) (c : ℕ) (k : Bytes) (w : W) → view (lib.get_for_update o c k w).1 ≡ view w
  pub multi_get_reads :
      (o : ReadOptions) (c : ℕ) (ks : List Bytes) (w : W)
      → o.read_tier ≡ k_read_all_tier
      → AllReadAs (lib.multi_get o c ks w) (map (visible (view w) o.snapshot c) ks)
  pub multi_get_for_update_reads :
      (o : ReadOptions) (c : ℕ) (ks : List Bytes) (w : W)
      → o.read_tier ≡ k_read_all_tier
      → AllReadAs (lib.multi_get_for_update o c ks w).0 (map (visible (view w) o.snapshot c) ks)
  pub multi_get_for_update_view :
      (o : ReadOptions) (c : ℕ) (ks : List Bytes) (w : W)
      → view (lib.multi_get_for_update o c ks w).1 ≡ view w
  pub commit_view : (w : W) → AfterCommit (is_ok (lib.commit w).0) (view w) (view (lib.commit w).1)
  pub rollback_view :
      (w : W) → view (lib.rollback w).1 ≡ when (is_ok (lib.rollback w).0) discarded (view w)
  pub save_view : (w : W) → view (lib.set_save_point w) ≡ saved (view w)
  pub rollback_to_view :
      (w : W)
      → view (lib.rollback_to_save_point w).1
        ≡ when (is_ok (lib.rollback_to_save_point w).0) (back_to (view w).saves) (view w)
  pub pop_view :
      (w : W)
      → view (lib.pop_save_point w).1
        ≡ when (is_ok (lib.pop_save_point w).0) (popped (view w).saves) (view w)
  pub others_view : (ws : List Write) (w : W) → view (others ws w) ≡ stored_by_others ws (view w)
