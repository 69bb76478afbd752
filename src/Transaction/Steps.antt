-- ===== src/Transaction/Steps.antt =====
-- Each method of a transaction answers by what is visible and has the effect that it replies.
use erlang_rocksdb.Prelude.{
  ℕ, ◌≡◌, refl, sym, ap, ◌∙◌, Bool, true, Option, none, some, List, [], ◌∷◌,
}
use erlang_rocksdb.Bytes.{Bytes}
use erlang_rocksdb.Term.{Term, Name}
use erlang_rocksdb.WriteBatch.{Handles}
use erlang_rocksdb.Calls.{Code, Status, Reply, is_ok, value_term}
use erlang_rocksdb.Transaction.{
  Library, value_with, read_options_of, finished, put_with, delete_with, get_with, update_with,
  multi_with, multi_update_with,
}
use erlang_rocksdb.Transaction.Spec.{Write, Log, when, IsTransaction}
use erlang_rocksdb.Transaction.Answers.{
  is_done, Served, IsOkOrError, KeyAnswer, KeysAnswer, WholeTier, put_in, delete_in,
}
use erlang_rocksdb.Transaction.Terms.{
  done_with-IsOkOrError, is_done-done_with, all-AllAnswerAs, when_same, Answering,
  value_term-AnswersAs, value_with-AnswersAs,
}

module _ {W : Type 0} (lib : Library W) (others : List Write → W → W) (view : W → Log)
    (law : IsTransaction lib others view) (handles : Handles) (get_snapshot : Term → Option ℕ) where
  -- What a method does to a transaction that is open.
  abbrev pub Good :
      {A : Type 0} → Option A → (Log → A → Term → Type 0) → (Log → Log) → (W → Reply × W) → Type 0
  Good args P effect f =
      (w : W)
      → Served true args (P (view w)) (f w).0
        × (view (f w).1 ≡ when (is_done (f w).0) effect (view w))

  pub finished-Good :
      (name : Code → Name) (call : W → Status × W) (effect : Log → Log)
      → ((w : W) → view (call w).1 ≡ when (is_ok (call w).0) effect (view w))
      → Good {A = Unit}
          (some tt)
          (λ log. IsOkOrError)
          effect
          (λ w. finished lib handles get_snapshot name (call w))
  finished-Good name call effect h w = (
    (_, refl, done_with-IsOkOrError name (call w).0.code (call w).0.to_string),
    h w
        ∙ ap (λ b. when b effect (view w))
            (sym (is_done-done_with name (call w).0.code (call w).0.to_string)),
  )

  pub put-Good :
      (name : Code → Name) (args : Option (ℕ × (Bytes × Bytes)))
      → Good args (λ log. IsOkOrError) (put_in args) (put_with lib handles get_snapshot name args)
  put-Good name none w = (refl, refl)
  put-Good name (some (c, (k, v))) w =
      finished-Good name (lib.put c k v) (put_in (some (c, (k, v)))) (law.put_view c k v) w

  pub delete-Good :
      (name : Code → Name) (args : Option (ℕ × Bytes))
      → Good args
          (λ log. IsOkOrError)
          (delete_in args)
          (delete_with lib handles get_snapshot name args)
  delete-Good name none w = (refl, refl)
  delete-Good name (some (c, k)) w =
      finished-Good name (lib.delete_ c k) (delete_in (some (c, k))) (law.delete_view c k) w

  -- A read has no effect on what is visible.
  same_view : {w w' : W} → (b : Bool) → view w' ≡ view w → view w' ≡ when b (λ l. l) (view w)
  same_view {w = w} b h = h ∙ sym (when_same b (view w))

  pub get-Good :
      (args : Option ((ℕ × Bytes) × Term))
      → WholeTier lib handles get_snapshot args
      → Good args
          (KeyAnswer lib handles get_snapshot)
          (λ l. l)
          (get_with lib handles get_snapshot args)
  get-Good none h w = (refl, refl)
  get-Good (some ((c, k), opts)) h w = (
    (
      _,
      refl,
      value_term-AnswersAs _ _ _ _
          (law.get_reads (read_options_of lib handles get_snapshot opts) c k w h),
    ),
    same_view {w = w} _ refl,
  )

  pub update-Good :
      (term : Status × Bytes → Term)
      → Answering term
      → (args : Option ((ℕ × Bytes) × Term)) → WholeTier lib handles get_snapshot args
      → Good args
          (KeyAnswer lib handles get_snapshot)
          (λ l. l)
          (update_with lib handles get_snapshot term args)
  update-Good term f none h w = (refl, refl)
  update-Good term f (some ((c, k), opts)) h w = (
    (
      _,
      refl,
      f _ _ _ _ (law.get_for_update_reads (read_options_of lib handles get_snapshot opts) c k w h),
    ),
    same_view _ (law.get_for_update_view (read_options_of lib handles get_snapshot opts) c k w),
  )

  pub multi-Good :
      (args : Option ((ℕ × List Bytes) × Term))
      → WholeTier lib handles get_snapshot args
      → Good args
          (KeysAnswer lib handles get_snapshot)
          (λ l. l)
          (multi_with lib handles get_snapshot args)
  multi-Good none h w = (refl, refl)
  multi-Good (some ((c, []), opts)) h w = ((_, refl, ([], refl, tt)), refl)
  multi-Good (some ((c, k ∷ ks), opts)) h w = (
    (
      _,
      refl,
      (
        _,
        refl,
        all-AllAnswerAs value_term value_term-AnswersAs _ _
            (law.multi_get_reads (read_options_of lib handles get_snapshot opts) c (k ∷ ks) w h),
      ),
    ),
    same_view _ refl,
  )

  pub multi_update-Good :
      (name : Code → Name) (args : Option ((ℕ × List Bytes) × Term))
      → WholeTier lib handles get_snapshot args
      → Good args
          (KeysAnswer lib handles get_snapshot)
          (λ l. l)
          (multi_update_with lib handles get_snapshot name args)
  multi_update-Good name none h w = (refl, refl)
  multi_update-Good name (some ((c, []), opts)) h w = ((_, refl, ([], refl, tt)), refl)
  multi_update-Good name (some ((c, k ∷ ks), opts)) h w = (
    (
      _,
      refl,
      (
        _,
        refl,
        all-AllAnswerAs (value_with name) (value_with-AnswersAs name) _ _ (
            law.multi_get_for_update_reads (read_options_of lib handles get_snapshot opts) c
              (k ∷ ks) w h),
      ),
    ),
    same_view _ (
        law.multi_get_for_update_view (read_options_of lib handles get_snapshot opts) c (k ∷ ks) w),
  )
