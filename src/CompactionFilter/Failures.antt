-- ===== src/CompactionFilter/Failures.antt =====
-- The failure paths of c_src/compaction_filter.cc: the key is kept and nothing leaks.
use erlang_rocksdb.Prelude.{
  ℕ, ◌≡◌, ◌⊎◌, refl, sym, ap, ◌∙◌, inl, inr, Bool, true, false, ◌&&◌, Option, none, some, [], ◌>>=◌,
  arith, Bool-cases, some_inj, subst,
}
use erlang_rocksdb.Bytes.{Bytes}
use erlang_rocksdb.CompactionFilter.Rules.{apply_rules}
use erlang_rocksdb.CompactionFilter.{
  FilterDecision, keep, remove, change_value, FilterResult, result_of,
}
use erlang_rocksdb.CompactionFilter.Batch.{wait_for_response, set_responses}
use erlang_rocksdb.CompactionFilter.Filter.{
  Filter, World, Runtime, answer, call_erlang_handler, ValueType, merge_operand, other_type,
  Decision, k_keep, k_remove, decide, filter_v2,
}

-- Every step of the call up to the message succeeds.
abbrev pub reached : Runtime → Bool
reached r =
    Runtime.env_allocated r
    && (Runtime.alive r
        && (Runtime.batch_allocated r
            && (Runtime.key_allocated r && (Runtime.value_allocated r && Runtime.sent r))))

-- After every path of the call as many environments and references are held as before.
pub call_erlang_handler_balanced :
    (r : Runtime) (f : Filter) (w : World) (level : ℕ) (key value : Bytes)
    → (World.envs (call_erlang_handler r f w level key value).2 ≡ World.envs w)
      × (World.references (call_erlang_handler r f w level key value).2 ≡ World.references w)
unfolding call_erlang_handler
call_erlang_handler_balanced r f w level key value = (ground arith, ground arith)

call_erlang_handler_failed :
    (r : Runtime) (f : Filter) (w : World) (level : ℕ) (key value : Bytes)
    → reached r ≡ false
    → ((call_erlang_handler r f w level key value).0 ≡ result_of keep)
      × (World.mailbox (call_erlang_handler r f w level key value).2 ≡ World.mailbox w)
unfolding call_erlang_handler
call_erlang_handler_failed r f w level key value h = (ground arith, ground arith)

answer_timeout : (r : Runtime) → Runtime.during r ≡ [] → answer r ≡ result_of keep
unfolding answer wait_for_response set_responses
answer_timeout r h = rw (h) refl

call_erlang_handler_timeout :
    (r : Runtime) (f : Filter) (w : World) (level : ℕ) (key value : Bytes)
    → Runtime.during r ≡ []
    → (call_erlang_handler r f w level key value).0 ≡ result_of keep
unfolding call_erlang_handler
call_erlang_handler_timeout r f w level key value h = ground (arith, answer_timeout r h)

decide_keep : (type : ValueType) (v : Bytes) → decide type keep v ≡ k_keep
unfolding decide
decide_keep merge_operand v = refl
decide_keep other_type v = refl

-- A dead handler stays dead, and is sent nothing.
pub filter_v2_dead :
    (clock : ℕ → ℕ) (r : Runtime) (f : Filter) (w : World) (level : ℕ) (key : Bytes)
    (type : ValueType) (value : Bytes)
    → Filter.use_erlang_callback f ≡ true
    → Filter.handler_dead f ≡ true
    → filter_v2 clock r f w level key type value ≡ some (k_keep, f, w)
unfolding filter_v2
filter_v2_dead clock r f w level key type value hu hd = rw (hu, hd) refl

-- In callback mode with a handler that is not known to be dead, the handler's result decides.
pub filter_v2_called :
    (clock : ℕ → ℕ) (r : Runtime) (f : Filter) (w : World) (level : ℕ) (key : Bytes)
    (type : ValueType) (value : Bytes)
    → Filter.use_erlang_callback f ≡ true
    → Filter.handler_dead f ≡ false
    → filter_v2 clock r f w level key type value
      ≡ some (
        decide type
            (FilterResult.decision (call_erlang_handler r f w level key value).0)
            (FilterResult.new_value (call_erlang_handler r f w level key value).0),
        (call_erlang_handler r f w level key value).1,
        (call_erlang_handler r f w level key value).2,
      )
unfolding filter_v2
filter_v2_called clock r f w level key type value hu hd = rw (hu, hd) refl

-- In callback mode the pair is kept if the handler is known to be dead, if a step of the call up to
-- the message fails, or if no response is set in time.
pub filter_v2_fallback :
    (clock : ℕ → ℕ) (r : Runtime) (f : Filter) (w : World) (level : ℕ) (key : Bytes)
    (type : ValueType) (value : Bytes)
    → Filter.use_erlang_callback f ≡ true
    → (Filter.handler_dead f ≡ true) ⊎ ((reached r ≡ false) ⊎ (Runtime.during r ≡ []))
    → (f' : Filter) × (w' : World) × (filter_v2 clock r f w level key type value
        ≡ some (k_keep, f', w'))
filter_v2_fallback clock r f w level key type value hu h =
    elim (Bool-cases (Filter.handler_dead f)) [
      | inl dead ↦ (f, w, filter_v2_dead clock r f w level key type value hu dead)
      | inr alive ↦ (
        (call_erlang_handler r f w level key value).1,
        (call_erlang_handler r f w level key value).2,
        filter_v2_called clock r f w level key type value hu alive
            ∙ ap
                (λ x. some (
                  decide type (FilterResult.decision x) (FilterResult.new_value x),
                  (call_erlang_handler r f w level key value).1,
                  (call_erlang_handler r f w level key value).2,
                ))
                (result_kept alive)
            ∙ ap
                (λ x. some (
                  x,
                  (call_erlang_handler r f w level key value).1,
                  (call_erlang_handler r f w level key value).2,
                ))
                (decide_keep type []),
      )
    ]
  where
    true≢false : true ≡ false → ⊥
    true≢false e = cc

    result_kept :
        Filter.handler_dead f ≡ false
        → (call_erlang_handler r f w level key value).0 ≡ result_of keep
    result_kept alive = elim h [
      | inl dead ↦ absurd (true≢false (sym dead ∙ alive))
      | inr (inl failed) ↦ (call_erlang_handler_failed r f w level key value failed).0
      | inr (inr late) ↦ call_erlang_handler_timeout r f w level key value late
    ]

abbrev outcome : Decision → Filter → World → Option (Decision × Filter × World)
outcome d f w = some (d, f, w)

filter_v2_by_rules :
    (clock : ℕ → ℕ) (r : Runtime) (f : Filter) (w : World) (level : ℕ) (key : Bytes)
    (type : ValueType) (value : Bytes)
    → Filter.use_erlang_callback f ≡ false
    → filter_v2 clock r f w level key type value ≡ (
        apply_rules clock 0 key value (Filter.rules f)
        >>= (λ x. outcome (decide type (FilterResult.decision x) (FilterResult.new_value x)) f w))
unfolding filter_v2
filter_v2_by_rules clock r f w level key type value hu = rw (hu) refl

decide-merge_operand :
    (d : FilterDecision) (v : Bytes)
    → (decide merge_operand d v ≡ k_keep) ⊎ (decide merge_operand d v ≡ k_remove)
unfolding decide
decide-merge_operand keep v = inl refl
decide-merge_operand remove v = inr refl
decide-merge_operand change_value v = inl refl

decision_inj :
    {d d' : Decision} {f f' : Filter} {w w' : World} → outcome d f w ≡ outcome d' f' w' → d ≡ d'
decision_inj e = ap (λ (x, _, _). x) (some_inj e)

-- Whenever `FilterV2` decides on a merge operand, the decision is to keep it or to remove it.
pub filter_v2-merge_operand :
    (clock : ℕ → ℕ) (r : Runtime) (f f' : Filter) (w w' : World) (level : ℕ) (key value : Bytes)
    (d : Decision)
    → filter_v2 clock r f w level key merge_operand value ≡ some (d, f', w')
    → (d ≡ k_keep) ⊎ (d ≡ k_remove)
filter_v2-merge_operand clock r f f' w w' level key value d h =
    elim (Bool-cases (Filter.use_erlang_callback f)) [
      | inl hu ↦ elim (Bool-cases (Filter.handler_dead f)) [
        | inl dead ↦ inl (
            sym (
              decision_inj
                (sym (filter_v2_dead clock r f w level key merge_operand value hu dead) ∙ h)))
        | inr alive ↦ by_result (call_erlang_handler r f w level key value).0 (
            decision_inj
              (sym (filter_v2_called clock r f w level key merge_operand value hu alive) ∙ h))
      ]
      | inr hu ↦
          by_rules (apply_rules clock 0 key value (Filter.rules f))
            (sym (filter_v2_by_rules clock r f w level key merge_operand value hu) ∙ h)
    ]
  where
    by_result :
        (x : FilterResult)
        → decide merge_operand (FilterResult.decision x) (FilterResult.new_value x) ≡ d
        → (d ≡ k_keep) ⊎ (d ≡ k_remove)
    by_result x e =
        subst (λ y. (y ≡ k_keep) ⊎ (y ≡ k_remove)) e
          (decide-merge_operand (FilterResult.decision x) (FilterResult.new_value x))

    none≢some : {x : Decision × Filter × World} → none ≡ some x → ⊥
    none≢some e = cc

    by_rules :
        (o : Option FilterResult)
        → (o >>= (λ x.
            outcome
              (decide merge_operand (FilterResult.decision x) (FilterResult.new_value x))
              f
              w))
          ≡ outcome d f' w'
        → (d ≡ k_keep) ⊎ (d ≡ k_remove)
    by_rules none e = absurd (none≢some e)
    by_rules (some x) e = by_result x (decision_inj e)
