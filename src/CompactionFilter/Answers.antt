-- ===== src/CompactionFilter/Answers.antt =====
-- The answers of a handler, from the term of its reply to the decision of the compaction.
use erlang_rocksdb.Prelude.{
  ℕ, zero, suc, ◌≡◌, refl, ap, ap₂, ◌∙◌, Bool, true, false, if◌then◌else◌, Option, none, some, List,
  [], ◌∷◌, get_elem?, map, arith,
}
use erlang_rocksdb.Bytes.{Bytes}
use erlang_rocksdb.Term.{
  atom_keep, atom_remove, atom_change_value, Term, atom, binary, nil, cons, tuple, end, element,
}
use erlang_rocksdb.CompactionFilter.{keep, remove, change_value, FilterResult, result_of}
use erlang_rocksdb.CompactionFilter.Batch.{
  Batch, set_response, get_result, set_responses, wait_for_response, result_of_term,
  results_of_term, compaction_filter_reply,
}
use erlang_rocksdb.CompactionFilter.Filter.{
  Filter, World, Runtime, answer, call_erlang_handler, ValueType, merge_operand, other_type,
  Decision, k_keep, k_remove, k_purge, k_change_value, decide, filter_v2,
}
use erlang_rocksdb.CompactionFilter.Failures.{reached, filter_v2_called}

-- The documented answers: `keep`, `remove` and `{change_value, binary()}`.
pub data Answer : Type 0 where
  keeps removed : Answer
  changes : Bytes → Answer

abbrev pub term_of : Answer → Term
term_of keeps = atom atom_keep
term_of removed = atom atom_remove
term_of (changes v) = tuple (element (atom atom_change_value) (element (binary v) end))

abbrev pub terms_of : List Answer → Term
terms_of [] = nil
terms_of (a ∷ xs) = cons (term_of a) (terms_of xs)

abbrev pub meaning : Answer → FilterResult
meaning keeps = result_of keep
meaning removed = result_of remove
meaning (changes v) = record { decision = change_value; new_value = v }

result_of_term-term_of : (a : Answer) → result_of_term (term_of a) ≡ meaning a
unfolding result_of_term
result_of_term-term_of keeps = refl
result_of_term-term_of removed = refl
result_of_term-term_of (changes v) = refl

results_of_term-terms_of : (xs : List Answer) → results_of_term (terms_of xs) ≡ map meaning xs
unfolding results_of_term
results_of_term-terms_of [] = refl
results_of_term-terms_of (a ∷ xs) = ap₂ ◌∷◌ (result_of_term-term_of a) (results_of_term-terms_of xs)

get_result-map :
    (i : ℕ) (xs : List Answer)
    → elim (get_elem? (map meaning xs) i) [ none ↦ result_of keep | some r ↦ r ]
      ≡ elim (get_elem? xs i) [ none ↦ result_of keep | some a ↦ meaning a ]
get_result-map i [] = refl
get_result-map zero (a ∷ xs) = refl
get_result-map (suc i) (a ∷ xs) = get_result-map i xs

-- A reply with a list of documented answers to a batch that exists sets the response: `GetResult(i)`
-- is then the meaning of answer `i`, and keep past the end of the list.
pub compaction_filter_reply-get_result :
    (get_resource : Term → Option Batch) (ref : Term) (b : Batch) (xs : List Answer) (i : ℕ)
    → get_resource ref ≡ some b
    → (b' : Batch) × (compaction_filter_reply get_resource (ref ∷ terms_of xs ∷ []) ≡ some b')
      × (Batch.has_response b' ≡ true)
      × (get_result i b' ≡ elim (get_elem? xs i) [ none ↦ result_of keep | some a ↦ meaning a ])
unfolding compaction_filter_reply set_response get_result
compaction_filter_reply-get_result get_resource ref b xs i h = (
  set_response (map meaning xs) b,
  rw (h) (rw (results_of_term-terms_of xs) refl),
  refl,
  get_result-map i xs,
)

-- What the answers are documented to do. Of a merge operand that is removed, RocksDB has only
-- `kRemove`.
abbrev pub documented : ValueType → Answer → Decision
documented type keeps = k_keep
documented merge_operand removed = k_remove
documented other_type removed = k_purge
documented type (changes v) = k_change_value v

-- A new value for a merge operand, which `FilterV2` drops.
abbrev pub dropped : ValueType → Answer → Bool
dropped merge_operand (changes v) = true
dropped type a = false

abbrev pub decided_by : ValueType → Answer → Decision
decided_by type a = if dropped type a then k_keep else documented type a

decide-meaning :
    (type : ValueType) (a : Answer)
    → decide type (FilterResult.decision (meaning a)) (FilterResult.new_value (meaning a))
      ≡ decided_by type a
unfolding decide
decide-meaning merge_operand keeps = refl
decide-meaning merge_operand removed = refl
decide-meaning merge_operand (changes v) = refl
decide-meaning other_type keeps = refl
decide-meaning other_type removed = refl
decide-meaning other_type (changes v) = refl

answer_one :
    (r : Runtime) (a : Answer)
    → Runtime.during r ≡ results_of_term (terms_of (a ∷ [])) ∷ []
    → Runtime.between r ≡ []
    → answer r ≡ meaning a
unfolding answer wait_for_response set_responses set_response get_result
answer_one r a hd hb = rw (hd, hb, results_of_term-terms_of (a ∷ [])) refl

called :
    (r : Runtime) (f : Filter) (w : World) (level : ℕ) (key value : Bytes)
    → reached r ≡ true
    → ((call_erlang_handler r f w level key value).0 ≡ answer r)
      × ((call_erlang_handler r f w level key value).1 ≡ f)
      × (World.mailbox (call_erlang_handler r f w level key value).2
          ≡ record { level = level; key = key; value = value } ∷ World.mailbox w)
unfolding call_erlang_handler
called r f w level key value h = (ground arith, ground arith, ground arith)

-- In callback mode, with a handler not known to be dead, every step of the call succeeding, and one
-- reply of one answer in time, the decision is the documented one of the answer, except that a
-- merge operand for which a new value is answered is kept as it is, against the documentation; the
-- filter is unchanged, and one message with the pair has been sent.
pub filter_v2-decided_by :
    (clock : ℕ → ℕ) (r : Runtime) (f : Filter) (w : World) (level : ℕ) (key : Bytes)
    (type : ValueType) (value : Bytes) (a : Answer)
    → Filter.use_erlang_callback f ≡ true
    → Filter.handler_dead f ≡ false
    → reached r ≡ true
    → Runtime.during r ≡ results_of_term (terms_of (a ∷ [])) ∷ []
    → Runtime.between r ≡ []
    → (w' : World) × (filter_v2 clock r f w level key type value
        ≡ some (if dropped type a then k_keep else documented type a, f, w'))
      × (World.mailbox w' ≡ record { level = level; key = key; value = value } ∷ World.mailbox w)
filter_v2-decided_by clock r f w level key type value a hu hd hr during between = (
  (call_erlang_handler r f w level key value).2,
  filter_v2_called clock r f w level key type value hu hd
      ∙ ap
          (λ x. some (
            decide type (FilterResult.decision x) (FilterResult.new_value x),
            (call_erlang_handler r f w level key value).1,
            (call_erlang_handler r f w level key value).2,
          ))
          ((called r f w level key value hr).0 ∙ answer_one r a during between)
      ∙ ap
          (λ x. some (
            x,
            (call_erlang_handler r f w level key value).1,
            (call_erlang_handler r f w level key value).2,
          ))
          (decide-meaning type a)
      ∙ ap (λ g. some (decided_by type a, g, (call_erlang_handler r f w level key value).2))
          (called r f w level key value hr).1,
  (called r f w level key value hr).2,
)
