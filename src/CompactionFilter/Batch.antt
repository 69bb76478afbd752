-- ===== src/CompactionFilter/Batch.antt =====
-- `CompactionBatchResource` and `CompactionFilterReply` of c_src/compaction_filter.cc.
use erlang_rocksdb.Prelude.{
  ℕ, Bool, true, false, Option, none, some, List, [], ◌∷◌, get_elem?, ◌>>=◌,
}
use erlang_rocksdb.Bytes.{Bytes}
use erlang_rocksdb.Term.{
  atom_keep, atom_remove, atom_change_value, Term, atom, cons, tuple, elements, inspect_binary,
}
use erlang_rocksdb.CompactionFilter.{keep, remove, change_value, FilterResult, result_of}

pub record Batch : Type 0 where
  pub has_response : Bool
  pub results : List FilterResult

abbrev pub new_batch : Batch
new_batch = record { has_response = false; results = [] }

unfoldable pub set_response : List FilterResult → Batch → Batch
set_response results b = record { has_response = true; results = results }

-- Past the end the key is kept.
unfoldable pub get_result : ℕ → Batch → FilterResult
get_result i b = elim (get_elem? (Batch.results b) i) [ none ↦ result_of keep | some r ↦ r ]

unfoldable pub reset : Batch → Batch
reset b = record { has_response = false; results = [] }

-- The responses that other threads set, in order.
unfoldable pub set_responses : List (List FilterResult) → Batch → Batch
set_responses [] b = b
set_responses (r ∷ rs) b = set_responses rs (set_response r b)

-- Whether a response stands when the wait ends, with the responses set until then.
unfoldable pub wait_for_response : List (List FilterResult) → Batch → Bool × Batch
wait_for_response during b = (Batch.has_response (set_responses during b), set_responses during b)

-- `{change_value, binary()}`; any other term keeps the key.
abbrev changed_value : Option Bytes → FilterResult
changed_value none = result_of keep
changed_value (some v) = record { decision = change_value; new_value = v }

abbrev pair_result : List Term → FilterResult
pair_result (atom atom_change_value ∷ t ∷ []) = changed_value (inspect_binary t)
pair_result _ = result_of keep

unfoldable pub result_of_term : Term → FilterResult
result_of_term (atom atom_keep) = result_of keep
result_of_term (atom atom_remove) = result_of remove
result_of_term (tuple ts) = pair_result (elements ts)
result_of_term _ = result_of keep

-- The loop of `enif_get_list_cell`: an improper tail ends it as the empty list does.
unfoldable pub results_of_term : Term → List FilterResult
results_of_term (cons head tail) = result_of_term head ∷ results_of_term tail
results_of_term _ = []

-- `none` is `badarg`; `get_resource` finds the batch that the first argument refers to.
unfoldable pub compaction_filter_reply : (Term → Option Batch) → List Term → Option Batch
compaction_filter_reply get_resource (ref ∷ decisions ∷ []) = do
  b ← get_resource ref
  some (set_response (results_of_term decisions) b)
compaction_filter_reply get_resource _ = none
