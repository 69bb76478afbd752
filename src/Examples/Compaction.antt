-- ===== src/Examples/Compaction.antt =====
-- The compaction filter at concrete inputs.
use erlang_rocksdb.Prelude.{
  ℕ, map, ◌+◌, ◌-◌, ◌^◌, ◌≡◌, ◌⊎◌, refl, true, false, some, List, [], ◌∷◌, arith, inr, All,
}
use erlang_rocksdb.Bytes.{Bytes, IsBytes}
use erlang_rocksdb.CompactionFilter.{keep, remove, result_of, key_prefix, ttl_from_key, FilterRule}
use erlang_rocksdb.CompactionFilter.Rules.{apply_rules, removes, starts_with}
use erlang_rocksdb.CompactionFilter.Batch.{results_of_term}
use erlang_rocksdb.CompactionFilter.Filter.{
  Filter, World, Runtime, call_erlang_handler, merge_operand, other_type, k_keep, k_remove, decide,
  filter_v2,
}
use erlang_rocksdb.CompactionFilter.Outcome.{HasRoom, AnyMatches, apply_rules-AnyMatches}
use erlang_rocksdb.CompactionFilter.Failures.{call_erlang_handler_balanced, filter_v2_fallback}
use erlang_rocksdb.CompactionFilter.Answers.{
  Answer, changes, terms_of, documented, filter_v2-decided_by,
}
use erlang_rocksdb.CompactionFilter.{FilterResult}
use erlang_rocksdb.CompactionFilter.Options.{parse_rules}
use erlang_rocksdb.CompactionFilter.Parsed.{
  Rule, suffix_rule, delete_rule, rule_term, filter_rule, parse_rules-rule_term,
}
use erlang_rocksdb.CompactionFilter.Parsed
use erlang_rocksdb.CompactionFilter.Total.{apply_rules-parse_rules}
use erlang_rocksdb.Term.{Term, nil, make_list}
use erlang_rocksdb.Examples.{key_a, key_b}

abbrev prefix_rule : FilterRule
prefix_rule = record { type = key_prefix; pattern = key_a; offset = 0; length = 0; ttl_seconds = 0 }

abbrev ttl_rule : FilterRule
ttl_rule = record { type = ttl_from_key; pattern = []; offset = 1; length = 2; ttl_seconds = 10 }

-- The key `b` with the timestamp 258.
abbrev timed_key : Bytes
timed_key = 98 ∷ 1 ∷ 2 ∷ []

abbrev rules : List FilterRule
rules = prefix_rule ∷ ttl_rule ∷ []

abbrev clock : ℕ → ℕ
clock i = 300 + i

rules-HasRoom : All (HasRoom timed_key) rules
unfolding HasRoom
rules-HasRoom = ((omega arith, omega arith), ((omega arith, omega arith), tt))

timed_key-IsBytes : IsBytes timed_key
timed_key-IsBytes = (omega arith, (omega arith, (omega arith, tt)))

apply_rules-AnyMatches_example :
    ((apply_rules clock 0 timed_key [] rules ≡ some (result_of remove))
      × AnyMatches clock 0 timed_key [] rules)
    ⊎ ((apply_rules clock 0 timed_key [] rules ≡ some (result_of keep))
        × ¬ AnyMatches clock 0 timed_key [] rules)
apply_rules-AnyMatches_example =
    apply_rules-AnyMatches clock timed_key [] timed_key-IsBytes 0 rules rules-HasRoom

abbrev callback_filter : Filter
callback_filter = record { use_erlang_callback = true; rules = []; handler_dead = false }

abbrev rule_filter : Filter
rule_filter = record { use_erlang_callback = false; rules = prefix_rule ∷ []; handler_dead = false }

abbrev fresh : World
fresh = record { envs = 0; references = 0; mailbox = [] }

-- The handler answers with a new value in time, or not at all.
abbrev new_value : Answer
new_value = changes key_b

abbrev answering : Runtime
answering = record {
  env_allocated = true;
  alive = true;
  batch_allocated = true;
  key_allocated = true;
  value_allocated = true;
  sent = true;
  during = results_of_term (terms_of (new_value ∷ [])) ∷ [];
  between = [];
}

abbrev silent : Runtime
silent = record {
  env_allocated = true;
  alive = true;
  batch_allocated = true;
  key_allocated = true;
  value_allocated = true;
  sent = true;
  during = [];
  between = [];
}

call_erlang_handler_balanced_example :
    (World.envs (call_erlang_handler answering callback_filter fresh 0 key_a key_b).2 ≡ 0)
    × (World.references (call_erlang_handler answering callback_filter fresh 0 key_a key_b).2 ≡ 0)
call_erlang_handler_balanced_example =
    call_erlang_handler_balanced answering callback_filter fresh 0 key_a key_b

filter_v2_fallback_example :
    (f' : Filter) × (w' : World) × (filter_v2 clock silent callback_filter fresh 0 key_a other_type
        key_b
      ≡ some (k_keep, f', w'))
filter_v2_fallback_example =
    filter_v2_fallback clock silent callback_filter fresh 0 key_a other_type key_b refl
      (inr (inr refl))

drops_operand :
    filter_v2 clock silent rule_filter fresh 0 key_a merge_operand key_b
    ≡ some (k_remove, rule_filter, fresh)
unfolding filter_v2 apply_rules removes starts_with decide
drops_operand = refl

filter_v2-decided_by_example :
    (w' : World) × (filter_v2 clock answering callback_filter fresh 0 key_a other_type key_b
      ≡ some (documented other_type new_value, callback_filter, w'))
    × (World.mailbox w' ≡ record { level = 0; key = key_a; value = key_b } ∷ [])
filter_v2-decided_by_example =
    filter_v2-decided_by clock answering callback_filter fresh 0 key_a other_type key_b new_value
      refl refl refl refl refl

abbrev asked_rules : List Rule
asked_rules = suffix_rule key_b ∷ Parsed.ttl_rule 1 2 10 ∷ delete_rule ∷ []

parse_rules-rule_term_example :
    parse_rules (make_list (map rule_term asked_rules)) ≡ map filter_rule asked_rules
parse_rules-rule_term_example =
    parse_rules-rule_term asked_rules (tt, ((omega arith, omega arith, omega arith), (tt, tt)))

-- A list with a term that is no rule, and a rule with the largest offset and length.
abbrev asked_list : Term
asked_list =
    make_list (nil ∷ map rule_term (Parsed.ttl_rule (2 ^ 32 - 1) (2 ^ 32 - 1) (2 ^ 64 - 1) ∷ []))

apply_rules-parse_rules_example :
    (r : FilterResult) × (apply_rules (λ i. 300) 0 timed_key key_b (parse_rules asked_list)
      ≡ some r)
apply_rules-parse_rules_example = apply_rules-parse_rules (λ i. 300) timed_key key_b asked_list
