-- ===== src/CompactionFilter/Options.antt =====
-- The option `compaction_filter` of `parse_cf_option` in c_src/erocksdb_db.cc.
use erlang_rocksdb.Prelude.{ℕ, Bool, true, false, Option, none, some, List, [], ◌∷◌, ◌>>=◌}
use erlang_rocksdb.Bytes.{Bytes}
use erlang_rocksdb.Term.{
  Term, atom, cons, tuple, elements, named, atom_key_prefix, atom_key_suffix, atom_key_contains,
  atom_value_prefix, atom_value_empty, atom_always_delete, atom_ttl_from_key, inspect_binary,
  get_uint, get_uint64,
}
use erlang_rocksdb.CompactionFilter.{
  RuleType, key_prefix, key_suffix, key_contains, value_empty, value_prefix, ttl_from_key, always,
  FilterRule,
}

-- What `enif_get_map_value` finds in the map of the option.
pub record FilterMap : Type 0 where
  pub rules : Option Term
  pub handler : Option Term
  pub batch_size : Option Term
  pub timeout : Option Term

abbrev pub rule_of_type : RuleType → FilterRule
rule_of_type type = record { type = type; pattern = []; offset = 0; length = 0; ttl_seconds = 0 }

abbrev pub pattern_rule : RuleType → Option Bytes → Option FilterRule
pattern_rule type none = none
pattern_rule type (some bin) = some (record (rule_of_type type) { pattern = bin })

-- The elements of a tuple; `none` adds no rule.
unfoldable pub rule_of : List Term → Option FilterRule
rule_of (atom (named atom_key_prefix) ∷ t ∷ []) = pattern_rule key_prefix (inspect_binary t)
rule_of (atom (named atom_key_suffix) ∷ t ∷ []) = pattern_rule key_suffix (inspect_binary t)
rule_of (atom (named atom_key_contains) ∷ t ∷ []) = pattern_rule key_contains (inspect_binary t)
rule_of (atom (named atom_value_prefix) ∷ t ∷ []) = pattern_rule value_prefix (inspect_binary t)
rule_of (atom (named atom_value_empty) ∷ []) = some (rule_of_type value_empty)
rule_of (atom (named atom_always_delete) ∷ []) = some (rule_of_type always)
rule_of (atom (named atom_ttl_from_key) ∷ o ∷ l ∷ t ∷ []) = get_uint o >>= λ offset.
    get_uint l >>= λ length. get_uint64 t >>= λ ttl. some (record {
      type = ttl_from_key;
      pattern = [];
      offset = offset;
      length = length;
      ttl_seconds = ttl;
    })
rule_of _ = none

abbrev pub rule_of_term : Term → Option FilterRule
rule_of_term (tuple ts) = rule_of (elements ts)
rule_of_term _ = none

abbrev pub push_back : Option FilterRule → List FilterRule → List FilterRule
push_back none rules = rules
push_back (some rule) rules = rule ∷ rules

-- The loop of `enif_get_list_cell`.
unfoldable pub parse_rules : Term → List FilterRule
unfolding rule_of
parse_rules (cons head tail) = push_back (rule_of_term head) (parse_rules tail)
parse_rules _ = []

pub data Factory (P : Type 0) : Type 0 where
  of_rules : List FilterRule → Factory P
  of_handler : P → ℕ → ℕ → Factory P

abbrev pub uint_or : ℕ → Option Term → ℕ
uint_or default none = default
uint_or default (some t) = elim (get_uint t) [ none ↦ default | some n ↦ n ]

abbrev pub rules_factory : {P : Type 0} → List FilterRule → Option (Factory P)
rules_factory [] = none
rules_factory (rule ∷ rules) = some (of_rules (rule ∷ rules))

-- Whether the option is taken, and the factory that it sets; `get_local_pid` is
-- `enif_get_local_pid`.
unfoldable pub parse_compaction_filter :
    {P : Type 0} → (Term → Option P) → FilterMap → Bool × Option (Factory P)
unfolding parse_rules
parse_compaction_filter get_local_pid m = elim m.rules [
  | some rules_term ↦ (true, rules_factory (parse_rules rules_term))
  | none ↦ elim m.handler [
    | none ↦ (true, none)
    | some handler_term ↦ elim (get_local_pid handler_term) [
      | none ↦ (false, none)
      | some pid ↦ (true, some (of_handler pid (uint_or 100 m.batch_size) (uint_or 5000 m.timeout)))
    ]
  ]
]
