-- ===== src/CompactionFilter/Parsed.antt =====
-- The rules that the option `compaction_filter` sets, and what a compaction does by them.
use erlang_rocksdb.Prelude.{
  ℕ, ◌+◌, ◌^◌, ◌<◌, ◌≡◌, refl, ap₂, inl, inr, true, ltb, Option, none, some, List, [], ◌∷◌, map,
  length, arith, Bool-cases, Option-cases, All,
}
use erlang_rocksdb.Prelude.Int.{pos}
use erlang_rocksdb.Bytes.{Bytes}
use erlang_rocksdb.Term.{
  Term, atom, int, binary, tuple, element, end, Name, named, atom_key_prefix, atom_key_suffix,
  atom_key_contains, atom_value_prefix, atom_value_empty, atom_always_delete, atom_ttl_from_key,
  inspect_binary, get_uint, get_uint64, make_list,
}
use erlang_rocksdb.CompactionFilter.{
  RuleType, key_prefix, key_suffix, key_contains, value_empty, value_prefix, ttl_from_key, always,
  FilterRule,
}
use erlang_rocksdb.CompactionFilter.Options.{
  pattern_rule, rule_of, rule_of_term, push_back, parse_rules,
}

-- The rules that can be written as terms.
pub data Rule : Type 0 where
  prefix_rule suffix_rule contains_rule value_prefix_rule : Bytes → Rule
  empty_rule delete_rule : Rule
  ttl_rule : ℕ → ℕ → ℕ → Rule

-- The numbers of the rule fit what they are read as.
abbrev pub Fits : Rule → Type 0
Fits (ttl_rule offset length ttl) = (offset < 2 ^ 32) × (length < 2 ^ 32) × (ttl < 2 ^ 64)
Fits _ = Unit

abbrev named_pair : Name → Bytes → Term
named_pair name b = tuple (element (atom (named name)) (element (binary b) end))

abbrev pub rule_term : Rule → Term
rule_term (prefix_rule b) = named_pair atom_key_prefix b
rule_term (suffix_rule b) = named_pair atom_key_suffix b
rule_term (contains_rule b) = named_pair atom_key_contains b
rule_term (value_prefix_rule b) = named_pair atom_value_prefix b
rule_term empty_rule = tuple (element (atom (named atom_value_empty)) end)
rule_term delete_rule = tuple (element (atom (named atom_always_delete)) end)
rule_term (ttl_rule o l t) = tuple (
    element (atom (named atom_ttl_from_key))
      (element (int (pos o)) (element (int (pos l)) (element (int (pos t)) end))))

abbrev of_pattern : RuleType → Bytes → FilterRule
of_pattern type b = record { type = type; pattern = b; offset = 0; length = 0; ttl_seconds = 0 }

abbrev pub filter_rule : Rule → FilterRule
filter_rule (prefix_rule b) = of_pattern key_prefix b
filter_rule (suffix_rule b) = of_pattern key_suffix b
filter_rule (contains_rule b) = of_pattern key_contains b
filter_rule (value_prefix_rule b) = of_pattern value_prefix b
filter_rule empty_rule = of_pattern value_empty []
filter_rule delete_rule = of_pattern always []
filter_rule (ttl_rule o l t) = record {
  type = ttl_from_key;
  pattern = [];
  offset = o;
  length = l;
  ttl_seconds = t;
}

rule_of-rule_term : (r : Rule) → Fits r → rule_of_term (rule_term r) ≡ some (filter_rule r)
unfolding rule_of
rule_of-rule_term (prefix_rule b) h = refl
rule_of-rule_term (suffix_rule b) h = refl
rule_of-rule_term (contains_rule b) h = refl
rule_of-rule_term (value_prefix_rule b) h = refl
rule_of-rule_term empty_rule h = refl
rule_of-rule_term delete_rule h = refl
rule_of-rule_term (ttl_rule o l t) h =
    let eo : ltb o (2 ^ 32) ≡ true = ground arith in
    let el : ltb l (2 ^ 32) ≡ true = ground arith in
    let et : ltb t (2 ^ 64) ≡ true = ground arith in rw (eo, el, et) refl

-- The rules of a list of terms are those that were written, in their order, if each number of a
-- `ttl_from_key` rule fits 32 bits, and its TTL 64.
pub parse_rules-rule_term :
    (rules : List Rule)
    → All Fits rules
    → parse_rules (make_list (map rule_term rules)) ≡ map filter_rule rules
unfolding parse_rules
parse_rules-rule_term [] h = refl
parse_rules-rule_term (r ∷ rules) h =
    ap₂ push_back (rule_of-rule_term r h.0) (parse_rules-rule_term rules h.1)

-- The sum of the offset and the length does not wrap.
abbrev pub InBounds : FilterRule → Type 0
InBounds rule = FilterRule.offset rule + FilterRule.length rule < 2 ^ 64

abbrev pub AllIn : Option FilterRule → Type 0
AllIn none = Unit
AllIn (some rule) = InBounds rule

-- A number that is read fits its bits.
get_uint-bound : (t : Term) (n : ℕ) → get_uint t ≡ some n → n < 2 ^ 32
get_uint-bound (int (pos m)) n h = elim (Bool-cases (ltb m (2 ^ 32))) [
  | inl e ↦ ground arith
  | inr e ↦ absurd (ground arith)
]
get_uint-bound _ n h = absurd (some≢none h)
  where
    some≢none : none ≡ some n → ⊥
    some≢none e = cc

pattern-AllIn : (type : RuleType) (b : Option Bytes) → AllIn (pattern_rule type b)
pattern-AllIn type none = tt
pattern-AllIn type (some b) = omega arith

ttl-AllIn : (o l t : Term) → AllIn (rule_of (atom (named atom_ttl_from_key) ∷ o ∷ l ∷ t ∷ []))
unfolding rule_of
ttl-AllIn o l t = elim (Option-cases (get_uint o)) [
  | inl e ↦ rw e tt
  | inr (offset, e) ↦ elim (Option-cases (get_uint l)) [
    | inl f ↦ rw (e, f) tt
    | inr (size, f) ↦ elim (Option-cases (get_uint64 t)) [
      | inl g ↦ rw (e, f, g) tt
      | inr (ttl, g) ↦
          rw (e, f, g) (omega (arith, get_uint-bound o offset e, get_uint-bound l size f))
    ]
  ]
]

pub rule_of-AllIn : (ts : List Term) → AllIn (rule_of ts)
unfolding rule_of
rule_of-AllIn (atom (named atom_key_prefix) ∷ t ∷ []) = pattern-AllIn key_prefix (inspect_binary t)
rule_of-AllIn (atom (named atom_key_suffix) ∷ t ∷ []) = pattern-AllIn key_suffix (inspect_binary t)
rule_of-AllIn (atom (named atom_key_contains) ∷ t ∷ []) =
    pattern-AllIn key_contains (inspect_binary t)
rule_of-AllIn (atom (named atom_value_prefix) ∷ t ∷ []) =
    pattern-AllIn value_prefix (inspect_binary t)
rule_of-AllIn (atom (named atom_value_empty) ∷ []) = omega arith
rule_of-AllIn (atom (named atom_always_delete) ∷ []) = omega arith
rule_of-AllIn (atom (named atom_ttl_from_key) ∷ o ∷ l ∷ t ∷ []) = ttl-AllIn o l t
rule_of-AllIn _ = tt
