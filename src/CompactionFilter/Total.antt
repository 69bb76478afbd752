-- ===== src/CompactionFilter/Total.antt =====
-- With rules that come from the option `compaction_filter`, no key is read past its end.
use erlang_rocksdb.Prelude.{
  ℕ, zero, suc, ◌+◌, ◌%◌, ◌^◌, ◌≤◌, ◌≡◌, refl, inl, inr, false, ltb, Option, none, some, List, [],
  ◌∷◌, length, length-drop, drop, arith, Bool-cases, All,
}
use erlang_rocksdb.Bytes.{Bytes}
use erlang_rocksdb.Term.{Term, cons, tuple, elements}
use erlang_rocksdb.CompactionFilter.{
  FilterResult, remove, result_of, RuleType, ttl_from_key, FilterRule,
}
use erlang_rocksdb.CompactionFilter.Rules.{
  read_timestamp, timestamp_bytes, check_ttl, removes, apply_rules,
}
use erlang_rocksdb.CompactionFilter.Options.{rule_of_term, push_back, parse_rules}
use erlang_rocksdb.CompactionFilter.Parsed.{InBounds, AllIn, rule_of-AllIn}

term-AllIn : (t : Term) → AllIn (rule_of_term t)
term-AllIn (tuple ts) = rule_of-AllIn (elements ts)
term-AllIn _ = tt

push-All :
    (r : Option FilterRule) (rules : List FilterRule)
    → AllIn r
    → All InBounds rules
    → All InBounds (push_back r rules)
push-All none rules h hs = hs
push-All (some r) rules h hs = (h, hs)

parse_rules-All : (t : Term) → All InBounds (parse_rules t)
unfolding parse_rules
parse_rules-All (cons head tail) =
    push-All (rule_of_term head) (parse_rules tail) (term-AllIn head) (parse_rules-All tail)
parse_rules-All _ = tt

-- A computation that gives a value.
abbrev Gives : {A : Type 0} → Option A → Type 0
Gives {A = A} o = (a : A) × (o ≡ some a)

read_timestamp_total : (n t : ℕ) (d : Bytes) → n ≤ length d → Gives (read_timestamp n t d)
unfolding read_timestamp
read_timestamp_total zero t d h = (t, refl)
read_timestamp_total (suc n) t [] h = absurd (omega arith)
read_timestamp_total (suc n) t (b ∷ d) h = read_timestamp_total n _ d (omega arith)

check_ttl_total :
    (now : ℕ) (key : Bytes) (rule : FilterRule)
    → InBounds rule
    → Gives (
        check_ttl now key
          (FilterRule.offset rule)
          (FilterRule.length rule)
          (FilterRule.ttl_seconds rule))
unfolding check_ttl
check_ttl_total now key rule h =
    elim (Bool-cases
      (ltb (length key) ((FilterRule.offset rule + FilterRule.length rule) % 2 ^ 64))) [
        | inl e ↦ rw e (false, refl)
        | inr e ↦
            let (t, r) =
              read_timestamp_total (timestamp_bytes (FilterRule.length rule)) 0
                (drop (FilterRule.offset rule) key)
                (ground (arith, length-drop (FilterRule.offset rule) key)) in
            rw (e, r) (_, refl)
      ]

removes_total :
    (now : ℕ) (key value : Bytes) (type : RuleType) (rule : FilterRule)
    → InBounds rule
    → Gives (removes now key value type rule)
unfolding removes
removes_total now key value ttl_from_key rule h = check_ttl_total now key rule h
removes_total now key value _ rule h = (_, refl)

rules_total :
    (clock : ℕ → ℕ) (i : ℕ) (key value : Bytes) (rules : List FilterRule)
    → All InBounds rules
    → Gives (apply_rules clock i key value rules)
unfolding apply_rules
rules_total clock i key value [] h = (_, refl)
rules_total clock i key value (rule ∷ rules) h =
    let (b, e) = removes_total (clock i) key value (FilterRule.type rule) rule h.0 in
    let (r, f) = rules_total clock (i + 1) key value rules h.1 in
    elim (Bool-cases b) [ inl g ↦ rw (e, g) (result_of remove, refl) | inr g ↦ rw (e, g) (r, f) ]

-- On every key and value, the rules that any term gives as the option come to a decision: no
-- timestamp is read past the end of the key.
pub apply_rules-parse_rules :
    (clock : ℕ → ℕ) (key value : Bytes) (t : Term)
    → (r : FilterResult) × (apply_rules clock 0 key value (parse_rules t) ≡ some r)
apply_rules-parse_rules clock key value t =
    rules_total clock 0 key value (parse_rules t) (parse_rules-All t)
