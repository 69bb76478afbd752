-- ===== src/CompactionFilter/Outcome.antt =====
-- `ApplyRules` of c_src/compaction_filter.cc: the pair is removed exactly when some rule says so.
use erlang_rocksdb.Prelude.{
  ℕ, ◌+◌, ◌%◌, ◌^◌, ◌<◌, ◌≤◌, ◌≡◌, refl, ◌↔◌, ◌⊎◌, inl, inr, Bool, true, false, ltb, leb, some,
  List, [], ◌∷◌, length, arith, Bool-cases, All,
}
use erlang_rocksdb.Bytes.{Bytes, IsBytes}
use erlang_rocksdb.CompactionFilter.{
  keep, remove, result_of, RuleType, key_prefix, key_suffix, key_contains, value_empty,
  value_prefix, ttl_from_key, always, FilterRule,
}
use erlang_rocksdb.CompactionFilter.Rules.{check_ttl, removes, apply_rules, is_empty}
use erlang_rocksdb.CompactionFilter.Matching.{
  StartsWith, EndsWith, Contains, starts_with-StartsWith, ends_with-EndsWith, found-Contains,
}
use erlang_rocksdb.CompactionFilter.Expiry.{timestamp_at, check_ttl_short, check_ttl-timestamp_at}

-- The key holds a timestamp, and its time to live is over.
pub Expired : ℕ → Bytes → FilterRule → Type 0
Expired now key rule =
    (FilterRule.offset rule + FilterRule.length rule ≤ length key)
    × (timestamp_at (FilterRule.offset rule) (FilterRule.length rule) key
          + FilterRule.ttl_seconds rule
        < now)

-- What c_src/compaction_filter.h says of each type.
pub MatchesAs : RuleType → ℕ → Bytes → Bytes → FilterRule → Type 0
MatchesAs key_prefix now key value rule = StartsWith key (FilterRule.pattern rule)
MatchesAs key_suffix now key value rule = EndsWith key (FilterRule.pattern rule)
MatchesAs key_contains now key value rule = Contains key (FilterRule.pattern rule)
MatchesAs value_empty now key value rule = value ≡ []
MatchesAs value_prefix now key value rule = StartsWith value (FilterRule.pattern rule)
MatchesAs ttl_from_key now key value rule = Expired now key rule
MatchesAs always now key value rule = Unit {0}

-- The sums of the rule fit 64 bits on this key.
unfoldable pub HasRoom : Bytes → FilterRule → Type 0
HasRoom key rule =
    (FilterRule.offset rule + FilterRule.length rule < 2 ^ 64)
    × (timestamp_at (FilterRule.offset rule) (FilterRule.length rule) key
          + FilterRule.ttl_seconds rule
        < 2 ^ 64)

by_test :
    {P : Type 0} (b : Bool)
    → (b ≡ true) ↔ P
    → ((some b ≡ some true) × P) ⊎ ((some b ≡ some false) × ¬ P)
by_test true h = inl (refl, h.0 refl)
by_test false h = inr (refl, λ p. false≢true (h.1 p))
  where
    false≢true : false ≡ true → ⊥
    false≢true e = cc

expired_test :
    (now key_size start sum : ℕ)
    → start ≤ key_size
    → sum < 2 ^ 64
    → (ltb (sum % 2 ^ 64) now ≡ true) ↔ ((start ≤ key_size) × (sum < now))
expired_test now key_size start sum h hs = (λ e. (h, ground arith), λ (l, e). ground arith)

module _ (now : ℕ) (key value : Bytes) (bytes : IsBytes key) (rule : FilterRule)
    (room : HasRoom key rule) where
  check_ttl-Expired :
      ((check_ttl now key
            (FilterRule.offset rule)
            (FilterRule.length rule)
            (FilterRule.ttl_seconds rule)
          ≡ some true)
        × Expired now key rule)
      ⊎ ((check_ttl now key
              (FilterRule.offset rule)
              (FilterRule.length rule)
              (FilterRule.ttl_seconds rule)
            ≡ some false)
          × ¬ Expired now key rule)
  unfolding HasRoom Expired
  check_ttl-Expired =
      elim (Bool-cases (leb (FilterRule.offset rule + FilterRule.length rule) (length key))) [
        | inl e ↦
            rw
              (check_ttl-timestamp_at now (FilterRule.offset rule) (FilterRule.length rule)
                (FilterRule.ttl_seconds rule) key bytes room.0 (ground arith))
              (by_test _ (
                expired_test now (length key) (FilterRule.offset rule + FilterRule.length rule) _
                  (ground arith) room.1))
        | inr e ↦ inr (
          check_ttl_short now (FilterRule.offset rule) (FilterRule.length rule)
              (FilterRule.ttl_seconds rule) key bytes room.0 (ground arith),
          λ h. absurd (ground arith),
        )
      ]

  is_empty_test : (v : Bytes) → (is_empty v ≡ true) ↔ (v ≡ [])
  is_empty_test [] = (λ e. refl, λ e. refl)
  is_empty_test (c ∷ v) = (λ e. cc, λ e. cc)

  removes-MatchesAs :
      (type : RuleType)
      → ((removes now key value type rule ≡ some true) × MatchesAs type now key value rule)
        ⊎ ((removes now key value type rule ≡ some false) × ¬ MatchesAs type now key value rule)
  unfolding removes MatchesAs
  removes-MatchesAs key_prefix = by_test _ (starts_with-StartsWith key (FilterRule.pattern rule))
  removes-MatchesAs key_suffix = by_test _ (ends_with-EndsWith key (FilterRule.pattern rule))
  removes-MatchesAs key_contains = by_test _ (found-Contains key (FilterRule.pattern rule))
  removes-MatchesAs value_empty = by_test _ (is_empty_test value)
  removes-MatchesAs value_prefix =
      by_test _ (starts_with-StartsWith value (FilterRule.pattern rule))
  removes-MatchesAs ttl_from_key = check_ttl-Expired
  removes-MatchesAs always = inl (refl, tt)

-- Some rule matches the pair, at the clock's reading for it.
pub AnyMatches : (ℕ → ℕ) → ℕ → Bytes → Bytes → List FilterRule → Type 0
AnyMatches clock i key value [] = ⊥
AnyMatches clock i key value (rule ∷ rules) =
    MatchesAs (FilterRule.type rule) (clock i) key value rule
    ⊎ AnyMatches clock (i + 1) key value rules

module _ (clock : ℕ → ℕ) (key value : Bytes) (bytes : IsBytes key) where
  -- On a key of bytes on which the sums of all rules fit 64 bits, the loop over the rules returns:
  -- remove if some rule matches the pair as its type says, keep if none does.
  pub apply_rules-AnyMatches :
      (i : ℕ) (rules : List FilterRule)
      → All (HasRoom key) rules
      → ((apply_rules clock i key value rules ≡ some (result_of remove))
          × AnyMatches clock i key value rules)
        ⊎ ((apply_rules clock i key value rules ≡ some (result_of keep))
            × ¬ AnyMatches clock i key value rules)
  unfolding apply_rules AnyMatches
  apply_rules-AnyMatches i [] room = inr (refl, λ h. h)
  apply_rules-AnyMatches i (rule ∷ rules) room =
      elim (removes-MatchesAs (clock i) key value bytes rule room.0 (FilterRule.type rule)) [
        | inl (e, m) ↦ inl (rw (e) refl, inl m)
        | inr (e, n) ↦ rw (e) (elim (apply_rules-AnyMatches (i + 1) rules room.1) [
          | inl (f, m) ↦ inl (f, inr m)
          | inr (f, k) ↦ inr (f, λ h. elim h [ inl a ↦ n a | inr b ↦ k b ])
        ])
      ]
