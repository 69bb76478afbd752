-- ===== src/CompactionFilter/Rules.antt =====
-- `ErlangCompactionFilter::ApplyRules` and `CheckTTL` of c_src/compaction_filter.cc.
use erlang_rocksdb.Prelude.{
  ℕ, zero, suc, ◌+◌, ◌-◌, ◌*◌, ◌%◌, ◌^◌, Bool, true, false, ◌&&◌, ltb, leb, ◌==◌, Option, none,
  some, List, [], ◌∷◌, length, drop, ◌>>=◌, if◌then◌else◌,
}
use erlang_rocksdb.Bytes.{Bytes}
use erlang_rocksdb.CompactionFilter.{
  keep, remove, FilterResult, result_of, RuleType, key_prefix, key_suffix, key_contains,
  value_empty, value_prefix, ttl_from_key, always, FilterRule,
}

-- `operator==` of strings.
unfoldable pub equal : Bytes → Bytes → Bool
equal [] [] = true
equal (c ∷ s) (e ∷ t) = if c == e then equal s t else false
equal _ _ = false

-- `s.starts_with(pattern)`
unfoldable pub starts_with : Bytes → Bytes → Bool
starts_with s [] = true
starts_with [] (p ∷ ps) = false
starts_with (c ∷ s) (p ∷ ps) = c == p && starts_with s ps

-- The key is as long as the pattern at least, and its last bytes are the pattern.
unfoldable pub ends_with : Bytes → Bytes → Bool
ends_with key pattern =
    if leb (length pattern) (length key)
    then equal (drop (length key - length pattern) key) pattern
    else false

-- `s.find(pattern) != npos`
unfoldable pub found : Bytes → Bytes → Bool
found [] pattern = starts_with [] pattern
found (c ∷ s) pattern = if starts_with (c ∷ s) pattern then true else found s pattern

abbrev pub is_empty : Bytes → Bool
is_empty [] = true
is_empty (c ∷ s) = false

-- The loop over the timestamp's bytes; `none` is a read past the key. The shift leaves the low byte
-- free, so `|` adds.
unfoldable pub read_timestamp : ℕ → ℕ → Bytes → Option ℕ
read_timestamp zero timestamp data_ = some timestamp
read_timestamp (suc n) timestamp [] = none
read_timestamp (suc n) timestamp (b ∷ data_) =
    read_timestamp n (timestamp * 2 ^ 8 % 2 ^ 64 + b) data_

-- `i < length && i < 8`
abbrev pub timestamp_bytes : ℕ → ℕ
timestamp_bytes n = if ltb n 8 then n else 8

-- `now` is the clock in seconds. The sums wrap as `size_t` and `uint64_t` do.
unfoldable pub check_ttl : ℕ → Bytes → ℕ → ℕ → ℕ → Option Bool
check_ttl now key offset size ttl_seconds =
    if ltb (length key) ((offset + size) % 2 ^ 64) then some false else do
      timestamp ← read_timestamp (timestamp_bytes size) 0 (drop offset key)
      some (ltb ((timestamp + ttl_seconds) % 2 ^ 64) now)

-- One case of the switch: whether the rule removes the pair.
unfoldable pub removes : ℕ → Bytes → Bytes → RuleType → FilterRule → Option Bool
removes now key value key_prefix rule = some (starts_with key (FilterRule.pattern rule))
removes now key value key_suffix rule = some (ends_with key (FilterRule.pattern rule))
removes now key value key_contains rule = some (found key (FilterRule.pattern rule))
removes now key value value_empty rule = some (is_empty value)
removes now key value value_prefix rule = some (starts_with value (FilterRule.pattern rule))
removes now key value ttl_from_key rule =
    check_ttl now key (FilterRule.offset rule) (FilterRule.length rule)
      (FilterRule.ttl_seconds rule)
removes now key value always rule = some true

-- The clock is read again at each rule: `clock i` is its reading at rule `i`.
unfoldable pub apply_rules : (ℕ → ℕ) → ℕ → Bytes → Bytes → List FilterRule → Option FilterResult
apply_rules clock i key value [] = some (result_of keep)
apply_rules clock i key value (rule ∷ rules) = do
  removed ← removes (clock i) key value (FilterRule.type rule) rule
  if removed then some (result_of remove) else apply_rules clock (i + 1) key value rules
