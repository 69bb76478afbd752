-- ===== src/PostingList/History.antt =====
-- What a merge means: a history of writes, of which the last to a key counts.
use erlang_rocksdb.Prelude.{
  ℕ, zero, suc, ◌≡◌, refl, sym, ap, ◌∙◌, inl, inr, Bool, false, Option, none, some, List, [], ◌∷◌,
  ◌++◌, foldl, foldl-append, length, if◌then◌else◌, Option-cases,
}
use erlang_rocksdb.Bytes.{Bytes}
use erlang_rocksdb.Bytes.Order.{eqb}
use erlang_rocksdb.Ordered.Set.{Ascending}
use erlang_rocksdb.Ordered.Map
use erlang_rocksdb.Ordered.Map.{keys, find-insert, insert-Ascending-keys}
use erlang_rocksdb.Term.{Term}
use erlang_rocksdb.PostingList.Format.{
  States, Version, v1, v2, detect_version, take_entry, take_key, take_header, v1_loop, v2_loop,
  parse_v1_value, parse_v2_value, parse_existing_value,
}
use erlang_rocksdb.PostingList.Operator.{parse_operand, merge_operand, existing_states}

-- A write sets whether a key is a tombstone.
abbrev pub Write : Type 0
Write = Bytes × Bool

-- The last write to a key, or what was known before.
abbrev pub last_write_from : Option Bool → List Write → Bytes → Option Bool
last_write_from before [] k = before
last_write_from before ((key, t) ∷ ws) k =
    last_write_from (if eqb key k then some t else before) ws k

abbrev pub last_write : List Write → Bytes → Option Bool
last_write = last_write_from none

-- The entries of a V1 value, and the keys of a V2 value, in the order of their bytes.
unfoldable pub scan_v1 : ℕ → Bytes → List Write
scan_v1 zero d = []
scan_v1 (suc fuel) d = elim (take_entry d) [ none ↦ [] | some (w, rest) ↦ w ∷ scan_v1 fuel rest ]

unfoldable pub scan_v2 : ℕ → Bytes → List Write
scan_v2 zero d = []
scan_v2 (suc left) d = elim (take_key d) [
  | none ↦ []
  | some (key, rest) ↦ (key, false) ∷ scan_v2 left rest
]

unfoldable pub value_writes : Bytes → List Write
value_writes d = elim (detect_version d) [
  | v1 ↦ scan_v1 (length d) d
  | v2 ↦ elim (take_header d) [ none ↦ [] | some (count, rest) ↦ scan_v2 count rest ]
]

unfoldable pub existing_writes : Option Bytes → List Write
existing_writes none = []
existing_writes (some []) = []
existing_writes (some (b ∷ d)) = value_writes (b ∷ d)

abbrev pub apply_writes : States → List Write → States
apply_writes = foldl (λ st w. Map.insert w.0 w.1 st)

pub find-apply_writes :
    (ws : List Write) (st : States) (k : Bytes)
    → Map.find (apply_writes st ws) k ≡ last_write_from (Map.find st k) ws k
find-apply_writes [] st k = refl
find-apply_writes ((key, t) ∷ ws) st k =
    find-apply_writes ws (Map.insert key t st) k
    ∙ ap (λ o. last_write_from o ws k) (find-insert key t st k)

pub apply_writes-Ascending :
    (ws : List Write) (st : States) → Ascending (keys st) → Ascending (keys (apply_writes st ws))
apply_writes-Ascending [] st h = h
apply_writes-Ascending ((key, t) ∷ ws) st h =
    apply_writes-Ascending ws (Map.insert key t st) (insert-Ascending-keys key t st h)

-- The loops apply the writes that they scan.
pub v1_loop-scan :
    (fuel : ℕ) (d : Bytes) (st : States)
    → v1_loop Map.insert fuel d st ≡ apply_writes st (scan_v1 fuel d)
unfolding v1_loop scan_v1
v1_loop-scan zero d st = refl
v1_loop-scan (suc fuel) d st = elim (Option-cases (take_entry d)) [
  | inl e ↦ rw (e, v1_loop, scan_v1)
  | inr (((key, t), rest), e) ↦
      rw (e, v1_loop, scan_v1) (v1_loop-scan fuel rest (Map.insert key t st))
]

v2_loop-scan :
    (left : ℕ) (d : Bytes) (st : States)
    → v2_loop (λ key m. Map.insert key false m) left d st ≡ apply_writes st (scan_v2 left d)
unfolding v2_loop scan_v2
v2_loop-scan zero d st = refl
v2_loop-scan (suc left) d st = elim (Option-cases (take_key d)) [
  | inl e ↦ rw (e, v2_loop, scan_v2)
  | inr ((key, rest), e) ↦
      rw (e, v2_loop, scan_v2) (v2_loop-scan left rest (Map.insert key false st))
]

parse_v2_value-scan :
    (d : Bytes) (st : States)
    → parse_v2_value d st
      ≡ apply_writes st
          (elim (take_header d) [ none ↦ [] | some (count, rest) ↦ scan_v2 count rest ])
unfolding parse_v2_value
parse_v2_value-scan d st = elim (Option-cases (take_header d)) [
  | inl e ↦ rw (e, parse_v2_value)
  | inr ((count, rest), e) ↦ rw (e, parse_v2_value) (v2_loop-scan count rest st)
]

pub parse_existing_value-writes :
    (d : Bytes) (st : States) → parse_existing_value d st ≡ apply_writes st (value_writes d)
unfolding parse_existing_value parse_v1_value value_writes
parse_existing_value-writes d st = go (detect_version d) refl
  where
    go :
        (v : Version)
        → detect_version d ≡ v
        → parse_existing_value d st ≡ apply_writes st (value_writes d)
    go v1 e = rw (e, parse_existing_value, value_writes) (v1_loop-scan (length d) d st)
    go v2 e = rw (e, parse_existing_value, value_writes) (parse_v2_value-scan d st)

module _ (binary_to_term : Bytes → Option Term) where
  -- An operand writes one key if it is such a term, and else whatever it holds as a posting list.
  unfoldable pub operand_writes : Bytes → List Write
  operand_writes operand = elim (parse_operand binary_to_term operand) [
    | some w ↦ w ∷ []
    | none ↦ value_writes operand
  ]

  unfoldable pub operands_writes : List Bytes → List Write
  operands_writes [] = []
  operands_writes (o ∷ os) = operand_writes o ++ operands_writes os

  merge_operand-writes :
      (st : States) (o : Bytes)
      → merge_operand binary_to_term st o ≡ apply_writes st (operand_writes o)
  unfolding merge_operand operand_writes
  merge_operand-writes st o = elim (Option-cases (parse_operand binary_to_term o)) [
    | inl e ↦ rw (e, merge_operand, operand_writes) (parse_existing_value-writes o st)
    | inr (w, e) ↦ rw (e, merge_operand, operand_writes)
  ]

  pub merge_operands-writes :
      (os : List Bytes) (st : States)
      → foldl (merge_operand binary_to_term) st os ≡ apply_writes st (operands_writes os)
  unfolding operands_writes
  merge_operands-writes [] st = refl
  merge_operands-writes (o ∷ os) st =
      merge_operands-writes os (merge_operand binary_to_term st o)
      ∙ ap (λ s. apply_writes s (operands_writes os)) (merge_operand-writes st o)
      ∙ sym (foldl-append _ st (operand_writes o) (operands_writes os))

  -- The history of a merge: what is stored, then the operands in order.
  abbrev pub history : Option Bytes → List Bytes → List Write
  history existing os = existing_writes existing ++ operands_writes os

  abbrev pub merged_states : Option Bytes → List Bytes → States
  merged_states existing os =
      foldl (merge_operand binary_to_term) (existing_states binary_to_term existing) os

  existing_states-writes :
      (existing : Option Bytes)
      → existing_states binary_to_term existing ≡ apply_writes [] (existing_writes existing)
  unfolding existing_states existing_writes
  existing_states-writes none = refl
  existing_states-writes (some []) = refl
  existing_states-writes (some (b ∷ d)) = parse_existing_value-writes (b ∷ d) []

  merged_states-writes :
      (existing : Option Bytes) (os : List Bytes)
      → merged_states existing os ≡ apply_writes [] (history existing os)
  merged_states-writes existing os =
      merge_operands-writes os (existing_states binary_to_term existing)
      ∙ ap (λ s. apply_writes s (operands_writes os)) (existing_states-writes existing)
      ∙ sym (foldl-append _ [] (existing_writes existing) (operands_writes os))

  -- The map of a merge holds the last write to each key.
  pub find-merged_states :
      (existing : Option Bytes) (os : List Bytes) (k : Bytes)
      → Map.find (merged_states existing os) k ≡ last_write (history existing os) k
  unfolding Map.find
  find-merged_states existing os k =
      ap (λ s. Map.find s k) (merged_states-writes existing os)
      ∙ find-apply_writes (history existing os) [] k

  pub merged_states-Ascending :
      (existing : Option Bytes) (os : List Bytes) → Ascending (keys (merged_states existing os))
  merged_states-Ascending existing os =
      rw (merged_states-writes existing os) (apply_writes-Ascending (history existing os) [] tt)
