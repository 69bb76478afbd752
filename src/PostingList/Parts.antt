-- ===== src/PostingList/Parts.antt =====
-- Merges that RocksDB does in parts: a full merge on top of another, and a partial merge of operands
-- whose result is an operand later.
use erlang_rocksdb.Prelude.{
  ◌≡◌, refl, sym, ap, ap₂, ◌∙◌, ltb, Bool, true, false, ◌||◌, Option, none, some, List, [], ◌∷◌,
  ◌++◌, append-nil, append_assoc, foldl, length, arith, if◌then◌else◌, some_inj,
}
use erlang_rocksdb.Bytes.{Bytes}
use erlang_rocksdb.Ordered.Set.{contains}
use erlang_rocksdb.Ordered.Map
use erlang_rocksdb.Term.{Term}
use erlang_rocksdb.PostingList.Format.{
  v2, detect_version, Build, States, serialize_states, serialize_v2, parse_existing_value,
}
use erlang_rocksdb.PostingList.Active.{is_active, find-insert_active}
use erlang_rocksdb.PostingList.Operator.{
  parse_operand, merge_operand, existing_states, full_merge_v2, partial_merge_multi,
}
use erlang_rocksdb.PostingList.Parse.{parse_posting_list}
use erlang_rocksdb.PostingList.RoundTrip.{
  Fits, detect_version-serialize_v2, parse_existing_value-serialize_v2,
}
use erlang_rocksdb.PostingList.History.{
  last_write, history, existing_writes, operands_writes, find-merged_states,
}
use erlang_rocksdb.PostingList.Merge.{
  outcome, is_active-last_write_from, last_write-append, merged_keys, contains-merged_keys,
  full_merge_v2_canonical, full_merge_v2-last_write,
}

module _ (binary_to_term : Bytes → Option Term) (build : Build) where
  -- What the last of the operands' writes makes of a key.
  pub is_active-history :
      (e : Option Bytes) (os : List Bytes) (k : Bytes)
      → is_active (last_write (history binary_to_term e os) k)
        ≡ outcome
            (last_write (operands_writes binary_to_term os) k)
            (is_active (last_write (existing_writes e) k))
  is_active-history e os k =
      ap is_active
        (last_write-append (existing_writes e) (operands_writes binary_to_term os) none k)
      ∙ is_active-last_write_from (last_write (existing_writes e) k)
          (operands_writes binary_to_term os) k

  operands_writes-append :
      (os os' : List Bytes)
      → operands_writes binary_to_term (os ++ os')
        ≡ operands_writes binary_to_term os ++ operands_writes binary_to_term os'
  unfolding operands_writes
  operands_writes-append [] os' = refl
  operands_writes-append (o ∷ os) os' = rw (operands_writes-append os os', append_assoc)

  history-append :
      (e : Option Bytes) (os os' : List Bytes) (k : Bytes)
      → is_active (last_write (history binary_to_term e (os ++ os')) k)
        ≡ outcome
            (last_write (operands_writes binary_to_term os') k)
            (is_active (last_write (history binary_to_term e os) k))
  history-append e os os' k =
      ap (λ ws. is_active (last_write ws k))
        (ap (◌++◌ (existing_writes e)) (operands_writes-append os os')
          ∙ sym (
              append_assoc (existing_writes e) (operands_writes binary_to_term os)
                (operands_writes binary_to_term os')))
      ∙ ap is_active (
          last_write-append (history binary_to_term e os) (operands_writes binary_to_term os') none
            k)
      ∙ is_active-last_write_from (last_write (history binary_to_term e os) k)
          (operands_writes binary_to_term os') k

  existing_states-serialize_v2 :
      (ks : List Bytes)
      → existing_states binary_to_term (some (serialize_v2 build ks))
        ≡ parse_existing_value (serialize_v2 build ks) []
  unfolding existing_states serialize_v2
  existing_states-serialize_v2 ks = refl

  no_operands : (e : Option Bytes) → existing_writes e ≡ history binary_to_term e []
  unfolding operands_writes
  no_operands e = sym (append-nil (existing_writes e))

  active_or :
      (ks : List Bytes) (st : States) (k : Bytes)
      → is_active (Map.find (foldl (λ a j. Map.insert j false a) st ks) k)
        ≡ (contains ks k || is_active (Map.find st k))
  active_or ks st k = ap is_active (find-insert_active ks st k) ∙ ground arith

  -- What is stored by a merge has the keys of that merge.
  stored :
      (ks : List Bytes) (k : Bytes)
      → Fits build ks
      → is_active (last_write (existing_writes (some (serialize_v2 build ks))) k) ≡ contains ks k
  unfolding Map.find
  stored ks k fits =
      ap (λ ws. is_active (last_write ws k)) (no_operands (some (serialize_v2 build ks)))
      ∙ ap is_active (sym (find-merged_states binary_to_term (some (serialize_v2 build ks)) [] k))
      ∙ ap (λ st. is_active (Map.find st k))
          (existing_states-serialize_v2 ks ∙ parse_existing_value-serialize_v2 fits [])
      ∙ active_or ks [] k
      ∙ ground arith

  -- If a full merge of `os` over `e`, into keys whose sizes fit the format, gives a value, then a full
  -- merge of `os'` over that value gives the same bytes as one merge of `os` and then `os'` over `e`.
  pub full_merge_v2-rounds :
      (e : Option Bytes) (os os' : List Bytes) {value : Bytes}
      → Fits build (merged_keys binary_to_term build e os)
      → full_merge_v2 binary_to_term build e os ≡ some value
      → full_merge_v2 binary_to_term build (some value) os'
        ≡ full_merge_v2 binary_to_term build e (os ++ os')
  unfolding full_merge_v2 serialize_states
  full_merge_v2-rounds e os os' {value} fits h =
      ap (λ v. full_merge_v2 binary_to_term build (some v) os') (some_inj (sym h))
      ∙ full_merge_v2_canonical binary_to_term build _ e os' (os ++ os') λ k.
        is_active-history _ os' k
        ∙ ap (outcome (last_write (operands_writes binary_to_term os') k)) (
            stored (merged_keys binary_to_term build e os) k fits
            ∙ contains-merged_keys binary_to_term build e os k)
        ∙ sym (history-append e os os' k)

  -- A partial merge of fewer than two operands fails; else it is the full merge over no value.
  pub partial_merge_multi-full_merge_v2 :
      (os : List Bytes)
      → partial_merge_multi binary_to_term build os
        ≡ (if ltb (length os) 2 then none else full_merge_v2 binary_to_term build none os)
  unfolding partial_merge_multi full_merge_v2 existing_states
  partial_merge_multi-full_merge_v2 os = refl

  module _ (no_term : (d : Bytes) → detect_version d ≡ v2 → binary_to_term d ≡ none)
      (os : List Bytes) (fits : Fits build (merged_keys binary_to_term build none os))
      {value : Bytes} (merged : partial_merge_multi binary_to_term build os ≡ some value) where
    operand_value :
        (st : States) (ks : List Bytes)
        → merge_operand binary_to_term st (serialize_v2 build ks)
          ≡ parse_existing_value (serialize_v2 build ks) st
    unfolding merge_operand parse_operand
    operand_value st ks =
        rw (no_term (serialize_v2 build ks) (detect_version-serialize_v2 build ks), merge_operand)

    value-serialize_v2 : value ≡ serialize_v2 build (merged_keys binary_to_term build none os)
    unfolding partial_merge_multi existing_states serialize_states
    value-serialize_v2 = ground arith

    -- Let a partial merge of `os`, into keys whose sizes fit the format, give a value, and let no V2
    -- value decode as a term. Merged as an operand over `e`, that value leaves a key active exactly if
    -- the last write of `os` to the key is an addition or the key was active in `e`: the deletions of
    -- `os` are not in it.
    pub is_active-partial :
        (e : Option Bytes) (k : Bytes)
        → is_active (last_write (history binary_to_term e (value ∷ [])) k) ≡ (
            is_active (last_write (operands_writes binary_to_term os) k)
            || is_active (last_write (existing_writes e) k))
    unfolding Map.find operands_writes existing_writes
    is_active-partial e k =
        ap is_active (sym (find-merged_states binary_to_term e (value ∷ []) k))
        ∙ ap
            (λ v.
              is_active
                (Map.find (merge_operand binary_to_term (existing_states binary_to_term e) v) k))
            value-serialize_v2
        ∙ ap (λ st. is_active (Map.find st k))
            (operand_value (existing_states binary_to_term e)
                (merged_keys binary_to_term build none os)
              ∙ parse_existing_value-serialize_v2 fits (existing_states binary_to_term e))
        ∙ active_or (merged_keys binary_to_term build none os) (existing_states binary_to_term e) k
        ∙ ap₂ ◌||◌ (contains-merged_keys binary_to_term build none os k) (
            ap is_active (find-merged_states binary_to_term e [] k)
            ∙ ap (λ ws. is_active (last_write ws k)) (sym (no_operands e)))

    -- Let a partial merge of `os`, into keys whose sizes fit the format, give a value, and let no V2
    -- value decode as a term. Merging that value as an operand over `e` gives the same bytes as
    -- merging `os` over `e`, if no key whose last write in `os` is a deletion is active in `e`.
    pub full_merge_v2-partial_merge_multi :
        (e : Option Bytes)
        → ((k : Bytes)
            → last_write (operands_writes binary_to_term os) k ≡ some true
            → is_active (last_write (existing_writes e) k) ≡ false)
        → full_merge_v2 binary_to_term build e (value ∷ [])
          ≡ full_merge_v2 binary_to_term build e os
    full_merge_v2-partial_merge_multi e absent =
        full_merge_v2_canonical binary_to_term build e e (value ∷ []) os λ k.
          is_active-partial e k
          ∙ agree (last_write (operands_writes binary_to_term os) k) (absent k)
          ∙ sym (is_active-history e os k)
      where
        agree :
            (w : Option Bool) {b : Bool}
            → (w ≡ some true → b ≡ false)
            → (is_active w || b) ≡ outcome w b
        agree none h = refl
        agree (some false) h = refl
        agree (some true) h = h refl

    -- Let a partial merge of `os`, into keys whose sizes fit the format, give a value, and let no V2
    -- value decode as a term. If a key is active in `e` and its last write in `os` is a deletion, then
    -- it is not read from the full merge of `os` over `e`, and it is read from the full merge of that
    -- value over `e`, where the keys of both merges fit the format.
    pub deletion_lost :
        (e : Option Bytes) (k : Bytes) {whole parts : Bytes}
        → Fits build (merged_keys binary_to_term build e os)
        → Fits build (merged_keys binary_to_term build e (value ∷ []))
        → full_merge_v2 binary_to_term build e os ≡ some whole
        → full_merge_v2 binary_to_term build e (value ∷ []) ≡ some parts
        → last_write (operands_writes binary_to_term os) k ≡ some true
        → is_active (last_write (existing_writes e) k) ≡ true
        → (contains (parse_posting_list whole) k ≡ false)
          × (contains (parse_posting_list parts) k ≡ true)
    deletion_lost e k fw fp hw hp deleted was =
        let (w, ew, cw) = full_merge_v2-last_write binary_to_term build e os fw in
        let (p, ep, cp) = full_merge_v2-last_write binary_to_term build e (value ∷ []) fp in
        (
          ap (λ v. contains (parse_posting_list v) k) (some_inj (sym hw ∙ ew))
              ∙ cw k
              ∙ is_active-history e os k
              ∙ ap (λ o. outcome o (is_active (last_write (existing_writes e) k))) deleted,
          ap (λ v. contains (parse_posting_list v) k) (some_inj (sym hp ∙ ep))
              ∙ cp k
              ∙ is_active-partial e k
              ∙ ap₂ (λ o b. is_active o || b) deleted was,
        )
