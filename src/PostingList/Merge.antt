-- ===== src/PostingList/Merge.antt =====
-- The merge operator against its meaning: which keys a merged value has, when two merges agree, and
-- what becomes of a merge that RocksDB does in parts.
use erlang_rocksdb.Prelude.{
  ◌≡◌, refl, sym, ap, ◌∙◌, inl, inr, Bool, not, Option, none, some, List, [], ◌∷◌, ◌++◌, arith,
  if◌then◌else◌, Bool-cases,
}
use erlang_rocksdb.Bytes.{Bytes}
use erlang_rocksdb.Bytes.Order.{eqb}
use erlang_rocksdb.Ordered.Set.{Ascending, contains}
use erlang_rocksdb.Ordered.Extensional.{Ascending-ext}
use erlang_rocksdb.Term.{Term}
use erlang_rocksdb.PostingList.Format.{Build, active_keys, serialize_states, serialize_v2}
use erlang_rocksdb.PostingList.Active.{is_active, active_keys-Ascending, contains-active_keys}
use erlang_rocksdb.PostingList.Operator.{full_merge_v2}
use erlang_rocksdb.PostingList.Parse.{parse_posting_list}
use erlang_rocksdb.PostingList.RoundTrip.{Fits, parse_posting_list-serialize_v2}
use erlang_rocksdb.PostingList.History.{
  Write, last_write, last_write_from, history, merged_states, find-merged_states,
  merged_states-Ascending,
}

-- What the last of some writes makes of a key that was active or not before.
abbrev pub outcome : Option Bool → Bool → Bool
outcome none before = before
outcome (some is_tombstone) before = not is_tombstone

abbrev or_before : Option Bool → Option Bool → Option Bool
or_before none before = before
or_before (some is_tombstone) before = some is_tombstone

last_write_from-or :
    (before : Option Bool) (ws : List Write) (k : Bytes)
    → last_write_from before ws k ≡ or_before (last_write ws k) before
last_write_from-or before [] k = refl
last_write_from-or before ((key, t) ∷ ws) k = elim (Bool-cases (eqb key k)) [
  | inr e ↦ rw e (last_write_from-or before ws k)
  | inl e ↦ rw e (ground (arith, last_write_from-or (some t) ws k))
]

pub is_active-last_write_from :
    (before : Option Bool) (ws : List Write) (k : Bytes)
    → is_active (last_write_from before ws k) ≡ outcome (last_write ws k) (is_active before)
is_active-last_write_from before ws k = ground (arith, last_write_from-or before ws k)

pub last_write-append :
    (vs ws : List Write) (before : Option Bool) (k : Bytes)
    → last_write_from before (vs ++ ws) k ≡ last_write_from (last_write_from before vs k) ws k
last_write-append [] ws before k = refl
last_write-append ((key, t) ∷ vs) ws before k =
    last_write-append vs ws (if eqb key k then some t else before) k

module _ (binary_to_term : Bytes → Option Term) (build : Build) where
  -- The keys of a merge, in the order in which they are written.
  abbrev pub merged_keys : Option Bytes → List Bytes → List Bytes
  merged_keys existing os = active_keys (merged_states binary_to_term existing os)

  pub contains-merged_keys :
      (existing : Option Bytes) (os : List Bytes) (k : Bytes)
      → contains (merged_keys existing os) k
        ≡ is_active (last_write (history binary_to_term existing os) k)
  contains-merged_keys existing os k =
      contains-active_keys (merged_states binary_to_term existing os) k
        (merged_states-Ascending binary_to_term existing os)
      ∙ ap is_active (find-merged_states binary_to_term existing os k)

  pub merged_keys-Ascending :
      (existing : Option Bytes) (os : List Bytes) → Ascending (merged_keys existing os)
  merged_keys-Ascending existing os =
      active_keys-Ascending (merged_states binary_to_term existing os)
        (merged_states-Ascending binary_to_term existing os)

  -- A full merge into keys whose number and sizes, and the size of whose bitmap, fit 32 bits returns a
  -- value, and a key is read back from that value exactly if the last write to it (in the stored
  -- value, then in the operands in order) is an addition.
  pub full_merge_v2-last_write :
      (existing : Option Bytes) (os : List Bytes)
      → Fits build (merged_keys existing os)
      → (value : Bytes) × (full_merge_v2 binary_to_term build existing os ≡ some value)
        × ((k : Bytes)
            → contains (parse_posting_list value) k
              ≡ is_active (last_write (history binary_to_term existing os) k))
  unfolding full_merge_v2 serialize_states
  full_merge_v2-last_write existing os fits = (
    serialize_v2 build (merged_keys existing os),
    refl,
    λ k.
        ap (λ ks. contains ks k)
          (parse_posting_list-serialize_v2 fits (merged_keys-Ascending existing os))
        ∙ contains-merged_keys existing os k,
  )

  same_keys :
      (e e' : Option Bytes) (os os' : List Bytes)
      → ((k : Bytes) → contains (merged_keys e os) k ≡ contains (merged_keys e' os') k)
      → full_merge_v2 binary_to_term build e os ≡ full_merge_v2 binary_to_term build e' os'
  unfolding full_merge_v2 serialize_states
  same_keys e e' os os' h =
      ap (λ ks. some (serialize_v2 build ks))
        (Ascending-ext (merged_keys e os) (merged_keys e' os') (merged_keys-Ascending e os)
          (merged_keys-Ascending e' os') h)

  -- Two full merges give the same bytes if after their writes the same keys are active, whatever the
  -- formats, the order and the number of the writes were.
  pub full_merge_v2_canonical :
      (e e' : Option Bytes) (os os' : List Bytes)
      → ((k : Bytes)
          → is_active (last_write (history binary_to_term e os) k)
            ≡ is_active (last_write (history binary_to_term e' os') k))
      → full_merge_v2 binary_to_term build e os ≡ full_merge_v2 binary_to_term build e' os'
  full_merge_v2_canonical e e' os os' h =
      same_keys e e' os os'
        λ k. contains-merged_keys e os k ∙ h k ∙ sym (contains-merged_keys e' os' k)
