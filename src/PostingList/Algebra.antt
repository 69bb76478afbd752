-- ===== src/PostingList/Algebra.antt =====
-- Intersection, union and difference of posting lists, and the exact count of an intersection.
use erlang_rocksdb.Prelude.{
  ◌+◌, ◌≡◌, refl, ap, ◌∙◌, inl, inr, Bool, not, ◌||◌, ◌&&◌, none, List, [], ◌∷◌, ◌++◌, append_assoc,
  length, length-append, arith, if◌then◌else◌, Bool-cases, All,
}
use erlang_rocksdb.Bytes.{Bytes}
use erlang_rocksdb.Bytes.Order.{Lt, eqb_iff}
use erlang_rocksdb.Ordered.Set
use erlang_rocksdb.Ordered.Set.{
  Ascending, contains, insert_all, insert-Ascending, contains-insert, contains-insert_all,
  insert_all-Ascending, insert_last,
}
use erlang_rocksdb.Term.{binary}
use erlang_rocksdb.PostingList.Format.{Build, serialize_v2}
use erlang_rocksdb.PostingList.Parse.{parse_posting_list}
use erlang_rocksdb.PostingList.RoundTrip.{Fits, parse_posting_list-serialize_v2}
use erlang_rocksdb.PostingList.Keys.{parse_posting_list-Ascending}
use erlang_rocksdb.PostingList.Nif.{
  Reply, bytes, number, insert_common, insert_absent, count_common, exact_count, common_count,
  posting_list_intersection, posting_list_union, posting_list_difference,
  posting_list_intersection_count,
}

contains-insert_common :
    (ks₂ s ks : List Bytes) (k : Bytes)
    → contains (insert_common ks₂ s ks) k ≡ (contains s k || (contains ks k && contains ks₂ k))
unfolding contains insert_common
contains-insert_common ks₂ s [] k = ground arith
contains-insert_common ks₂ s (j ∷ ks) k = ground (
  arith,
  contains-insert_common ks₂ (if contains ks₂ j then Set.insert j s else s) ks k,
  contains-insert j s k,
  (eqb_iff j k).0,
)

contains-insert_absent :
    (ks₂ s ks : List Bytes) (k : Bytes)
    → contains (insert_absent ks₂ s ks) k
      ≡ (contains s k || (contains ks k && not (contains ks₂ k)))
unfolding contains insert_absent
contains-insert_absent ks₂ s [] k = ground arith
contains-insert_absent ks₂ s (j ∷ ks) k = ground (
  arith,
  contains-insert_absent ks₂ (if contains ks₂ j then s else Set.insert j s) ks k,
  contains-insert j s k,
  (eqb_iff j k).0,
)

insert_common-Ascending : (ks₂ s ks : List Bytes) → Ascending s → Ascending (insert_common ks₂ s ks)
unfolding insert_common
insert_common-Ascending ks₂ s [] h = h
insert_common-Ascending ks₂ s (j ∷ ks) h = elim (Bool-cases (contains ks₂ j)) [
  | inl e ↦
      rw (e, insert_common)
        (insert_common-Ascending ks₂ (Set.insert j s) ks (insert-Ascending j s h))
  | inr e ↦ rw (e, insert_common) (insert_common-Ascending ks₂ s ks h)
]

insert_absent-Ascending : (ks₂ s ks : List Bytes) → Ascending s → Ascending (insert_absent ks₂ s ks)
unfolding insert_absent
insert_absent-Ascending ks₂ s [] h = h
insert_absent-Ascending ks₂ s (j ∷ ks) h = elim (Bool-cases (contains ks₂ j)) [
  | inl e ↦ rw (e, insert_absent) (insert_absent-Ascending ks₂ s ks h)
  | inr e ↦
      rw (e, insert_absent)
        (insert_absent-Ascending ks₂ (Set.insert j s) ks (insert-Ascending j s h))
]

module _ (a b : Bytes) where
  abbrev pub common_keys : List Bytes
  common_keys = insert_common (parse_posting_list b) [] (parse_posting_list a)

  abbrev pub all_keys : List Bytes
  all_keys = insert_all (parse_posting_list a) (parse_posting_list b)

  abbrev pub remaining_keys : List Bytes
  remaining_keys = insert_absent (parse_posting_list b) [] (parse_posting_list a)

module _ (build : Build) (a b : Bytes) where
  -- A value is written whose keys are those that `has` says.
  abbrev pub Writes : Reply → (Bytes → Bool) → Type 0
  Writes reply has =
      (value : Bytes) × (reply ≡ bytes value)
      × ((k : Bytes) → contains (parse_posting_list value) k ≡ has k)

  written :
      (ks : List Bytes) (has : Bytes → Bool)
      → Ascending ks
      → Fits build ks
      → ((k : Bytes) → contains ks k ≡ has k)
      → Writes (bytes (serialize_v2 build ks)) has
  written ks has h fits same = (
    serialize_v2 build ks,
    refl,
    λ k. ap (λ js. contains js k) (parse_posting_list-serialize_v2 fits h) ∙ same k,
  )

  -- If the common keys fit the format, `posting_list_intersection` replies with a value from which
  -- exactly the keys that both lists have are read back.
  pub posting_list_intersection-keys :
      Fits build (common_keys a b)
      → Writes
          (posting_list_intersection build (binary a ∷ binary b ∷ []))
          (λ k. contains (parse_posting_list a) k && contains (parse_posting_list b) k)
  unfolding posting_list_intersection contains
  posting_list_intersection-keys fits =
      written (common_keys a b) _
        (insert_common-Ascending (parse_posting_list b) [] (parse_posting_list a) tt) fits
        λ k. contains-insert_common (parse_posting_list b) [] (parse_posting_list a) k

  -- If the keys of both lists together fit the format, `posting_list_union` replies with a value from
  -- which exactly the keys that either list has are read back.
  pub posting_list_union-keys :
      Fits build (all_keys a b)
      → Writes
          (posting_list_union build (binary a ∷ binary b ∷ []))
          (λ k. contains (parse_posting_list a) k || contains (parse_posting_list b) k)
  unfolding posting_list_union
  posting_list_union-keys fits =
      written (all_keys a b) _
        (insert_all-Ascending (parse_posting_list b) (parse_posting_list a)
          (parse_posting_list-Ascending a))
        fits λ k. contains-insert_all (parse_posting_list b) (parse_posting_list a) k

  -- If the keys of the first list that the second lacks fit the format, `posting_list_difference`
  -- replies with a value from which exactly those are read back.
  pub posting_list_difference-keys :
      Fits build (remaining_keys a b)
      → Writes
          (posting_list_difference build (binary a ∷ binary b ∷ []))
          (λ k. contains (parse_posting_list a) k && not (contains (parse_posting_list b) k))
  unfolding posting_list_difference contains
  posting_list_difference-keys fits =
      written (remaining_keys a b) _
        (insert_absent-Ascending (parse_posting_list b) [] (parse_posting_list a) tt) fits
        λ k. contains-insert_absent (parse_posting_list b) [] (parse_posting_list a) k

All-drop_middle :
    (i j : Bytes) (s ks : List Bytes) → All (Lt i) (s ++ j ∷ ks) → All (Lt i) (s ++ ks)
All-drop_middle i j [] ks h = h.1
All-drop_middle i j (x ∷ s) ks h = (h.0, All-drop_middle i j s ks h.1)

drop_middle : (s ks : List Bytes) (j : Bytes) → Ascending (s ++ j ∷ ks) → Ascending (s ++ ks)
drop_middle [] ks j h = h.1
drop_middle (i ∷ s) ks j h = (All-drop_middle i j s ks h.0, drop_middle s ks j h.1)

length-insert_common :
    (ks₂ s ks : List Bytes)
    → Ascending (s ++ ks)
    → length (insert_common ks₂ s ks) ≡ length s + count_common ks₂ ks
unfolding insert_common count_common
length-insert_common ks₂ s [] h = omega arith
length-insert_common ks₂ s (j ∷ ks) h = elim (Bool-cases (contains ks₂ j)) [
  | inl e ↦
      rw (e, insert_common, count_common)
        (rw (insert_last j s ks h) (
          omega (
            arith,
            length-insert_common ks₂ (s ++ j ∷ []) ks (rw (append_assoc s (j ∷ []) ks) h),
            length-append s (j ∷ []),
          )))
  | inr e ↦
      rw (e, insert_common, count_common)
        (omega (arith, length-insert_common ks₂ s ks (drop_middle s ks j h)))
]

-- In a build without CRoaring `posting_list_intersection_count` replies with the number of keys in the
-- intersection.
pub posting_list_intersection_count-length :
    (a b : Bytes)
    → posting_list_intersection_count none (binary a ∷ binary b ∷ [])
      ≡ number (length (common_keys a b))
unfolding posting_list_intersection_count common_count exact_count
posting_list_intersection_count-length a b = ap number (
    omega (
      arith,
      length-insert_common (parse_posting_list b) [] (parse_posting_list a)
          (parse_posting_list-Ascending a),
    ))
