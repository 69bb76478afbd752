-- ===== src/PostingList/Active.antt =====
-- What the maps of a merge hold, and which of their keys are written.
use erlang_rocksdb.Prelude.{
  ◌≡◌, refl, inl, inr, Bool, true, false, not, Option, none, some, List, [], ◌∷◌, foldl, arith, All,
  if◌then◌else◌, Bool-cases,
}
use erlang_rocksdb.Bytes.{Bytes}
use erlang_rocksdb.Bytes.Order.{Lt, eqb, eqb_iff}
use erlang_rocksdb.Ordered.Set.{Ascending, contains, not-contains-All}
use erlang_rocksdb.Ordered.Map
use erlang_rocksdb.Ordered.Map.{keys}
use erlang_rocksdb.PostingList.Format.{States, active_keys}

-- What a lookup says of a key: present, and no tombstone.
abbrev pub is_active : Option Bool → Bool
is_active none = false
is_active (some is_tombstone) = not is_tombstone

All-active_keys {κ} : (P : Bytes → Type κ) (m : States) → All P (keys m) → All P (active_keys m)
unfolding active_keys
All-active_keys P [] h = tt
All-active_keys P ((k, true) ∷ m) h = All-active_keys P m h.1
All-active_keys P ((k, false) ∷ m) h = (h.0, All-active_keys P m h.1)

pub active_keys-Ascending : (m : States) → Ascending (keys m) → Ascending (active_keys m)
unfolding active_keys
active_keys-Ascending [] h = tt
active_keys-Ascending ((k, true) ∷ m) h = active_keys-Ascending m h.1
active_keys-Ascending ((k, false) ∷ m) h =
    (All-active_keys (Lt k) m h.0, active_keys-Ascending m h.1)

-- A key is written exactly when it is found and is no tombstone.
pub contains-active_keys :
    (m : States) (k : Bytes)
    → Ascending (keys m)
    → contains (active_keys m) k ≡ is_active (Map.find m k)
unfolding contains Map.find active_keys
contains-active_keys [] k h = refl
contains-active_keys ((j, true) ∷ m) k h = elim (Bool-cases (eqb j k)) [
  | inl e ↦
      rw e (
        rw (← (eqb_iff j k).0 e)
          (not-contains-All j (active_keys m) (All-active_keys (Lt j) m h.0)))
  | inr e ↦ rw e (contains-active_keys m k h.1)
]
contains-active_keys ((j, false) ∷ m) k h = ground (arith, contains-active_keys m k h.1)

-- Keys written as active into an empty map are the active keys, in order.
pub find-insert_active :
    (ks : List Bytes) (m : States) (k : Bytes)
    → Map.find (foldl (λ st key. Map.insert key false st) m ks) k
      ≡ (if contains ks k then some false else Map.find m k)
unfolding contains
find-insert_active [] m k = refl
find-insert_active (j ∷ ks) m k =
    ground (arith, find-insert_active ks (Map.insert j false m) k, Map.find-insert j false m k)
