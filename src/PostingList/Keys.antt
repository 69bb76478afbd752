-- ===== src/PostingList/Keys.antt =====
-- What the readers say of any value, well formed or not: its keys, and single questions about them.
use erlang_rocksdb.Prelude.{
  ℕ, zero, suc, ◌≡◌, refl, sym, ap, subst, ◌∙◌, inl, inr, true, false, List, [], ◌∷◌, length, arith,
  Option-cases, All,
}
use erlang_rocksdb.Bytes.{Bytes}
use erlang_rocksdb.Ordered.Set
use erlang_rocksdb.Ordered.Set.{
  Ascending, contains, insert_all, insert-Ascending, contains-insert, insert_all-Ascending,
  insert_all-append,
}
use erlang_rocksdb.Ordered.Map
use erlang_rocksdb.Ordered.Map.{keys, insert-cases, keys-insert}
use erlang_rocksdb.PostingList.Format.{
  States, Version, v1, v2, detect_version, take_header, take_key, v1_loop, v2_loop, active_keys,
  parse_existing_value, parse_v1_value, parse_v2_value,
}
use erlang_rocksdb.PostingList.Active.{is_active, contains-active_keys, active_keys-Ascending}
use erlang_rocksdb.PostingList.History.{
  value_writes, last_write, parse_existing_value-writes, find-apply_writes, apply_writes-Ascending,
}
use erlang_rocksdb.PostingList.Parse.{
  v1_states, insert_active, parse_posting_list_v1, parse_posting_list_v2, parse_posting_list,
}

-- Inserting the active entries of a map in turn inserts its active keys.
insert_active-active_keys :
    (m : States) (s : List Bytes) → insert_active s m ≡ insert_all s (active_keys m)
unfolding insert_active active_keys
insert_active-active_keys [] s = refl
insert_active-active_keys ((k, true) ∷ m) s = insert_active-active_keys m s
insert_active-active_keys ((k, false) ∷ m) s = insert_active-active_keys m (Set.insert k s)

abbrev AllActive : States → Type 0
AllActive = All (λ e. e.1 ≡ false)

insert-AllActive : (k : Bytes) (m : States) → AllActive m → AllActive (Map.insert k false m)
unfolding Map.insert
insert-AllActive k [] h = (refl, tt)
insert-AllActive k ((j, t) ∷ m) h = elim (insert-cases k false j t m) [
  | inl (e, _) ↦ subst AllActive (sym e) (refl, h)
  | inr (inl (_, e)) ↦ subst AllActive (sym e) (refl, h.1)
  | inr (inr (e, _)) ↦ subst AllActive (sym e) (h.0, insert-AllActive k m h.1)
]

v2_loop-AllActive :
    (n : ℕ) (d : Bytes) (m : States)
    → AllActive m
    → AllActive (v2_loop (λ key st. Map.insert key false st) n d m)
unfolding v2_loop
v2_loop-AllActive zero d m h = h
v2_loop-AllActive (suc n) d m h = elim (Option-cases (take_key d)) [
  | inl e ↦ rw (e, v2_loop) h
  | inr ((key, rest), e) ↦
      rw (e, v2_loop) (v2_loop-AllActive n rest (Map.insert key false m) (insert-AllActive key m h))
]

active_keys-keys : (m : States) → AllActive m → active_keys m ≡ keys m
unfolding active_keys
active_keys-keys [] h = refl
active_keys-keys ((k, t) ∷ m) h = ground (arith, active_keys-keys m)

-- The loops over sets and over maps keep the same keys.
v2_loop-keys :
    (n : ℕ) (d : Bytes) (m : States)
    → v2_loop Set.insert n d (keys m) ≡ keys (v2_loop (λ key st. Map.insert key false st) n d m)
unfolding v2_loop
v2_loop-keys zero d m = refl
v2_loop-keys (suc n) d m = elim (Option-cases (take_key d)) [
  | inl e ↦ rw (e, v2_loop)
  | inr ((key, rest), e) ↦
      rw (e, v2_loop)
        (ap (v2_loop Set.insert n rest) (sym (keys-insert key false m))
          ∙ v2_loop-keys n rest (Map.insert key false m))
]

existing_Ascending : (d : Bytes) → Ascending (keys (parse_existing_value d []))
existing_Ascending d =
    rw (parse_existing_value-writes d []) (apply_writes-Ascending (value_writes d) [] tt)

v1-active_keys :
    (d : Bytes)
    → detect_version d ≡ v1
    → parse_posting_list d ≡ active_keys (parse_existing_value d [])
unfolding parse_posting_list parse_posting_list_v1 v1_states
v1-active_keys d e =
    rw (e, parse_posting_list)
      (insert_active-active_keys (v1_loop Map.insert (length d) d []) []
        ∙ insert_all-append _ []
            (active_keys-Ascending _ (subst (λ m. Ascending (keys m)) same (existing_Ascending d)))
        ∙ ap active_keys (sym same))
  where
    same : parse_existing_value d [] ≡ v1_loop Map.insert (length d) d []
    same = unfold parse_existing_value parse_v1_value in rw (e, parse_existing_value)

v2-active_keys :
    (d : Bytes)
    → detect_version d ≡ v2
    → parse_posting_list d ≡ active_keys (parse_existing_value d [])
unfolding parse_posting_list parse_posting_list_v2 parse_existing_value parse_v2_value active_keys
v2-active_keys d e = elim (Option-cases (take_header d)) [
  | inl h ↦
      rw (e, parse_posting_list, parse_existing_value)
        (rw (h, parse_posting_list_v2, parse_v2_value))
  | inr ((n, rest), h) ↦
      rw (e, parse_posting_list, parse_existing_value)
        (rw (h, parse_posting_list_v2, parse_v2_value)
          (v2_loop-keys n rest [] ∙ sym (active_keys-keys _ (v2_loop-AllActive n rest [] tt))))
]

-- The reader's keys are the active keys of the map that the merge operator reads.
pub parse_posting_list-active_keys :
    (d : Bytes) → parse_posting_list d ≡ active_keys (parse_existing_value d [])
parse_posting_list-active_keys d = by_version (detect_version d) refl
  where
    by_version :
        (v : Version)
        → detect_version d ≡ v
        → parse_posting_list d ≡ active_keys (parse_existing_value d [])
    by_version v1 e = v1-active_keys d e
    by_version v2 e = v2-active_keys d e

-- The keys that are read from any bytes ascend strictly, so none stands twice.
pub parse_posting_list-Ascending : (d : Bytes) → Ascending (parse_posting_list d)
parse_posting_list-Ascending d =
    rw (parse_posting_list-active_keys d) (active_keys-Ascending _ (existing_Ascending d))

-- A key is read exactly when the last write to it in the value's bytes is no tombstone.
pub contains-parse_posting_list :
    (d k : Bytes) → contains (parse_posting_list d) k ≡ is_active (last_write (value_writes d) k)
unfolding Map.find
contains-parse_posting_list d k =
    ap (λ ks. contains ks k) (parse_posting_list-active_keys d)
    ∙ contains-active_keys (parse_existing_value d []) k (existing_Ascending d)
    ∙ ap (λ m. is_active (Map.find m k)) (parse_existing_value-writes d [])
    ∙ ap is_active (find-apply_writes (value_writes d) [] k)
