-- ===== src/PostingList/Finds.antt =====
-- `posting_list_find` of c_src/posting_list_nif.cc, with tombstones.
use erlang_rocksdb.Prelude.{
  ℕ, zero, suc, ◌≡◌, refl, sym, ◌≢◌, subst, ap, ◌∙◌, inl, inr, Bool, true, false, Option, none,
  some, List, [], ◌∷◌, length, arith, if◌then◌else◌, Option-cases, All,
}
use erlang_rocksdb.Bytes.{Bytes}
use erlang_rocksdb.Bytes.Order.{eqb}
use erlang_rocksdb.Ordered.Set.{contains}
use erlang_rocksdb.Ordered.Map
use erlang_rocksdb.Term.{binary}
use erlang_rocksdb.PostingList.Format.{Version, v1, v2, detect_version, take_header, take_key}
use erlang_rocksdb.PostingList.Active.{is_active}
use erlang_rocksdb.PostingList.History.{
  Write, value_writes, last_write, last_write_from, scan_v1, scan_v2, find-apply_writes,
  v1_loop-scan,
}
use erlang_rocksdb.PostingList.Parse.{v1_states}
use erlang_rocksdb.PostingList.Keys.{contains-parse_posting_list}
use erlang_rocksdb.PostingList.Nif.{
  Reply, found, not_found, find_in, found_or_not, posting_list_find,
}
use erlang_rocksdb.PostingList.Replies.{v2_keys}

abbrev pub reply_of : Option Bool → Reply
reply_of none = not_found
reply_of (some is_tombstone) = found is_tombstone

last_write_active :
    (ws : List Write) (before : Option Bool) (k : Bytes)
    → All (λ w. w.1 ≡ false) ws
    → last_write_from before ws k ≡ some true
    → before ≡ some true
last_write_active [] before k h e = e
last_write_active ((key, t) ∷ ws) before k h e =
    ground (arith, last_write_active ws (if eqb key k then some t else before) k h.1 e)

scan_v2_active : (n : ℕ) (d : Bytes) → All (λ w. w.1 ≡ false) (scan_v2 n d)
unfolding scan_v2
scan_v2_active zero d = tt
scan_v2_active (suc n) d = elim (Option-cases (take_key d)) [
  | inl e ↦ rw (e, scan_v2) tt
  | inr ((key, rest), e) ↦ rw (e, scan_v2) (refl, scan_v2_active n rest)
]

header_writes_active :
    (o : Option (ℕ × Bytes))
    → All (λ w. w.1 ≡ false) (elim o [ none ↦ [] | some (n, rest) ↦ scan_v2 n rest ])
header_writes_active none = tt
header_writes_active (some (n, rest)) = scan_v2_active n rest

value_writes-v2 :
    (d : Bytes)
    → detect_version d ≡ v2
    → value_writes d ≡ elim (take_header d) [ none ↦ [] | some (n, rest) ↦ scan_v2 n rest ]
unfolding value_writes
value_writes-v2 d e = rw (e, value_writes)

no_tombstone : (d k : Bytes) → detect_version d ≡ v2 → last_write (value_writes d) k ≢ some true
no_tombstone d k e h = cc (
    last_write_active (value_writes d) none k
      (subst (All (λ w. w.1 ≡ false)) (sym (value_writes-v2 d e))
        (header_writes_active (take_header d)))
      h)

v1_states-last_write :
    (d k : Bytes) → detect_version d ≡ v1 → Map.find (v1_states d) k ≡ last_write (value_writes d) k
unfolding v1_states value_writes Map.find
v1_states-last_write d k e =
    rw (e, value_writes)
      (ap (λ m. Map.find m k) (v1_loop-scan (length d) d [])
        ∙ find-apply_writes (scan_v1 (length d) d) [] k)

active_reply :
    (o : Option Bool)
    → o ≢ some true
    → (if is_active o then found false else not_found) ≡ reply_of o
active_reply none h = refl
active_reply (some false) h = refl
active_reply (some true) h = absurd (h refl)

found_or_not-reply_of : (o : Option Bool) → found_or_not o ≡ reply_of o
unfolding found_or_not
found_or_not-reply_of none = refl
found_or_not-reply_of (some t) = refl

find_in-last_write : (d k : Bytes) → find_in d k ≡ reply_of (last_write (value_writes d) k)
find_in-last_write d k = by_version (detect_version d) refl
  where
    by_version :
        (v : Version)
        → detect_version d ≡ v
        → find_in d k ≡ reply_of (last_write (value_writes d) k)
    by_version v1 e =
        unfold find_in in
        rw (e, find_in)
          (found_or_not-reply_of (Map.find (v1_states d) k)
            ∙ ap reply_of (v1_states-last_write d k e))
    by_version v2 e =
        unfold find_in in
        rw (e, find_in)
          (ap (λ b. if b then found false else not_found)
              (ap (λ ks. contains ks k) (v2_keys d e) ∙ contains-parse_posting_list d k)
            ∙ active_reply (last_write (value_writes d) k) (no_tombstone d k e))

-- `posting_list_find` replies on any value with the last write to the key in it: `{ok, false}` for an
-- addition, `{ok, true}` for a deletion, `not_found` for none.
pub posting_list_find-last_write :
    (d k : Bytes)
    → posting_list_find (binary d ∷ binary k ∷ []) ≡ reply_of (last_write (value_writes d) k)
unfolding posting_list_find
posting_list_find-last_write d k = find_in-last_write d k
