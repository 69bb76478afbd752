-- ===== src/PostingList/Replies.antt =====
-- `posting_list_contains` of c_src/posting_list_nif.cc, by the search in the bytes.
use erlang_rocksdb.Prelude.{
  ◌+◌, ◌<◌, ◌^◌, ℕ, zero, suc, ◌≡◌, refl, sym, ap, ◌∙◌, inl, inr, Bool, false, none, some, List, [],
  ◌∷◌, foldl, arith, if◌then◌else◌, ◌==◌, Option-cases,
}
use erlang_rocksdb.Bytes.{Bytes}
use erlang_rocksdb.Ordered.Set
use erlang_rocksdb.Ordered.Set.{Ascending, contains, insert_all, insert_all-append}
use erlang_rocksdb.PostingList.Format.{
  Version, v1, v2, detect_version, take_header, take_key, v2_loop,
}
use erlang_rocksdb.PostingList.Active.{is_active}
use erlang_rocksdb.PostingList.History.{value_writes, last_write}
use erlang_rocksdb.PostingList.Parse.{
  parse_posting_list_v1, parse_posting_list_v2, parse_posting_list,
}
use erlang_rocksdb.PostingList.Search.{key_offsets, search_keys, binary_search_v2_keys}
use erlang_rocksdb.PostingList.Table.{bitmap_size_of, take_table-take_header}
use erlang_rocksdb.PostingList.SearchCorrect.{search_keys-contains}
use erlang_rocksdb.PostingList.RoundTrip.{foldl-snoc}
use erlang_rocksdb.PostingList.Keys.{contains-parse_posting_list}
use erlang_rocksdb.Term.{binary}
use erlang_rocksdb.PostingList.Nif.{posting_list_contains, boolean, contains_in}

-- The keys that a V2 loop visits.
visited : ℕ → Bytes → List Bytes
visited zero d = []
visited (suc left) d = elim (take_key d) [ none ↦ [] | some (key, rest) ↦ key ∷ visited left rest ]

v2_loop-visited {ℓ} :
    {S : Type ℓ} (body : Bytes → S → S) (n : ℕ) (d : Bytes) (s : S)
    → v2_loop body n d s ≡ foldl (λ a k. body k a) s (visited n d)
unfolding v2_loop visited
v2_loop-visited body zero d s = refl
v2_loop-visited body (suc n) d s = elim (Option-cases (take_key d)) [
  | inl e ↦ rw (e, v2_loop, visited)
  | inr ((key, rest), e) ↦ rw (e, v2_loop, visited) (v2_loop-visited body n rest (body key s))
]

key_offsets-visited : (n : ℕ) (d : Bytes) → key_offsets n d ≡ visited n d
unfolding key_offsets
key_offsets-visited n d = v2_loop-visited _ n d [] ∙ foldl-snoc (visited n d) []

-- The keys of a V2 value stand in strict order, as every writer leaves them, and the sum of its
-- bitmap's size and 4 fits 32 bits.
pub record InOrder (d : Bytes) : Type 0 where
  pub in_range : detect_version d ≡ v2 → bitmap_size_of d + 4 < 2 ^ 32
  pub ascending :
      (n : ℕ) (rest : Bytes)
      → detect_version d ≡ v2
      → take_header d ≡ some (n, rest)
      → Ascending (key_offsets n rest)

if_false {ℓ} : {A : Type ℓ} (b : Bool) (x y : A) → b ≡ false → (if b then x else y) ≡ y
if_false b x y e = rw e

search_or_empty :
    (n : ℕ) (rest : Bytes) (k : Bytes)
    → Ascending (key_offsets n rest)
    → (if n == 0 then some false else search_keys (key_offsets n rest) k)
      ≡ some (contains (v2_loop Set.insert n rest []) k)
unfolding v2_loop contains
search_or_empty zero rest k h = refl
search_or_empty (suc n) rest k h =
    if_false (suc n == 0) (some false) _ (ground arith)
    ∙ search_keys-contains (key_offsets (suc n) rest) k h
    ∙ ap (λ ks. some (contains ks k))
        (sym (insert_all-append (key_offsets (suc n) rest) [] h)
          ∙ ap (insert_all []) (key_offsets-visited (suc n) rest)
          ∙ sym (v2_loop-visited Set.insert (suc n) rest []))

binary_search-parse :
    (d k : Bytes)
    → InOrder d
    → detect_version d ≡ v2
    → binary_search_v2_keys d k ≡ some (contains (parse_posting_list_v2 d) k)
unfolding binary_search_v2_keys parse_posting_list_v2 contains
binary_search-parse d k h e = elim (Option-cases (take_header d)) [
  | inl t ↦
      rw (e, binary_search_v2_keys)
        (rw (
          take_table-take_header d (h.in_range e),
          t,
          binary_search_v2_keys,
          parse_posting_list_v2,
        ))
  | inr ((n, rest), t) ↦
      rw (e, binary_search_v2_keys)
        (rw
          (take_table-take_header d (h.in_range e), t, binary_search_v2_keys, parse_posting_list_v2)
          (search_or_empty n rest k (h.ascending n rest e t)))
]

v1_keys : (d : Bytes) → detect_version d ≡ v1 → parse_posting_list_v1 d ≡ parse_posting_list d
unfolding parse_posting_list
v1_keys d e = rw (e, parse_posting_list)

pub v2_keys : (d : Bytes) → detect_version d ≡ v2 → parse_posting_list_v2 d ≡ parse_posting_list d
unfolding parse_posting_list
v2_keys d e = rw (e, parse_posting_list)

contains_in-last_write :
    (d k : Bytes)
    → InOrder d
    → contains_in d k ≡ boolean (is_active (last_write (value_writes d) k))
contains_in-last_write d k h = by_version (detect_version d) refl
  where
    by_version :
        (v : Version)
        → detect_version d ≡ v
        → contains_in d k ≡ boolean (is_active (last_write (value_writes d) k))
    by_version v1 e =
        unfold contains_in in
        rw (e, contains_in)
          (ap boolean (ap (λ ks. contains ks k) (v1_keys d e) ∙ contains-parse_posting_list d k))
    by_version v2 e =
        unfold contains_in in
        rw (e, contains_in)
          (rw (binary_search-parse d k h e)
            (ap boolean (ap (λ ks. contains ks k) (v2_keys d e) ∙ contains-parse_posting_list d k)))

-- `posting_list_contains` on a value whose V2 keys, if it is one, are in strict order, and whose
-- bitmap size plus 4 fits 32 bits, replies with whether the last write to the key in the value is an
-- addition; cut values and V1 values with tombstones included.
pub posting_list_contains-last_write :
    (d k : Bytes)
    → InOrder d
    → posting_list_contains (binary d ∷ binary k ∷ [])
      ≡ boolean (is_active (last_write (value_writes d) k))
unfolding posting_list_contains
posting_list_contains-last_write d k h = contains_in-last_write d k h
