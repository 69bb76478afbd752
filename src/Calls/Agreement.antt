-- ===== src/Calls/Agreement.antt =====
-- `MultiGet` against one `Get` for each key.
use erlang_rocksdb.Prelude.{
  ℕ, ◌≡◌, refl, sym, ap, ◌∙◌, true, Option, none, some, List, [], ◌∷◌, map, inl, inr, Option-cases,
  ◌>>=◌,
}
use mathlib.Core.List.{map-map}
use erlang_rocksdb.Bytes.{Bytes}
use erlang_rocksdb.Term.{Term, inspect_binary, make_list, list_items, is_proper_list}
use erlang_rocksdb.WriteBatch.{Handles}
use erlang_rocksdb.Calls.{Reply, badarg, returned, value_term, key_slices}
use erlang_rocksdb.Calls.Options.{ReadOptions}
use erlang_rocksdb.Calls.Database.{Library}
use erlang_rocksdb.Calls.Reads.{read_options_of, db_get, db_multi_get, read_all, read_slices}

-- The terms of replies of which none is an exception.
abbrev pub terms : List Reply → Option (List Term)
terms [] = some []
terms (badarg ∷ rs) = none
terms (returned t ∷ rs) = terms rs >>= λ ts. some (t ∷ ts)

abbrev pub of_terms : Option (List Term) → Reply
of_terms none = badarg
of_terms (some ts) = returned (make_list ts)

-- The list of the terms, or the exception.
abbrev pub all_replies : List Reply → Reply
all_replies rs = of_terms (terms rs)

pub list_items-make_list : (ts : List Term) → list_items (make_list ts) ≡ ts
list_items-make_list [] = refl
list_items-make_list (t ∷ ts) = ap (◌∷◌ t) (list_items-make_list ts)

pub is_proper_list-make_list : (ts : List Term) → is_proper_list (make_list ts) ≡ true
is_proper_list-make_list [] = refl
is_proper_list-make_list (t ∷ ts) = is_proper_list-make_list ts

-- What the keys of a list are read as, one by one.
pub terms-key_slices :
    (one : Term → Reply) (value : Bytes → Term)
    → ((key : Term) → inspect_binary key ≡ none → one key ≡ badarg)
    → ((key : Term) (k : Bytes) → inspect_binary key ≡ some k → one key ≡ returned (value k))
    → (keys : List Term) → terms (map one keys) ≡ (key_slices keys >>= λ ks. some (map value ks))
unfolding key_slices
terms-key_slices one value bad good [] = refl
terms-key_slices one value bad good (key ∷ keys) = elim (Option-cases (inspect_binary key)) [
  | inl n ↦ rw (n, bad key n) refl
  | inr (k, e) ↦ elim (Option-cases (key_slices keys)) [
    | inl n ↦ rw (e, good key k e, terms-key_slices one value bad good keys, n) refl
    | inr (ks, f) ↦ rw (e, good key k e, terms-key_slices one value bad good keys, f) refl
  ]
]

module _ {D : Type 0} (lib : Library D) (handles : Handles) (get_snapshot : Term → Option ℕ) where
  abbrev one_get : Term → Term → D → Term → Reply
  one_get cf opts d key = db_get lib handles get_snapshot (cf ∷ key ∷ opts ∷ []) d

  module _
      (documented : (cf : ℕ) (ks : List Bytes) (o : ReadOptions) (d : D)
        → lib.multi_get o cf ks d ≡ map (λ k. lib.get o cf k d) ks) where
    single : Term → Term → ℕ → D → Bytes → Term
    single cf opts c d k =
        value_term (lib.get (read_options_of lib handles get_snapshot opts) c k d)

    gets-slices :
        (cf opts : Term) (c : ℕ) (d : D)
        → handles.get_cf cf ≡ some c
        → (keys : List Term)
        → terms (map (one_get cf opts d) keys)
          ≡ (key_slices keys >>= λ ks. some (map (single cf opts c d) ks))
    unfolding db_get single
    gets-slices cf opts c d h =
        terms-key_slices (one_get cf opts d) (single cf opts c d) (λ key n. rw n refl)
          (λ key k e. rw (e, h) refl)

    values_same :
        (cf opts : Term) (c : ℕ) (d : D) (ks : List Bytes)
        → map value_term (lib.multi_get (read_options_of lib handles get_snapshot opts) c ks d)
          ≡ map (single cf opts c d) ks
    unfolding single
    values_same cf opts c d ks =
        ap (map value_term) (documented c ks (read_options_of lib handles get_snapshot opts) d)
        ∙ map-map value_term (λ k. lib.get (read_options_of lib handles get_snapshot opts) c k d) ks

    slices_same :
        (cf opts : Term) (c : ℕ) (d : D) (slices : Option (List Bytes))
        → read_slices lib handles get_snapshot opts c slices d
          ≡ of_terms (slices >>= λ ks. some (map (single cf opts c d) ks))
    slices_same cf opts c d none = refl
    slices_same cf opts c d (some ks) =
        ap (λ vs. returned (make_list vs)) (values_same cf opts c d ks)

    read_all_same :
        (cf opts : Term) (c : ℕ) (keys : List Term) (d : D)
        → handles.get_cf cf ≡ some c
        → read_all lib handles get_snapshot opts c keys d
          ≡ all_replies (map (one_get cf opts d) keys)
    read_all_same cf opts c [] d h = refl
    read_all_same cf opts c (key ∷ keys) d h =
        slices_same cf opts c d (key_slices (key ∷ keys))
        ∙ sym (ap of_terms (gets-slices cf opts c d h (key ∷ keys)))

    -- Where a read of several keys is documented to give what a read of each gives, `MultiGet` on an
    -- open column family and a list of any terms answers with the list of what `Get` returns for
    -- each of them, in their order, and with `badarg` where `Get` does for one of them.
    pub db_multi_get-db_get :
        (cf opts : Term) (c : ℕ) (keys : List Term) (d : D)
        → handles.get_cf cf ≡ some c
        → db_multi_get lib handles get_snapshot (cf ∷ make_list keys ∷ opts ∷ []) d
          ≡ all_replies (map (λ key. db_get lib handles get_snapshot (cf ∷ key ∷ opts ∷ []) d) keys)
    unfolding db_multi_get
    db_multi_get-db_get cf opts c keys d h =
        rw (h, is_proper_list-make_list keys, list_items-make_list keys)
          (read_all_same cf opts c keys d h)
