-- ===== src/Calls/Asked.antt =====
-- The write calls of c_src/erocksdb_db.cc against what src/rocksdb.erl documents of them.
use erlang_rocksdb.Prelude.{
  ℕ, ◌≡◌, refl, inl, inr, Option-cases, Bool, true, false, Option, none, some, List, [], ◌∷◌,
  if◌then◌else◌, ◌>>=◌,
}
use erlang_rocksdb.Bytes.{Bytes}
use erlang_rocksdb.Term.{Term, binary, nil, inspect_binary}
use erlang_rocksdb.WriteBatch.{
  Record, put, merge, delete, single_delete, delete_range, Handles, key_value, cf_key_value, cf_key,
}
use erlang_rocksdb.Calls.{Reply, fold}
use erlang_rocksdb.Calls.Options.{WriteOptions}
use erlang_rocksdb.Calls.Database.{
  Library, written, refused, write_options_of, write_with, db_put, db_merge, db_delete,
  db_single_delete, db_delete_range,
}

pub data Operation : Type 0 where
  puts merges deletes single_deletes delete_ranges : Operation

-- The arguments as documented: a column family or none, what is written, and the options last.
abbrev pub asked : Handles → Operation → List Term → Option Record × Term
asked handles puts (cf ∷ k ∷ v ∷ opts ∷ rest) = (cf_key_value handles put cf k v, opts)
asked handles puts (k ∷ v ∷ opts ∷ []) = (key_value put k v, opts)
asked handles merges (cf ∷ k ∷ v ∷ opts ∷ rest) = (cf_key_value handles merge cf k v, opts)
asked handles merges (k ∷ v ∷ opts ∷ []) = (key_value merge k v, opts)
asked handles deletes (cf ∷ k ∷ opts ∷ rest) = (cf_key handles delete cf k, opts)
asked handles deletes (k ∷ opts ∷ []) = (inspect_binary k >>= λ b. some (delete 0 b), opts)
asked handles single_deletes (cf ∷ k ∷ opts ∷ rest) = (cf_key handles single_delete cf k, opts)
asked handles single_deletes (k ∷ opts ∷ []) =
    (inspect_binary k >>= λ b. some (single_delete 0 b), opts)
asked handles delete_ranges (cf ∷ a ∷ b ∷ opts ∷ []) =
    (cf_key_value handles delete_range cf a b, opts)
asked handles delete_ranges (a ∷ b ∷ opts ∷ []) = (key_value delete_range a b, opts)
asked handles _ _ = (none, nil)

-- Whether the operation reads the options that it is given.
abbrev pub heeds : Operation → List Term → Bool
heeds merges (cf ∷ k ∷ v ∷ opts ∷ rest) = false
heeds deletes (cf ∷ k ∷ opts ∷ rest) = false
heeds single_deletes (cf ∷ k ∷ opts ∷ rest) = false
heeds _ _ = true

module _ {D : Type 0} (lib : Library D) (handles : Handles) where
  abbrev pub serve : Operation → List Term → D → Reply × D
  serve puts = db_put lib handles
  serve merges = db_merge lib handles
  serve deletes = db_delete lib handles
  serve single_deletes = db_single_delete lib handles
  serve delete_ranges = db_delete_range lib handles

  abbrev pub performed : WriteOptions → Option Record → D → Reply × D
  performed opts none d = refused lib handles d
  performed opts (some r) d = written (lib.write opts r d)

  -- A binary holds no options.
  of_binary :
      (v : Term) (r : Option Record)
      → (inspect_binary v ≡ none → r ≡ none)
      → (d : D) → write_with lib handles v r d ≡ performed lib.write_options r d
  unfolding write_options_of fold
  of_binary (binary b) none p d = refl
  of_binary (binary b) (some r) p d = refl
  of_binary _ none p d = refl
  of_binary _ (some r) p d = cc (p refl)

  of_options :
      (opts : Term) (r : Option Record) (d : D)
      → write_with lib handles opts r d ≡ performed (write_options_of lib handles opts) r d
  of_options opts none d = refl
  of_options opts (some r) d = refl

  value_refused :
      (cf k v : Term) → inspect_binary v ≡ none → cf_key_value handles merge cf k v ≡ none
  value_refused cf k v n = elim (Option-cases (handles.get_cf cf)) [
    | inl e ↦ rw e refl
    | inr (c, e) ↦ elim (Option-cases (inspect_binary k)) [
      | inl f ↦ rw (e, f) refl
      | inr (b, f) ↦ rw (e, f, n) refl
    ]
  ]

  key_refused :
      (r : ℕ → Bytes → Record) (cf k : Term)
      → inspect_binary k ≡ none
      → cf_key handles r cf k ≡ none
  key_refused r cf k n = elim (Option-cases (handles.get_cf cf)) [
    | inl e ↦ rw e refl
    | inr (c, e) ↦ rw (e, n) refl
  ]

  -- Every write call performs what is documented of its arguments, and refuses them where they are
  -- not as documented, but for the options: a merge, a deletion and a single deletion that name a
  -- column family use the defaults instead of the options that they are given.
  pub serve-asked :
      (op : Operation) (args : List Term) (d : D)
      → serve op args d
        ≡ performed
            (if heeds op args
              then write_options_of lib handles (asked handles op args).1
              else lib.write_options)
            (asked handles op args).0
            d
  unfolding db_put db_merge db_delete db_single_delete db_delete_range
  serve-asked puts [] d = refl
  serve-asked puts (a ∷ []) d = refl
  serve-asked puts (a ∷ b ∷ []) d = refl
  serve-asked puts (a ∷ b ∷ c ∷ []) d = of_options c (key_value put a b) d
  serve-asked puts (a ∷ b ∷ c ∷ e ∷ rest) d = of_options e (cf_key_value handles put a b c) d
  serve-asked merges [] d = refl
  serve-asked merges (a ∷ []) d = refl
  serve-asked merges (a ∷ b ∷ []) d = refl
  serve-asked merges (a ∷ b ∷ c ∷ []) d = of_options c (key_value merge a b) d
  serve-asked merges (a ∷ b ∷ c ∷ e ∷ rest) d =
      of_binary c (cf_key_value handles merge a b c) (value_refused a b c) d
  serve-asked deletes [] d = refl
  serve-asked deletes (a ∷ []) d = refl
  serve-asked deletes (a ∷ b ∷ []) d = of_options b (inspect_binary a >>= λ k. some (delete 0 k)) d
  serve-asked deletes (a ∷ b ∷ c ∷ rest) d =
      of_binary b (cf_key handles delete a b) (key_refused delete a b) d
  serve-asked single_deletes [] d = refl
  serve-asked single_deletes (a ∷ []) d = refl
  serve-asked single_deletes (a ∷ b ∷ []) d =
      of_options b (inspect_binary a >>= λ k. some (single_delete 0 k)) d
  serve-asked single_deletes (a ∷ b ∷ c ∷ rest) d =
      of_binary b (cf_key handles single_delete a b) (key_refused single_delete a b) d
  serve-asked delete_ranges [] d = refl
  serve-asked delete_ranges (a ∷ []) d = refl
  serve-asked delete_ranges (a ∷ b ∷ []) d = refl
  serve-asked delete_ranges (a ∷ b ∷ c ∷ []) d = of_options c (key_value delete_range a b) d
  serve-asked delete_ranges (a ∷ b ∷ c ∷ e ∷ []) d =
      of_options e (cf_key_value handles delete_range a b c) d
  serve-asked delete_ranges (a ∷ b ∷ c ∷ e ∷ f ∷ rest) d = refl
