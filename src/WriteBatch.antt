-- ===== src/WriteBatch.antt =====
-- The batch functions of c_src/batch.cc, and what `BatchToList` reports by the handler of
-- c_src/transaction_log.h.
pub mod Spec
pub mod Listing
pub mod Writes
pub mod Refines
pub mod Released
use erlang_rocksdb.Prelude.{
  ℕ, ◌+◌, ◌-◌, ◌%◌, ◌^◌, Bool, true, false, Option, none, some, List, [], ◌∷◌, ◌++◌, ltb, ◌==◌,
  if◌then◌else◌, ◌>>=◌,
}
use erlang_rocksdb.Prelude.Int.{ℤ, pos, negsuc}
use erlang_rocksdb.Bytes.{Bytes}
use erlang_rocksdb.Term.{Term, inspect_binary}
use erlang_rocksdb.Calls.{fold}
use erlang_rocksdb.Calls.Options.{WriteOptions, parse_write_option}

-- What a batch is told to write; the first argument is the column family, 0 for the default one.
pub data Record : Type 0 where
  put merge : ℕ → Bytes → Bytes → Record
  delete single_delete : ℕ → Bytes → Record
  delete_range : ℕ → Bytes → Bytes → Record

-- `rocksdb::WriteBatch`: `write` is `Put`, `Merge` and so on, `records` is what `Iterate` hands to a
-- handler, and `write_options` are the defaults.
pub record Library (W : Type 0) : Type 0 where
  pub empty : W
  pub write : Record → W → W
  pub clear : W → W
  pub set_save_point : W → W
  pub rollback_to_save_point : W → Option W
  pub count : W → ℕ
  pub get_data_size : W → ℕ
  pub records : W → List Record
  pub write_options : WriteOptions

-- `enif_get_cf`: the column family of an open handle.
pub record Handles : Type 0 where
  pub get_cf : Term → Option ℕ

-- `none` is a null pointer; an environment is the terms that were copied into it.
pub record Batch (W : Type 0) : Type 0 where
  pub wb : Option W
  pub env : Option (List Term)

pub data Tag : Type 0 where
  atom_put atom_merge atom_delete atom_single_delete : Tag

-- A row of `BatchToList`: the default column family is left out.
pub record Row : Type 0 where
  pub tag : Tag
  pub column_family : Option ℕ
  pub binaries : List Bytes

-- How a function ends; `crash` is an access through a null pointer.
pub data Reply : Type 0 where
  atom_ok badarg error_status crash : Reply
  number : ℤ → Reply
  rows : List Row → Reply

abbrev pub cf_id : ℕ → Option ℕ
cf_id column_family_id = if column_family_id == 0 then none else some column_family_id

-- The methods of `TransactionLogHandler`; `none` is a status that is not ok, as that of
-- `DeleteRangeCF`, which the handler leaves to its base class.
unfoldable pub handle : Record → List Row → Option (List Row)
handle (put cf key value) t_list =
    some (record { tag = atom_put; column_family = cf_id cf; binaries = key ∷ value ∷ [] } ∷ t_list)
handle (merge cf key value) t_list =
    some
      (record { tag = atom_merge; column_family = cf_id cf; binaries = key ∷ value ∷ [] } ∷ t_list)
handle (delete cf key) t_list =
    some (record { tag = atom_delete; column_family = cf_id cf; binaries = key ∷ [] } ∷ t_list)
handle (single_delete cf key) t_list =
    some
      (record { tag = atom_single_delete; column_family = cf_id cf; binaries = key ∷ [] } ∷ t_list)
handle (delete_range cf first last) t_list = none

-- `Iterate` ends at the first status that is not ok.
unfoldable pub iterate : List Record → List Row → List Row
unfolding handle
iterate [] t_list = t_list
iterate (r ∷ rs) t_list = elim (handle r t_list) [
  | none ↦ t_list
  | some t_list' ↦ iterate rs t_list'
]

abbrev pub reverse_onto : List Row → List Row → List Row
reverse_onto [] acc = acc
reverse_onto (r ∷ rs) acc = reverse_onto rs (r ∷ acc)

-- `(int) count` of a 32-bit number, and `int count` of a `size_t`.
unfoldable pub to_int : ℕ → ℤ
to_int n = if ltb (n % 2 ^ 32) (2 ^ 31) then pos (n % 2 ^ 32) else negsuc (2 ^ 32 - n % 2 ^ 32 - 1)

abbrev pub key_value : (ℕ → Bytes → Bytes → Record) → Term → Term → Option Record
key_value r key value = inspect_binary key >>= λ k. inspect_binary value >>= λ v. some (r 0 k v)

module _ (handles : Handles) where
  abbrev pub cf_key_value : (ℕ → Bytes → Bytes → Record) → Term → Term → Term → Option Record
  cf_key_value r cf key value = handles.get_cf cf >>= λ c.
      inspect_binary key >>= λ k. inspect_binary value >>= λ v. some (r c k v)

  abbrev pub cf_key : (ℕ → Bytes → Record) → Term → Term → Option Record
  cf_key r cf key = handles.get_cf cf >>= λ c. inspect_binary key >>= λ k. some (r c k)

module _ {W : Type 0} (lib : Library W) where
  abbrev pub Call : Type 0
  Call = Batch W → Reply × Batch W

  -- `enif_make_copy` into the batch's environment for each argument, then the method of `wb`.
  unfoldable pub add : Record → List Term → Call
  add r copies batch = elim batch.env [
    | none ↦ (crash, batch)
    | some e ↦ elim batch.wb [
      | none ↦ (crash, record batch { env = some (e ++ copies) })
      | some w ↦ (atom_ok, record { wb = some (lib.write r w); env = some (e ++ copies) })
    ]
  ]

  abbrev pub add_or_badarg : List Term → Option Record → Call
  add_or_badarg copies (some r) batch = add r copies batch
  add_or_badarg copies none batch = (badarg, batch)

  -- The arguments are those after the batch.
  module _ (handles : Handles) where
    unfoldable pub put_batch : List Term → Call
    unfolding add
    put_batch (cf ∷ key ∷ value ∷ rest) =
        add_or_badarg (cf ∷ key ∷ value ∷ []) (cf_key_value handles put cf key value)
    put_batch (key ∷ value ∷ []) = add_or_badarg (key ∷ value ∷ []) (key_value put key value)
    put_batch _ = λ batch. (badarg, batch)

    unfoldable pub merge_batch : List Term → Call
    unfolding add
    merge_batch (cf ∷ key ∷ value ∷ rest) =
        add_or_badarg (cf ∷ key ∷ value ∷ []) (cf_key_value handles merge cf key value)
    merge_batch (key ∷ value ∷ []) = add_or_badarg (key ∷ value ∷ []) (key_value merge key value)
    merge_batch _ = λ batch. (badarg, batch)

    unfoldable pub delete_batch : List Term → Call
    unfolding add
    delete_batch (cf ∷ key ∷ rest) = add_or_badarg (cf ∷ key ∷ []) (cf_key handles delete cf key)
    delete_batch (key ∷ []) =
        add_or_badarg (key ∷ []) (inspect_binary key >>= λ k. some (delete 0 k))
    delete_batch [] = λ batch. (badarg, batch)

    unfoldable pub single_delete_batch : List Term → Call
    unfolding add
    single_delete_batch (cf ∷ key ∷ rest) =
        add_or_badarg (cf ∷ key ∷ []) (cf_key handles single_delete cf key)
    single_delete_batch (key ∷ []) =
        add_or_badarg (key ∷ []) (inspect_binary key >>= λ k. some (single_delete 0 k))
    single_delete_batch [] = λ batch. (badarg, batch)

    -- The handle of the column family is not copied here.
    unfoldable pub delete_range_batch : List Term → Call
    unfolding add
    delete_range_batch (cf ∷ first ∷ last ∷ rest) =
        add_or_badarg (first ∷ last ∷ []) (cf_key_value handles delete_range cf first last)
    delete_range_batch (first ∷ last ∷ []) =
        add_or_badarg (first ∷ last ∷ []) (key_value delete_range first last)
    delete_range_batch _ = λ batch. (badarg, batch)

  abbrev pub on_wb : (W → Reply × W) → Call
  on_wb f batch = elim batch.wb [
    | none ↦ (crash, batch)
    | some w ↦ ((f w).0, record batch { wb = some (f w).1 })
  ]

  -- `enif_clear_env`, and what the function then returns.
  abbrev pub clear_env : Reply → Call
  clear_env reply batch = elim batch.env [
    | none ↦ (crash, batch)
    | some e ↦ (reply, record batch { env = some [] })
  ]

  unfoldable pub write_options_of : Term → WriteOptions
  unfolding fold parse_write_option
  write_options_of options = (fold parse_write_option options lib.write_options).1

  -- `none` where the database has not been retrieved; else its `Write` as it answers in this call,
  -- which says whether the status is ok.
  unfoldable pub write_batch : Option (WriteOptions → Option W → Bool) → Term → Call
  unfolding write_options_of
  write_batch none options batch = (badarg, batch)
  write_batch (some write) options batch =
      clear_env (if write (write_options_of options) batch.wb then atom_ok else error_status)
        (record batch { wb = batch.wb >>= λ w. some (lib.clear w) })

  unfoldable pub clear_batch : Call
  clear_batch batch = elim batch.wb [
    | none ↦ (crash, batch)
    | some w ↦ clear_env atom_ok (record batch { wb = some (lib.clear w) })
  ]

  unfoldable pub batch_set_save_point : Call
  batch_set_save_point = on_wb (λ w. (atom_ok, lib.set_save_point w))

  unfoldable pub batch_rollback_to_save_point : Call
  batch_rollback_to_save_point = on_wb (λ w. elim (lib.rollback_to_save_point w) [
    | none ↦ (error_status, w)
    | some w' ↦ (atom_ok, w')
  ])

  unfoldable pub batch_count : Call
  unfolding to_int
  batch_count = on_wb (λ w. (number (to_int (lib.count w)), w))

  unfoldable pub batch_data_size : Call
  unfolding to_int
  batch_data_size = on_wb (λ w. (number (to_int (lib.get_data_size w)), w))

  unfoldable pub batch_to_list : Call
  unfolding iterate
  batch_to_list = on_wb (λ w. (rows (reverse_onto (iterate (lib.records w) []) []), w))

  -- `cleanup_batch`, which is also the resource's destructor.
  unfoldable pub cleanup_batch : Batch W → Batch W
  cleanup_batch batch = record { wb = none; env = none }

  unfoldable pub release_batch : Call
  unfolding cleanup_batch
  release_batch batch = (atom_ok, cleanup_batch batch)

  -- `NewBatch` where its allocations succeed.
  unfoldable pub new_batch : Batch W
  new_batch = record { wb = some lib.empty; env = some [] }
