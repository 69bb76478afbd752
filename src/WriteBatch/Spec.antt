-- ===== src/WriteBatch/Spec.antt =====
-- A batch as the list of what has been written to it, with the lists of its save points.
use erlang_rocksdb.Prelude.{
  ℕ, ◌≡◌, Bool, Option, none, some, List, [], ◌∷◌, ◌++◌, length, if◌then◌else◌, ◌>>=◌,
}
use erlang_rocksdb.Bytes.{Bytes}
use erlang_rocksdb.Term.{Term, inspect_binary}
use erlang_rocksdb.Calls.{fold}
use erlang_rocksdb.Calls.Options.{WriteOptions, parse_write_option}
use erlang_rocksdb.WriteBatch.{
  Record, put, merge, delete, single_delete, delete_range, Library, Handles, Batch, atom_put,
  atom_merge, atom_delete, atom_single_delete, Row, Reply, atom_ok, badarg, error_status, number,
  rows, cf_id, to_int, cf_key_value, key_value, cf_key, put_batch, merge_batch, delete_batch,
  single_delete_batch, delete_range_batch, write_batch, clear_batch, batch_set_save_point,
  batch_rollback_to_save_point, batch_count, batch_data_size, batch_to_list, release_batch, crash,
}

-- What the library documents, with the save points of a batch, the latest first. `size` is the
-- number of bytes that records take.
pub record IsWriteBatch {W : Type 0} (lib : Library W) (saved : W → List (List Record))
    (size : List Record → ℕ) : Type 0 where
  pub empty_records : lib.records lib.empty ≡ []
  pub empty_saved : saved lib.empty ≡ []
  pub write_records : (r : Record) (w : W) → lib.records (lib.write r w) ≡ lib.records w ++ r ∷ []
  pub write_saved : (r : Record) (w : W) → saved (lib.write r w) ≡ saved w
  pub clear_records : (w : W) → lib.records (lib.clear w) ≡ []
  pub clear_saved : (w : W) → saved (lib.clear w) ≡ []
  pub save_records : (w : W) → lib.records (lib.set_save_point w) ≡ lib.records w
  pub save_saved : (w : W) → saved (lib.set_save_point w) ≡ lib.records w ∷ saved w
  pub rollback_none : (w : W) → saved w ≡ [] → lib.rollback_to_save_point w ≡ none
  pub rollback_some :
      (w : W) (rs : List Record) (rest : List (List Record))
      → saved w ≡ rs ∷ rest
      → (w' : W) × (lib.rollback_to_save_point w ≡ some w')
        × (lib.records w' ≡ rs)
        × (saved w' ≡ rest)
  pub count_records : (w : W) → lib.count w ≡ length (lib.records w)
  pub size_records : (w : W) → lib.get_data_size w ≡ size (lib.records w)

-- A call of a batch function but `ReleaseBatch`, with the arguments after the batch. `writes` has
-- what the database would answer to records in this call, or `none` where it is not open, and the
-- list of options.
pub data Request : Type 0 where
  puts merges deletes single_deletes delete_ranges : List Term → Request
  writes : Option (WriteOptions → Option (List Record) → Bool) → Term → Request
  clears sets_save_point rolls_back counts sizes lists : Request

-- A call of any batch function.
pub data BatchCall : Type 0 where
  releases : BatchCall
  asks : Request → BatchCall

abbrev pub serve : {W : Type 0} → Library W → Handles → Request → Batch W → Reply × Batch W
serve lib handles (puts args) = put_batch lib handles args
serve lib handles (merges args) = merge_batch lib handles args
serve lib handles (deletes args) = delete_batch lib handles args
serve lib handles (single_deletes args) = single_delete_batch lib handles args
serve lib handles (delete_ranges args) = delete_range_batch lib handles args
serve lib handles (writes none options) = write_batch lib none options
serve lib handles (writes (some accepts) options) =
    write_batch lib (some (λ o wb. accepts o (wb >>= λ w. some (lib.records w)))) options
serve lib handles clears = clear_batch lib
serve lib handles sets_save_point = batch_set_save_point lib
serve lib handles rolls_back = batch_rollback_to_save_point lib
serve lib handles counts = batch_count lib
serve lib handles sizes = batch_data_size lib
serve lib handles lists = batch_to_list lib

abbrev pub serve_call : {W : Type 0} → Library W → Handles → BatchCall → Batch W → Reply × Batch W
serve_call lib handles releases = release_batch lib
serve_call lib handles (asks q) = serve lib handles q

pub record Log : Type 0 where
  pub written : List Record
  pub saves : List (List Record)

-- A row for each record, up to the first deletion of a range.
abbrev pub listed : List Record → List Row
listed [] = []
listed (put cf key value ∷ rs) =
    record { tag = atom_put; column_family = cf_id cf; binaries = key ∷ value ∷ [] } ∷ listed rs
listed (merge cf key value ∷ rs) =
    record { tag = atom_merge; column_family = cf_id cf; binaries = key ∷ value ∷ [] } ∷ listed rs
listed (delete cf key ∷ rs) =
    record { tag = atom_delete; column_family = cf_id cf; binaries = key ∷ [] } ∷ listed rs
listed (single_delete cf key ∷ rs) =
    record { tag = atom_single_delete; column_family = cf_id cf; binaries = key ∷ [] } ∷ listed rs
listed (delete_range cf first last ∷ rs) = []

-- What the arguments of a call ask to be written.
module _ (handles : Handles) where
  abbrev pub pair_asked : (ℕ → Bytes → Bytes → Record) → List Term → Option Record
  pair_asked r (cf ∷ a ∷ b ∷ rest) = cf_key_value handles r cf a b
  pair_asked r (a ∷ b ∷ []) = key_value r a b
  pair_asked r _ = none

  abbrev pub key_asked : (ℕ → Bytes → Record) → List Term → Option Record
  key_asked r (cf ∷ a ∷ rest) = cf_key handles r cf a
  key_asked r (a ∷ []) = inspect_binary a >>= λ k. some (r 0 k)
  key_asked r [] = none

  abbrev pub write_answer : Option Record → Log → Reply × Log
  write_answer none log = (badarg, log)
  write_answer (some r) log = (atom_ok, record log { written = log.written ++ r ∷ [] })

  abbrev pub rollback_answer : Log → List (List Record) → Reply × Log
  rollback_answer log [] = (error_status, log)
  rollback_answer log (rs ∷ rest) = (atom_ok, record { written = rs; saves = rest })

  abbrev pub crash_unless_refused : {A : Type 0} → Option A → Reply
  crash_unless_refused none = badarg
  crash_unless_refused (some a) = crash

  -- On a released batch a call refuses its arguments or goes through a null pointer.
  abbrev pub released_answer : Request → Reply
  released_answer (puts args) = crash_unless_refused (pair_asked put args)
  released_answer (merges args) = crash_unless_refused (pair_asked merge args)
  released_answer (deletes args) = crash_unless_refused (key_asked delete args)
  released_answer (single_deletes args) = crash_unless_refused (key_asked single_delete args)
  released_answer (delete_ranges args) = crash_unless_refused (pair_asked delete_range args)
  released_answer (writes db options) = crash_unless_refused db
  released_answer _ = crash

  module _ (defaults : WriteOptions) (size : List Record → ℕ) where
    abbrev pub answer : Request → Log → Reply × Log
    answer (puts args) log = write_answer (pair_asked put args) log
    answer (merges args) log = write_answer (pair_asked merge args) log
    answer (deletes args) log = write_answer (key_asked delete args) log
    answer (single_deletes args) log = write_answer (key_asked single_delete args) log
    answer (delete_ranges args) log = write_answer (pair_asked delete_range args) log
    answer (writes none options) log = (badarg, log)
    answer (writes (some accepts) options) log = (
      if accepts (fold parse_write_option options defaults).1 (some log.written)
          then atom_ok
          else error_status,
      record { written = []; saves = [] },
    )
    answer clears log = (atom_ok, record { written = []; saves = [] })
    answer sets_save_point log = (atom_ok, record log { saves = log.written ∷ log.saves })
    answer rolls_back log = rollback_answer log log.saves
    answer counts log = (number (to_int (length log.written)), log)
    answer sizes log = (number (to_int (size log.written)), log)
    answer lists log = (rows (listed log.written), log)

    -- `none` is a batch that has been released.
    abbrev pub answer_call : BatchCall → Option Log → Reply × Option Log
    answer_call releases s = (atom_ok, none)
    answer_call (asks q) none = (released_answer q, none)
    answer_call (asks q) (some log) = ((answer q log).0, some (answer q log).1)

-- What goes through a null pointer ends the program.
abbrev pub unless_crash : Reply → List Reply → List Reply
unless_crash crash rest = []
unless_crash r rest = rest

-- The replies to calls in turn.
abbrev pub replies : {Q S : Type 0} → (Q → S → Reply × S) → List Q → S → List Reply
replies step [] s = []
replies step (q ∷ qs) s = (step q s).0 ∷ unless_crash (step q s).0 (replies step qs (step q s).1)
