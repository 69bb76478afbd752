-- ===== src/TransactionLog.antt =====
-- The functions of c_src/transaction_log.cc that read the updates of a database and write them to
-- another.
pub mod Replication
use erlang_rocksdb.Prelude.{
  ℕ, ◌-◌, ◌%◌, ◌^◌, Bool, true, false, Option, none, some, List, [], ltb, if◌then◌else◌,
}
use erlang_rocksdb.Prelude.Int.{ℤ, pos, negsuc}
use erlang_rocksdb.Bytes.{Bytes}
use erlang_rocksdb.Term.{Term, inspect_binary}
use erlang_rocksdb.WriteBatch.{Record, Row, iterate, reverse_onto}
use erlang_rocksdb.Calls.{fold}
use erlang_rocksdb.Calls.Options.{WriteOptions, parse_write_option}

-- `rocksdb::TransactionLogIterator` with the batches that it gives, `B`, and a database `D` that
-- batches are written to; `write` also says whether the status is
-- ok, and `write_options` are its defaults.
pub record Library (I B D : Type 0) : Type 0 where
  pub valid : I → Bool
  pub status : I → Bool
  pub sequence : I → ℕ
  pub get_batch : I → B
  pub next : I → I
  pub records : B → List Record
  pub get_data : B → Bytes
  pub of_data : Bytes → B
  pub write_options : WriteOptions
  pub write : WriteOptions → B → D → Bool × D

pub data Reply : Type 0 where
  update : ℤ → List Row → Bytes → Reply
  binary_update : ℤ → Bytes → Reply
  atom_ok invalid_iterator error_status badarg : Reply

-- A 64-bit sequence number given to `enif_make_int64`.
unfoldable pub to_int64 : ℕ → ℤ
to_int64 n =
    if ltb (n % 2 ^ 64) (2 ^ 63) then pos (n % 2 ^ 64) else negsuc (2 ^ 64 - n % 2 ^ 64 - 1)

module _ {I B D : Type 0} (lib : Library I B D) where
  -- The handle has been retrieved.
  unfoldable pub transaction_log_next_update : I → Reply × I
  unfolding to_int64 iterate
  transaction_log_next_update itr =
      if lib.valid itr
      then if lib.status itr
        then (
          update (to_int64 (lib.sequence itr))
              (reverse_onto (iterate (lib.records (lib.get_batch itr)) []) [])
              (lib.get_data (lib.get_batch itr)),
          lib.next itr,
        )
        else (error_status, itr)
      else (invalid_iterator, itr)

  unfoldable pub transaction_log_next_binary_update : I → Reply × I
  unfolding to_int64
  transaction_log_next_binary_update itr =
      if lib.valid itr
      then if lib.status itr
        then (
          binary_update (to_int64 (lib.sequence itr)) (lib.get_data (lib.get_batch itr)),
          lib.next itr,
        )
        else (error_status, itr)
      else (invalid_iterator, itr)

  unfoldable pub write_options_of : Term → WriteOptions
  unfolding fold parse_write_option
  write_options_of options = (fold parse_write_option options lib.write_options).1

  abbrev pub write_data : Option Bytes → Term → D → Reply × D
  write_data none options db = (badarg, db)
  write_data (some b) options db =
      let r = lib.write (write_options_of options) (lib.of_data b) db in
      (if r.0 then atom_ok else error_status, r.1)

  -- The database has been retrieved, or not.
  unfoldable pub write_binary_update : Bool → Term → Term → D → Reply × D
  unfolding write_options_of
  write_binary_update open_ bin options db =
      if open_ then write_data (inspect_binary bin) options db else (badarg, db)
