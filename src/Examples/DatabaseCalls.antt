-- ===== src/Examples/DatabaseCalls.antt =====
-- Calls of a database at concrete inputs, over a library that keeps the writes in a list.
use erlang_rocksdb.Prelude.{
  ℕ, ◌≡◌, refl, true, false, Option, none, some, List, [], ◌∷◌, map, if◌then◌else◌,
}
use erlang_rocksdb.Prelude.Int.{pos}
use erlang_rocksdb.Bytes.{Bytes}
use erlang_rocksdb.Bytes.Order.{eqb, compare_bytes}
use erlang_rocksdb.Term.{
  Term, atom, binary, nil, cons, opaque, named, atom_true, atom_sync, make_list,
}
use erlang_rocksdb.Examples.{key_a, key_b}
use erlang_rocksdb.WriteBatch.{Record, put, delete, Handles}
use erlang_rocksdb.Calls.{Status, k_ok, k_not_found, tuple2, fold}
use erlang_rocksdb.Calls.Options.{
  WriteOptions, ReadOptions, CompactRangeOptions, parse_write_option, k_read_all_tier,
  k_if_have_compaction_filter,
}
use erlang_rocksdb.Calls.Database.{Library, write_options_of, db_delete}
use erlang_rocksdb.Calls.Reads.{db_get, db_multi_get}
use erlang_rocksdb.Calls.Agreement.{all_replies, db_multi_get-db_get}
use erlang_rocksdb.Calls.Asked.{deletes, asked, heeds, serve, performed, serve-asked}
use erlang_rocksdb.Calls.Types.{a_binary}
use erlang_rocksdb.Calls.Outcome.{Request, gets, value, Answered, call}
use erlang_rocksdb.Calls.Answered.{call-Answered}

abbrev pub ok_status : Status
ok_status = record { code = k_ok; to_string = [] }

abbrev pub not_found_status : Status
not_found_status = record { code = k_not_found; to_string = [] }

abbrev pub write_defaults : WriteOptions
write_defaults = record {
  sync = false;
  disable_wal = false;
  ignore_missing_column_families = false;
  no_slowdown = false;
  low_pri = false;
}

abbrev pub read_defaults : ReadOptions
read_defaults = record {
  read_tier = k_read_all_tier;
  verify_checksums = true;
  fill_cache = true;
  tailing = false;
  total_order_seek = false;
  snapshot = none;
  auto_refresh_iterator_with_snapshot = false;
  readahead_size = 0;
  async_io = false;
}

abbrev compact_defaults : CompactRangeOptions
compact_defaults = record {
  exclusive_manual_compaction = true;
  change_level = false;
  target_level = pos 0;
  allow_write_stall = false;
  max_subcompactions = 0;
  bottommost_level_compaction = k_if_have_compaction_filter;
}

-- What was written, the latest first, with the options.
abbrev Written : Type 0
Written = List (WriteOptions × Record)

abbrev read : Bytes → Written → Status × Bytes
read k [] = (not_found_status, [])
read k ((o, put cf key v) ∷ ws) = if eqb key k then (ok_status, v) else read k ws
read k (_ ∷ ws) = read k ws

abbrev in_list : Library Written
in_list = record {
  write_options = write_defaults;
  read_options = read_defaults;
  flush_options = record { wait = true; allow_write_stall = false };
  compact_range_options = compact_defaults;
  get = λ o cf k d. read k d;
  multi_get = λ o cf ks d. map (λ k. read k d) ks;
  get_entity = λ o cf k d. (not_found_status, []);
  write = λ o r d. (ok_status, (o, r) ∷ d);
  put_entity = λ o cf k columns d. (ok_status, d);
  flush = λ o cf d. (ok_status, d);
  compact_range = λ o cf begin end_ d. (ok_status, d);
  is_valid_at_first = λ o d. false;
}

-- The term 7 is the handle of column family 3.
abbrev pub one_family : Handles
one_family = record { get_cf = family }
  where
    family : Term → Option ℕ
    family (opaque n) = some 3
    family _ = none

abbrev pub no_snapshots : Term → Option ℕ
no_snapshots t = none

abbrev one_put : Written
one_put = (write_defaults, put 3 key_a key_b) ∷ []

abbrev two_keys : List Term
two_keys = binary key_a ∷ binary key_b ∷ []

db_multi_get-db_get_example :
    db_multi_get in_list one_family no_snapshots (opaque 7 ∷ make_list two_keys ∷ nil ∷ []) one_put
    ≡ all_replies (
        map
          (λ key. db_get in_list one_family no_snapshots (opaque 7 ∷ key ∷ nil ∷ []) one_put)
          two_keys)
db_multi_get-db_get_example =
    db_multi_get-db_get in_list one_family no_snapshots (λ cf ks o d. refl) (opaque 7) nil 3
      two_keys one_put refl

abbrev sync_options : Term
sync_options = cons (tuple2 (atom (named atom_sync)) (atom (named atom_true))) nil

abbrev deletion : List Term
deletion = opaque 7 ∷ binary key_a ∷ sync_options ∷ []

serve-asked_example :
    serve in_list one_family deletes deletion one_put
    ≡ performed in_list one_family
        (if heeds deletes deletion
          then write_options_of in_list one_family (asked one_family deletes deletion).1
          else write_defaults)
        (asked one_family deletes deletion).0
        one_put
serve-asked_example = serve-asked in_list one_family deletes deletion one_put

-- The deletion that asks for `sync` is written without it.
unsynced :
    (serve in_list one_family deletes deletion one_put).1
    ≡ (write_defaults, delete 3 key_a) ∷ one_put
unfolding db_delete write_options_of fold parse_write_option
unsynced = refl

abbrev one_get : Request
one_get = gets (opaque 7 ∷ binary key_a ∷ nil ∷ [])

-- A key that is missing, and one that is no binary.
call_not_found :
    Answered
      (value a_binary)
      (some k_not_found)
      (call in_list one_family no_snapshots (gets (binary key_b ∷ nil ∷ [])) one_put).0
unfolding eqb compare_bytes
call_not_found =
    call-Answered in_list one_family no_snapshots (gets (binary key_b ∷ nil ∷ [])) one_put

call_refused :
    Answered
      (value a_binary)
      none
      (call in_list one_family no_snapshots (gets (opaque 1 ∷ nil ∷ [])) one_put).0
call_refused = call-Answered in_list one_family no_snapshots (gets (opaque 1 ∷ nil ∷ [])) one_put
