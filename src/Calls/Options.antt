-- ===== src/Calls/Options.antt =====
-- The options of reads and writes: `parse_read_option`, `parse_write_option`,
-- `parse_flush_option` and `parse_compact_range_option` of c_src/erocksdb_db.cc, `parse_txn_option` of
-- c_src/pessimistic_transaction.cc. The defaults are the storage library's.
use erlang_rocksdb.Prelude.{ℕ, Bool, true, false, Option, none, some}
use erlang_rocksdb.Prelude.Int.{ℤ}
use erlang_rocksdb.Term.{
  Term, atom, tuple, element, end, Name, named, atom_true, atom_sync, atom_disable_wal,
  atom_ignore_missing_column_families, atom_no_slowdown, atom_low_pri, atom_wait,
  atom_allow_write_stall, atom_read_tier, atom_read_all_tier, atom_block_cache_tier,
  atom_persisted_tier, atom_memtable_tier, atom_verify_checksums, atom_fill_cache, atom_tailing,
  atom_total_order_seek, atom_snapshot, atom_auto_refresh_iterator_with_snapshot,
  atom_readahead_size, atom_async_io, atom_set_snapshot, atom_deadlock_detect, atom_lock_timeout,
  get_int64, get_uint64, get_int, get_uint, atom_exclusive_manual_compaction, atom_change_level,
  atom_target_level, atom_max_subcompactions, atom_bottommost_level_compaction, atom_skip,
  atom_if_have_compaction_filter, atom_force, atom_force_optimized,
}

pub record WriteOptions : Type 0 where
  pub sync : Bool
  pub disable_wal : Bool
  pub ignore_missing_column_families : Bool
  pub no_slowdown : Bool
  pub low_pri : Bool

pub data ReadTier : Type 0 where
  k_read_all_tier k_block_cache_tier k_persisted_tier k_memtable_tier : ReadTier

-- A snapshot is named by a number.
pub record ReadOptions : Type 0 where
  pub read_tier : ReadTier
  pub verify_checksums : Bool
  pub fill_cache : Bool
  pub tailing : Bool
  pub total_order_seek : Bool
  pub snapshot : Option ℕ
  pub auto_refresh_iterator_with_snapshot : Bool
  pub readahead_size : ℕ
  pub async_io : Bool

pub record FlushOptions : Type 0 where
  pub wait : Bool
  pub allow_write_stall : Bool

pub record TransactionOptions : Type 0 where
  pub set_snapshot : Bool
  pub deadlock_detect : Bool
  pub lock_timeout : ℤ

-- `option[1] == ATOM_TRUE`
abbrev pub is_true : Term → Bool
is_true (atom (named atom_true)) = true
is_true _ = false

-- The first result of each parser is whether it returns `ok`.
unfoldable pub parse_write_option : Term → WriteOptions → Bool × WriteOptions
parse_write_option (tuple (element (atom (named atom_sync)) (element v end))) opts =
    (true, record opts { sync = is_true v })
parse_write_option (tuple (element (atom (named atom_disable_wal)) (element v end))) opts =
    (true, record opts { disable_wal = is_true v })
parse_write_option
      (tuple (element (atom (named atom_ignore_missing_column_families)) (element v end))) opts =
    (true, record opts { ignore_missing_column_families = is_true v })
parse_write_option (tuple (element (atom (named atom_no_slowdown)) (element v end))) opts =
    (true, record opts { no_slowdown = is_true v })
parse_write_option (tuple (element (atom (named atom_low_pri)) (element v end))) opts =
    (true, record opts { low_pri = is_true v })
parse_write_option _ opts = (true, opts)

unfoldable pub parse_flush_option : Term → FlushOptions → Bool × FlushOptions
parse_flush_option (tuple (element (atom (named atom_wait)) (element v end))) opts =
    (true, record opts { wait = is_true v })
parse_flush_option (tuple (element (atom (named atom_allow_write_stall)) (element v end))) opts =
    (true, record opts { allow_write_stall = is_true v })
parse_flush_option _ opts = (true, opts)

unfoldable pub parse_txn_option : Term → TransactionOptions → Bool × TransactionOptions
parse_txn_option (tuple (element (atom (named atom_set_snapshot)) (element v end))) opts =
    (true, record opts { set_snapshot = is_true v })
parse_txn_option (tuple (element (atom (named atom_deadlock_detect)) (element v end))) opts =
    (true, record opts { deadlock_detect = is_true v })
parse_txn_option (tuple (element (atom (named atom_lock_timeout)) (element v end))) opts =
    elim (get_int64 v) [ none ↦ (true, opts) | some n ↦ (true, record opts { lock_timeout = n }) ]
parse_txn_option _ opts = (true, opts)

abbrev tier_of : Term → ReadTier → ReadTier
tier_of (atom (named atom_read_all_tier)) tier = k_read_all_tier
tier_of (atom (named atom_block_cache_tier)) tier = k_block_cache_tier
tier_of (atom (named atom_persisted_tier)) tier = k_persisted_tier
tier_of (atom (named atom_memtable_tier)) tier = k_memtable_tier
tier_of _ tier = tier

-- `get_snapshot` is the snapshot of an open snapshot handle; the return of `badarg` for another
-- term only ends the `fold`.
unfoldable pub parse_read_option : (Term → Option ℕ) → Term → ReadOptions → Bool × ReadOptions
parse_read_option get_snapshot (tuple (element (atom (named atom_read_tier)) (element v end)))
      opts =
    (true, record opts { read_tier = tier_of v opts.read_tier })
parse_read_option get_snapshot
      (tuple (element (atom (named atom_verify_checksums)) (element v end))) opts =
    (true, record opts { verify_checksums = is_true v })
parse_read_option get_snapshot (tuple (element (atom (named atom_fill_cache)) (element v end)))
      opts =
    (true, record opts { fill_cache = is_true v })
parse_read_option get_snapshot (tuple (element (atom (named atom_tailing)) (element v end))) opts =
    (true, record opts { tailing = is_true v })
parse_read_option get_snapshot
      (tuple (element (atom (named atom_total_order_seek)) (element v end))) opts =
    (true, record opts { total_order_seek = is_true v })
parse_read_option get_snapshot (tuple (element (atom atom_snapshot) (element v end))) opts =
    elim (get_snapshot v) [
      | none ↦ (false, opts)
      | some s ↦ (true, record opts { snapshot = some s })
    ]
parse_read_option get_snapshot
      (tuple (element (atom (named atom_auto_refresh_iterator_with_snapshot)) (element v end)))
      opts =
    (true, record opts { auto_refresh_iterator_with_snapshot = is_true v })
parse_read_option get_snapshot (tuple (element (atom (named atom_readahead_size)) (element v end)))
      opts =
    elim (get_uint64 v) [
      | none ↦ (true, opts)
      | some n ↦ (true, record opts { readahead_size = n })
    ]
parse_read_option get_snapshot (tuple (element (atom (named atom_async_io)) (element v end))) opts =
    (true, record opts { async_io = is_true v })
parse_read_option get_snapshot _ opts = (true, opts)

pub data BottommostLevelCompaction : Type 0 where
  k_skip k_if_have_compaction_filter k_force k_force_optimized : BottommostLevelCompaction

pub record CompactRangeOptions : Type 0 where
  pub exclusive_manual_compaction : Bool
  pub change_level : Bool
  pub target_level : ℤ
  pub allow_write_stall : Bool
  pub max_subcompactions : ℕ
  pub bottommost_level_compaction : BottommostLevelCompaction

abbrev bottommost_of : Term → BottommostLevelCompaction → BottommostLevelCompaction
bottommost_of (atom (named atom_skip)) b = k_skip
bottommost_of (atom (named atom_if_have_compaction_filter)) b = k_if_have_compaction_filter
bottommost_of (atom (named atom_force)) b = k_force
bottommost_of (atom (named atom_force_optimized)) b = k_force_optimized
bottommost_of _ b = b

abbrev compact_range_option : Name → Term → CompactRangeOptions → CompactRangeOptions
compact_range_option atom_exclusive_manual_compaction v opts = record opts {
  exclusive_manual_compaction = is_true v;
}
compact_range_option atom_change_level v opts = record opts { change_level = is_true v }
compact_range_option atom_target_level v opts = elim (get_int v) [
  | none ↦ opts
  | some n ↦ record opts { target_level = n }
]
compact_range_option atom_allow_write_stall v opts = record opts { allow_write_stall = is_true v }
compact_range_option atom_max_subcompactions v opts = elim (get_uint v) [
  | none ↦ opts
  | some n ↦ record opts { max_subcompactions = n }
]
compact_range_option atom_bottommost_level_compaction v opts = record opts {
  bottommost_level_compaction = bottommost_of v opts.bottommost_level_compaction;
}
compact_range_option _ v opts = opts

unfoldable pub parse_compact_range_option : Term → CompactRangeOptions → Bool × CompactRangeOptions
parse_compact_range_option (tuple (element (atom (named name)) (element v end))) opts =
    (true, compact_range_option name v opts)
parse_compact_range_option _ opts = (true, opts)
