-- ===== src/Counter.antt =====
-- c_src/counter_merge_operator.cc: an `int` that is stored as decimal text.
pub mod Sums
use erlang_rocksdb.Prelude.{Option, none, some, Bool, if◌then◌else◌, List, [], ◌∷◌}
use erlang_rocksdb.Prelude.Int.{ℤ, pos, ◌+ℤ◌}
use erlang_rocksdb.Bytes.{Bytes}
use erlang_rocksdb.Merged.{Merged, merged, rejected, undefined, ◌>>=◌, or_reject}
use erlang_rocksdb.Stoi.{is_int32, stoi, to_string}

-- A missing value counts from 0; `none` in `stoi` is an exception, which the operator catches.
unfoldable pub counter_of : Option Bytes → Merged ℤ
counter_of none = merged (pos 0)
counter_of (some existing) = or_reject (stoi existing)

-- `counter + oper` on `int`, which C++ leaves undefined where it overflows.
unfoldable pub add_int : ℤ → ℤ → Merged ℤ
add_int a b = if is_int32 (a +ℤ b) then merged (a +ℤ b) else undefined

unfoldable pub merge : Option Bytes → Bytes → Merged Bytes
merge existing value = do
  counter ← counter_of existing
  oper ← or_reject (stoi value)
  new_counter ← add_int counter oper
  merged (to_string new_counter)

-- RocksDB calls `Merge` for one operand after the other.
unfoldable pub merge_all : Option Bytes → List Bytes → Merged (Option Bytes)
merge_all existing [] = merged existing
merge_all existing (value ∷ rest) = do
  new_value ← merge existing value
  merge_all (some new_value) rest
