-- ===== src/ErlangMerge/Binaries.antt =====
-- Merges of binaries: where `binary_replace` is safe, and where it throws.
use erlang_rocksdb.Prelude.{
  ℕ, ◌+◌, ◌^◌, ◌<◌, ◌≡◌, ◌↔◌, ◌++◌, arith, if◌then◌else◌, length, take, drop, ltb,
}
use erlang_rocksdb.Bytes.{Bytes}
use erlang_rocksdb.Bytes.BigEndian.{to_u32}
use erlang_rocksdb.ErlangMerge.Operations.{merged, exception, replace}

-- While the end of the range does not wrap around, the range is replaced if it ends before the end
-- of the binary, and nothing happens if it does not.
pub replace_in_range :
    (pos count : ℕ) (bin s : Bytes)
    → pos + count < 2 ^ 32
    → replace pos count bin s ≡ (
        if ltb (pos + count) (length s)
        then merged (take pos s ++ (bin ++ drop (pos + count) s))
        else merged s)
unfolding replace
replace_in_range pos count bin s h = ground arith

-- `binary_replace` throws exactly if the end of its range, wrapped to 32 bits, is inside the binary
-- while its start is past the end.
pub replace-exception :
    (pos count : ℕ) (bin s : Bytes)
    → (replace pos count bin s ≡ exception) ↔ ((to_u32 (pos + count) < length s) × (length s < pos))
unfolding replace
replace-exception pos count bin s = ground arith
