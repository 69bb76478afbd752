-- ===== src/Bytes.antt =====
-- Byte strings (`std::string`, `rocksdb::Slice`, `ErlNifBinary`): lists of numbers below 256.
pub mod Order
pub mod BigEndian
use erlang_rocksdb.Prelude.{ℕ, ◌<◌, List, All}

abbrev pub Bytes : Type 0
Bytes = List ℕ

abbrev pub IsByte : ℕ → Type 0
IsByte b = b < 256

abbrev pub IsBytes : Bytes → Type 0
IsBytes = All IsByte
