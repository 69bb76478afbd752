-- ===== src/Examples.antt =====
-- The theorems at concrete inputs, and tests that the definitions run.
pub mod Merges
pub mod Lookups
pub mod Bitmaps
pub mod ErlangMerges
pub mod Numbers
pub mod Compaction
pub mod RefObjects
pub mod DbObjects
pub mod WriteBatches
pub mod Iterators
pub mod TransactionLogs
pub mod DatabaseCalls
pub mod Transactions
pub mod SstFiles
use erlang_rocksdb.Prelude.{
  ℕ, zero, suc, Option, none, some, List, [], ◌∷◌, Bool, true, false, ◌==◌, if◌then◌else◌,
}
use erlang_rocksdb.Bytes.{Bytes}
use erlang_rocksdb.Term.{Term, tuple, element, end, atom, binary, posting_add, posting_delete}

abbrev pub key_a : Bytes
key_a = 97 ∷ []

abbrev pub key_b : Bytes
key_b = 98 ∷ []

-- Terms on the wire, for tests: 131, a tag, and the key.
abbrev pub add_operand : Bytes → Bytes
add_operand key = 131 ∷ 1 ∷ key

abbrev pub delete_operand : Bytes → Bytes
delete_operand key = 131 ∷ 0 ∷ key

abbrev tagged : Bytes → Option Term
tagged (zero ∷ key) = some (tuple (element (atom posting_delete) (element (binary key) end)))
tagged (suc zero ∷ key) = some (tuple (element (atom posting_add) (element (binary key) end)))
tagged _ = none

abbrev pub decode : Bytes → Option Term
decode [] = none
decode (b ∷ d) = if b == 131 then tagged d else none

-- The V1 value with an entry that adds the key `a`.
abbrev pub value_of_a : Bytes
value_of_a = 0 ∷ 0 ∷ 0 ∷ 1 ∷ 0 ∷ 97 ∷ []
