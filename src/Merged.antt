-- ===== src/Merged.antt =====
-- How a merge of the C++ operators ends.
use erlang_rocksdb.Prelude.{Option, none, some}

-- With a value, with `return false`, with behaviour that C++ does not
-- define (a read past the tuple, a signed overflow), or with an exception that nothing catches.
pub data Merged {ℓ} (A : Type ℓ) : Type ℓ where
  merged : A → Merged A
  rejected : Merged A
  undefined : Merged A
  exception : Merged A

infixl 5 ◌>>=◌
abbrev pub ◌>>=◌ {ℓ κ} : {A : Type ℓ} {B : Type κ} → Merged A → (A → Merged B) → Merged B
merged a >>= f = f a
rejected >>= f = rejected
undefined >>= f = undefined
exception >>= f = exception

-- `if (!...) return false;`
abbrev pub or_reject {ℓ} : {A : Type ℓ} → Option A → Merged A
or_reject none = rejected
or_reject (some a) = merged a
