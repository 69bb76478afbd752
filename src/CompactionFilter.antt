-- ===== src/CompactionFilter.antt =====
-- c_src/compaction_filter.h, c_src/compaction_filter.cc: what a compaction keeps, drops or changes.
pub mod Rules
pub mod Batch
pub mod Filter
pub mod Matching
pub mod Expiry
pub mod Outcome
pub mod Failures
pub mod Answers
pub mod Options
pub mod Parsed
pub mod Total
use erlang_rocksdb.Prelude.{ℕ, List, []}
use erlang_rocksdb.Bytes.{Bytes}

pub data FilterDecision : Type 0 where
  keep remove change_value : FilterDecision

-- `new_value` counts only for `change_value`.
pub record FilterResult : Type 0 where
  pub decision : FilterDecision
  pub new_value : Bytes

abbrev pub result_of : FilterDecision → FilterResult
result_of d = record { decision = d; new_value = [] }

pub data RuleType : Type 0 where
  key_prefix key_suffix key_contains value_empty value_prefix ttl_from_key always : RuleType

pub record FilterRule : Type 0 where
  pub type : RuleType
  pub pattern : Bytes
  pub offset : ℕ
  pub length : ℕ
  pub ttl_seconds : ℕ
