-- ===== src/CompactionFilter/Filter.antt =====
-- `ErlangCompactionFilter::FilterV2` and `CallErlangHandler` of c_src/compaction_filter.cc.
use erlang_rocksdb.Prelude.{
  ℕ, ◌+◌, ◌-◌, Bool, true, not, Option, some, List, ◌∷◌, if◌then◌else◌, ◌>>=◌,
}
use erlang_rocksdb.Bytes.{Bytes}
use erlang_rocksdb.CompactionFilter.{
  FilterDecision, keep, remove, change_value, FilterResult, result_of, FilterRule,
}
use erlang_rocksdb.CompactionFilter.Rules.{apply_rules}
use erlang_rocksdb.CompactionFilter.Batch.{new_batch, set_responses, wait_for_response, get_result}

-- The filter's own state; `handler_dead` is the one field that `FilterV2` changes.
pub record Filter : Type 0 where
  pub use_erlang_callback : Bool
  pub rules : List FilterRule
  pub handler_dead : Bool

-- `{Level, Key, Value}` of the message to the handler.
pub record Message : Type 0 where
  pub level : ℕ
  pub key : Bytes
  pub value : Bytes

-- What a call holds of the runtime, and what it has sent.
pub record World : Type 0 where
  pub envs : ℕ
  pub references : ℕ
  pub mailbox : List Message

-- What the runtime and the handler do during one call: each `false` is a failure. `during` are the
-- responses set before the wait ends, `between` those set before the result is read.
pub record Runtime : Type 0 where
  pub env_allocated : Bool
  pub alive : Bool
  pub batch_allocated : Bool
  pub key_allocated : Bool
  pub value_allocated : Bool
  pub sent : Bool
  pub during : List (List FilterResult)
  pub between : List (List FilterResult)

abbrev alloc_env : World → World
alloc_env w = record {
  envs = World.envs w + 1;
  references = World.references w;
  mailbox = World.mailbox w;
}

abbrev free_env : World → World
free_env w = record {
  envs = World.envs w - 1;
  references = World.references w;
  mailbox = World.mailbox w;
}

abbrev alloc_resource : World → World
alloc_resource w = record {
  envs = World.envs w;
  references = World.references w + 1;
  mailbox = World.mailbox w;
}

abbrev release_resource : World → World
release_resource w = record {
  envs = World.envs w;
  references = World.references w - 1;
  mailbox = World.mailbox w;
}

abbrev send : Message → World → World
send m w = record {
  envs = World.envs w;
  references = World.references w;
  mailbox = m ∷ World.mailbox w;
}

abbrev mark_dead : Filter → Filter
mark_dead f = record {
  use_erlang_callback = Filter.use_erlang_callback f;
  rules = Filter.rules f;
  handler_dead = true;
}

-- The response in the batch at the time of the read, or the fallback of a timeout.
unfoldable pub answer : Runtime → FilterResult
answer r =
    if (wait_for_response (Runtime.during r) new_batch).0
    then get_result 0
        (set_responses (Runtime.between r) (wait_for_response (Runtime.during r) new_batch).1)
    else result_of keep

unfoldable pub call_erlang_handler :
    Runtime → Filter → World → ℕ → Bytes → Bytes → FilterResult × Filter × World
call_erlang_handler r f w level key value =
    if not_allocated
    then (result_of keep, f, w)
    else if not (Runtime.alive r)
    then (result_of keep, mark_dead f, free_env (alloc_env w))
    else if not (Runtime.batch_allocated r)
    then (result_of keep, f, free_env (alloc_env w))
    else if not (Runtime.key_allocated r)
    then (result_of keep, f, free_env (release_resource (alloc_resource (alloc_env w))))
    else if not (Runtime.value_allocated r)
    then (result_of keep, f, free_env (release_resource (alloc_resource (alloc_env w))))
    else if not (Runtime.sent r)
    then (result_of keep, mark_dead f, free_env (release_resource (alloc_resource (alloc_env w))))
    else (answer r, f, free_env (release_resource (send message (alloc_resource (alloc_env w)))))
  where
    not_allocated : Bool
    not_allocated = not (Runtime.env_allocated r)

    message : Message
    message = record { level = level; key = key; value = value }

-- `rocksdb::CompactionFilter::ValueType`, as far as the filter looks at it.
pub data ValueType : Type 0 where
  merge_operand other_type : ValueType

-- `rocksdb::CompactionFilter::Decision`; `k_change_value` carries `*new_value`.
pub data Decision : Type 0 where
  k_keep k_remove k_purge : Decision
  k_change_value : Bytes → Decision

unfoldable pub decide : ValueType → FilterDecision → Bytes → Decision
decide merge_operand remove v = k_remove
decide merge_operand _ v = k_keep
decide other_type remove v = k_purge
decide other_type change_value v = k_change_value v
decide other_type keep v = k_keep

-- The reading of the rules or the handler's answer; `none` is the undefined read of `check_ttl`.
unfoldable pub filter_v2 :
    (ℕ → ℕ)
    → Runtime
    → Filter
    → World
    → ℕ
    → Bytes
    → ValueType
    → Bytes
    → Option (Decision × Filter × World)
filter_v2 clock r f w level key type value =
    if Filter.use_erlang_callback f
    then (if Filter.handler_dead f
        then some (k_keep, f, w)
        else some (decided (call_erlang_handler r f w level key value)))
    else do
      result ← apply_rules clock 0 key value (Filter.rules f)
      some (decide type (FilterResult.decision result) (FilterResult.new_value result), f, w)
  where
    decided : FilterResult × Filter × World → Decision × Filter × World
    decided (result, f', w') =
        (decide type (FilterResult.decision result) (FilterResult.new_value result), f', w')
