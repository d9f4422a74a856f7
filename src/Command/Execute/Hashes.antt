-- ===== src/Command/Execute/Hashes.antt =====
-- HSET and HGET, on the shard of their key.
use in_memory_db.Base.{ℕ, Bool, true, false, Option, none, some, [], if◌then◌else◌}
use in_memory_db.Base.Int.{ℤ}
use in_memory_db.Text.{Bytes, bytes_HasEq}
use in_memory_db.Dict.{Dict, find, insert_or_assign, contains}
use in_memory_db.Memory.{perform, is_hard_limit_reached}
use in_memory_db.Value.{ValueVariant, hash, CacheAlignedValue, new_value}
use in_memory_db.Shard.{Shard, Env}
use in_memory_db.Command.Reply.{oom_reply, wrong_type_reply, nil_reply, integer_reply, bulk_reply}
use in_memory_db.Command.Execute.Lists.{find_live}

-- std::get_if<std::pmr::unordered_map<std::pmr::string, std::pmr::string>>
pub as_hash : ValueVariant → Option (Dict Bytes Bytes)
as_hash (hash h) = some h
as_hash v = none

put_field :
    Bytes
    → Bytes
    → Bytes
    → CacheAlignedValue
    → Shard
    → Option (Dict Bytes Bytes)
    → Shard × (Bool × Bytes)
put_field key field value v s none = (s, (false, wrong_type_reply))
put_field key field value v s (some h) = (
  record s {
    entries =
        insert_or_assign key (record v { value = hash (insert_or_assign field value h) }) s.entries;
  },
  (true, integer_reply (if contains field h then 0 else 1)),
)

unfoldable pub hset_entry : ℕ → Bytes → Bytes → Bytes → ℤ → Shard → Shard × (Bool × Bytes)
unfolding put_field as_hash
hset_entry now key field value ttl s = elim (find_live now key s) [
  | none ↦ (
    record s {
      entries =
          insert_or_assign key (new_value now (hash (insert_or_assign field value [])) ttl)
            s.entries;
    },
    (true, integer_reply 1),
  )
  | some v ↦ put_field key field value v s (as_hash v.value)
]

unfoldable pub hset_shard : Env → Bytes → Bytes → Bytes → ℤ → Shard → Shard × (Bool × Bytes)
unfolding hset_entry
hset_shard env key field value ttl s =
    if is_hard_limit_reached s.arena
    then (s, (false, oom_reply))
    else (let (t, done) = perform env.traffic s.arena in
        if done
        then hset_entry env.now key field value ttl (record s { arena = t })
        else (record s { arena = t }, (false, oom_reply)))

field_reply : Option Bytes → Bytes
field_reply none = nil_reply
field_reply (some v) = bulk_reply v

unfoldable pub hget_shard : ℕ → Bytes → Bytes → Shard → Bytes
unfolding as_hash field_reply
hget_shard now key field s = elim (find_live now key s) [
  | none ↦ nil_reply
  | some v ↦ elim (as_hash v.value) [
    | none ↦ wrong_type_reply
    | some h ↦ field_reply (find field h)
  ]
]
