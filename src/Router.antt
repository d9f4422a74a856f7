-- ===== src/Router.antt =====
-- ShardRouter of app/include/engine/hasher.h and app/src/engine/hasher.cpp.
pub mod Index
pub mod Contract
use Prim.Native.Nat.{bit_and}
use in_memory_db.Base.{
  ℕ, ◌+◌, ◌-◌, ◌/◌, ◌%◌, ◌^◌, Bool, false, not, ◌&&◌, Option, none, some, List, ◌==◌, if◌then◌else◌,
  replicate, get_elem?, set as set_elem,
}
use in_memory_db.Base.Int.{ℤ}
use in_memory_db.Text.{Bytes}
use in_memory_db.Hasher.{murmur_hash3}
use in_memory_db.Shard
use in_memory_db.Shard.{Shard, Env}

pub record ShardRouter : Type 0 where
  pub shard_count : ℕ
  pub shard_mask : ℕ
  pub shards : List Shard

is_power_of_two : ℕ → Bool
is_power_of_two n = bit_and n ((n + 2 ^ 64 - 1) % 2 ^ 64) == 0

-- ShardRouter(total_memory, shard_count); `none` is the failed assertion, or the division by
-- zero behind it.
unfoldable pub new_router : ℕ → ℕ → Option ShardRouter
unfolding is_power_of_two
new_router total_memory shard_count =
    if is_power_of_two shard_count && not (shard_count == 0)
    then some (record {
      shard_count = shard_count;
      shard_mask = (shard_count + 2 ^ 64 - 1) % 2 ^ 64;
      shards = replicate shard_count (Shard.new_shard (total_memory / shard_count));
    })
    else none

unfoldable pub shard_index : ShardRouter → Bytes → ℕ
shard_index r key = bit_and (murmur_hash3 key 0) r.shard_mask

-- *shards_[shard_index(key)]; there is a shard at every index (Router/Index).
unfoldable pub shard_for_key : ShardRouter → Bytes → Option Shard
shard_for_key r key = get_elem? r.shards (shard_index r key)

-- A call on the shard of a key, and the router that holds the shard as the call leaves it.
unfoldable pub on_shard :
    {A : Type 0} → Bytes → A → (Shard → Shard × A) → ShardRouter → ShardRouter × A
on_shard key missing call r = elim (shard_for_key r key) [
  | none ↦ (r, missing)
  | some s ↦ (record r { shards = set_elem r.shards (shard_index r key) (call s).0 }, (call s).1)
]

unfoldable pub set : Env → Bytes → Bytes → ℤ → ShardRouter → ShardRouter × Bool
set env key value ttl = on_shard key false (Shard.set env key value ttl)

unfoldable pub get : ℕ → Bytes → ShardRouter → Option Bytes
get now key r = elim (shard_for_key r key) [ none ↦ none | some s ↦ Shard.get now key s ]

unfoldable pub del : Bytes → ShardRouter → ShardRouter × Bool
del key = on_shard key false (Shard.del key)

unfoldable pub exists : ℕ → Bytes → ShardRouter → Bool
exists now key r = elim (shard_for_key r key) [ none ↦ false | some s ↦ Shard.exists now key s ]
