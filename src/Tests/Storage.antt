-- ===== src/Tests/Storage.antt =====
-- The memory account, the values, the shards and the router at concrete inputs.
use in_memory_db.Base.{ℕ, ◌≡◌, ◌^◌, ◌↔◌, is_some, true, false, none, some, [], ◌∷◌, refl, arith}
use in_memory_db.Base.Int.{pos}
use in_memory_db.Text.{codes, bytes_eq, bytes_HasEq}
use in_memory_db.Memory.{
  Tracker, Traffic, perform, new_arena, is_hard_limit_reached, allocate_all, do_allocate,
}
use in_memory_db.Memory.Accounting.{IsWithin, perform-IsWithin, perform_failed}
use in_memory_db.Value.{CacheAlignedValue, new_value, string, expired_at}
use in_memory_db.Shard
use in_memory_db.Shard.{Shard, Env, evict_expired, key_count}
use in_memory_db.Shard.Contract as Contract
use in_memory_db.Dict.{find}
use in_memory_db.Router.{
  ShardRouter, new_router, on_shard, shard_for_key, set, get, del, shard_index,
}
use in_memory_db.Router.Index.{new_router-IsRouted, new_router_accepts}
use in_memory_db.Router.Contract as Routed
use in_memory_db.Hasher.{murmur_hash3}
use in_memory_db.Tests.{at_second, four_shards, four_shards-IsRouted}

abbrev small : Tracker
small = new_arena 100

small-IsWithin : IsWithin small
unfolding new_arena
small-IsWithin = record { used = omega arith; small = omega arith }

-- The second request does not fit.
abbrev greedy : Traffic
greedy = record {
  requests = record { bytes = 64; granted = true } ∷ record { bytes = 64; granted = true } ∷ [];
  released = [];
}

perform-IsWithin_example : IsWithin (perform greedy small).0
perform-IsWithin_example = perform-IsWithin greedy small small-IsWithin

perform_failed_example : (perform greedy small).0 ≡ small
unfolding perform allocate_all do_allocate new_arena
perform_failed_example =
    perform_failed greedy small small-IsWithin (omega arith, (omega arith, tt)) refl

-- A value of the second 5 that lives for 10 seconds.
abbrev brief : CacheAlignedValue
brief = new_value 5_000_000_000 (string (codes "v")) (pos 10)

abbrev one_key : Shard
one_key = record { arena = small; entries = (codes "k", brief) ∷ [] }

one_key-IsWellFormed : Contract.IsWellFormed one_key
unfolding find
one_key-IsWellFormed = record { unique = (refl, tt); within = small-IsWithin }

new_router_accepts_example : (is_some (new_router 1024 4) ≡ true) ↔ ((k : ℕ) × (4 ≡ 2 ^ k))
new_router_accepts_example = new_router_accepts 1024 4 (omega arith)

set_accepted : (set (at_second 5) (codes "a") (codes "v") (pos 10) four_shards).1 ≡ true
unfolding set on_shard shard_for_key shard_index murmur_hash3 Shard.set is_hard_limit_reached
    Shard.new_shard new_arena Shard.store_entry perform allocate_all do_allocate
set_accepted = refl

router_get-set_example :
    get 9_000_000_000 (codes "a") (set (at_second 5) (codes "a") (codes "v") (pos 10) four_shards).0
    ≡ some (codes "v")
unfolding bytes_eq expired_at
router_get-set_example =
    Routed.router_get-set (at_second 5) (codes "a") (codes "a") (codes "v") (pos 10) four_shards
      9_000_000_000 four_shards-IsRouted set_accepted

-- Shards of 4 bytes each.
abbrev tiny : ShardRouter
tiny = record { shard_count = 1; shard_mask = 0; shards = Shard.new_shard 4 ∷ [] }

tiny-IsWellFormed : Routed.IsWellFormed tiny
unfolding new_router Shard.new_shard new_arena
tiny-IsWellFormed = record {
  routed = new_router-IsRouted 4 1 tiny (omega arith) refl;
  shards =
      (record { unique = tt; within = record { used = omega arith; small = omega arith } }, tt);
}

set_refused : (set (at_second 5) (codes "a") (codes "v") (pos 10) tiny).1 ≡ false
unfolding set on_shard shard_for_key shard_index murmur_hash3 Shard.set is_hard_limit_reached
    Shard.new_shard new_arena Shard.store_entry perform allocate_all do_allocate
set_refused = refl

router_set_failed_example : (set (at_second 5) (codes "a") (codes "v") (pos 10) tiny).0 ≡ tiny
router_set_failed_example =
    Routed.router_set_failed (at_second 5) (codes "a") (codes "v") (pos 10) tiny tiny-IsWellFormed
      (omega arith, tt) set_refused

router_get-del_example : get 9_000_000_000 (codes "a") (del (codes "a") four_shards).0 ≡ none
unfolding bytes_eq
router_get-del_example =
    Routed.router_get-del (codes "a") (codes "a") four_shards 9_000_000_000 four_shards-IsRouted
