-- ===== src/Tests.antt =====
-- The theorems at concrete inputs, part by part, and the data that the parts share.
mod Storage
mod Commands
mod Logging
mod Network
mod Expiring
mod Sessions
mod Polling
mod Ending
mod Tearing
mod Joining
mod Interleaving
mod Crashing
mod Broker
mod Working
use in_memory_db.Base.{ℕ, ◌*◌, ◌^◌, ◌<◌, true, List, [], ◌∷◌, refl, arith, replicate}
use in_memory_db.Text.{Bytes, codes}
use in_memory_db.Memory.{Traffic}
use in_memory_db.Shard.{Shard, Env, new_shard}
use in_memory_db.Router.{ShardRouter, new_router}
use in_memory_db.Router.Index.{IsRouted, new_router-IsRouted}

-- An operation that takes 64 bytes and gives 16 back.
abbrev pub traffic : Traffic
traffic = record { requests = record { bytes = 64; granted = true } ∷ []; released = 16 ∷ [] }

-- A call at a number of seconds.
abbrev pub at_second : ℕ → Env
at_second n = record { now = n * 1_000_000_000; traffic = traffic }

-- ShardRouter(1024, 4)
abbrev pub four_shards : ShardRouter
four_shards = record { shard_count = 4; shard_mask = 3; shards = replicate 4 (new_shard 256) }

pub four_shards-IsRouted : IsRouted four_shards
unfolding new_router
four_shards-IsRouted = new_router-IsRouted 1024 4 four_shards (omega arith) refl
