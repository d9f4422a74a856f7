-- ===== src/Command/Execute.antt =====
-- The `execute` methods of app/src/core/command.cpp, on the router and the logger that they are given.
pub mod Lists
pub mod Hashes
use in_memory_db.Base.{ℕ, Bool, true, false, Option, none, some, [], ◌∷◌, ◌++◌, if◌then◌else◌}
use in_memory_db.Base.Int.{ℤ, pos}
use in_memory_db.Text.{Bytes, codes}
use in_memory_db.Aof
use in_memory_db.Aof.{AofLogger}
use in_memory_db.Shard
use in_memory_db.Shard.{Shard, Env}
use in_memory_db.Router
use in_memory_db.Router.{ShardRouter, on_shard, shard_for_key}
use in_memory_db.Command.{
  Command, set, get, del, exists, ping, lpush, lrange, hset, hget, serialize,
}
use in_memory_db.Command.Reply.{
  ok_reply, pong_reply, nil_reply, oom_reply, integer_reply, bulk_reply,
}
use Lists.{lpush_shard, lrange_shard}
use Hashes.{hset_shard, hget_shard}

-- What `execute(ShardRouter&, AofLogger*)` can reach.
pub record Store : Type 0 where
  pub router : ShardRouter
  pub aof : Option AofLogger

-- if (aof && !aof->is_replaying()) aof->log(serialize());
unfoldable pub log_write : Command → Option AofLogger → Option AofLogger
log_write c none = none
log_write c (some a) = if a.replaying then some a else some (Aof.log (serialize c) a)

set_reply : ShardRouter × Bool → ShardRouter × (Bool × Bytes)
set_reply (r, done) = (r, (done, if done then ok_reply else oom_reply))

del_reply : ShardRouter × Bool → ShardRouter × (Bool × Bytes)
del_reply (r, removed) = (r, (removed, integer_reply (if removed then 1 else 0)))

get_reply : Option Bytes → Bytes
get_reply none = nil_reply
get_reply (some s) = bulk_reply s

-- A reader of the shard of a key.
unfoldable pub read_shard : Bytes → (Shard → Bytes) → ShardRouter → Bytes
read_shard key read r = elim (shard_for_key r key) [ none ↦ [] | some s ↦ read s ]

-- The part of a command under the lock of its shard: the router, whether the command goes to the
-- log, and the reply.
unfoldable pub act : Env → Command → ShardRouter → ShardRouter × (Bool × Bytes)
unfolding set_reply del_reply get_reply read_shard
act env (set k v t) r = set_reply (Router.set env k v t r)
act env (get k) r = (r, (false, get_reply (Router.get env.now k r)))
act env (del k) r = del_reply (Router.del k r)
act env (exists k) r = (r, (false, integer_reply (if Router.exists env.now k r then 1 else 0)))
act env ping r = (r, (false, pong_reply))
act env (lpush k v t) r = on_shard k (false, []) (lpush_shard env k v t) r
act env (lrange k i j) r = (r, (false, read_shard k (lrange_shard env.now k i j) r))
act env (hset k f v t) r = on_shard k (false, []) (hset_shard env k f v t) r
act env (hget k f) r = (r, (false, read_shard k (hget_shard env.now k f) r))

-- The end of `execute`: a command that changed the data goes to the log.
finish : Command → Option AofLogger → ShardRouter × (Bool × Bytes) → Store × Bytes
unfolding log_write
finish c aof (r, (changed, reply)) =
    (record { router = r; aof = if changed then log_write c aof else aof }, reply)

unfoldable pub execute : Env → Command → Store → Store × Bytes
unfolding finish
execute env c s = finish c s.aof (act env c s.router)
