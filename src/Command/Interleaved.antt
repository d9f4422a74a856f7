-- ===== src/Command/Interleaved.antt =====
-- The commands as the workers interleave them. SET and DEL of app/src/core/command.cpp log behind the
-- call that holds the lock of the shard, so that other commands may come in between; LPUSH and HSET
-- log while they hold it.
pub mod Commuting
pub mod Calm
pub mod Race
use in_memory_db.Base.{◌≡◌, Bool, true, false, Option, List, [], ◌∷◌, ◌++◌, ℕ, if◌then◌else◌}
use in_memory_db.Aof.{AofLogger}
use in_memory_db.Shard.{Env}
use in_memory_db.Router.{ShardRouter}
use in_memory_db.Command.{Command, set, del}
use in_memory_db.Command.Execute.{act, log_write}

-- Whether the command logs behind the lock.
unfoldable pub logs_late : Command → Bool
logs_late (set k v t) = true
logs_late (del k) = true
logs_late c = false

-- The data and the log, with the changes that a worker has made and has not logged yet. What is
-- observed are the changes in the order in which they were logged.
pub record Shared : Type 0 where
  pub router : ShardRouter
  pub aof : Option AofLogger
  pub unlogged : List (ℕ × Command)
  pub recorded : List (ℕ × Command)

-- A change at the end of a list, if there is one.
abbrev pub noted : Bool → ℕ × Command → List (ℕ × Command) → List (ℕ × Command)
noted changed x xs = if changed then xs ++ x ∷ [] else xs

pub data Step (t : Shared) : Shared → Type 0 where
  -- router.set(…), router.del(…)
  changes_data :
      (env : Env) (c : Command)
      → logs_late c ≡ true
      → Step t (record t {
        router = (act env c t.router).0;
        unlogged = noted (act env c t.router).1.0 (env.now, c) t.unlogged;
      })
  -- if (aof && !aof->is_replaying()) aof->log(serialize());
  logs :
      (before : List (ℕ × Command)) (x : ℕ × Command) (after : List (ℕ × Command))
      → t.unlogged ≡ before ++ x ∷ after
      → Step t (record t {
        aof = log_write x.1 t.aof;
        unlogged = before ++ after;
        recorded = t.recorded ++ x ∷ [];
      })
  -- any other command
  executes :
      (env : Env) (c : Command)
      → logs_late c ≡ false
      → Step t (record t {
        router = (act env c t.router).0;
        aof = if (act env c t.router).1.0 then log_write c t.aof else t.aof;
        recorded = noted (act env c t.router).1.0 (env.now, c) t.recorded;
      })

pub data Reach (s : Shared) : Shared → Type 0 where
  here : Reach s s
  next : {t u : Shared} → Reach s t → Step t u → Reach s u

unfoldable pub begun : ShardRouter → Option AofLogger → Shared
begun router aof = record { router = router; aof = aof; unlogged = []; recorded = [] }
