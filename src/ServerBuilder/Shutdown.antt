-- ===== src/ServerBuilder/Shutdown.antt =====
-- The end of build_and_run of app/src/core/server_builder.cpp: the reactor stops, `shutdown` of the
-- pool joins the workers once its queue is empty, and `shutdown` of the logger closes the file. The
-- workers and the flush thread go on in between; SET and DEL log behind the lock of the shard, so that
-- other steps may come between a change and its record. The timing wheel stops last; nothing schedules a key
-- on it.
pub mod Held
pub mod Durable
use in_memory_db.Base.{
  ℕ, ◌≡◌, Bool, true, false, Option, none, some, List, [], ◌∷◌, ◌++◌, if◌then◌else◌,
}
use in_memory_db.Text.{Bytes}
use in_memory_db.Aof.{AofLogger, swap, write_flush_buffer, flush, stop}
use in_memory_db.Aof.Threads.{Threads, Flusher, testing, woken, swapped, finished, accept, started}
use in_memory_db.Shard.{Env}
use in_memory_db.Router.{ShardRouter}
use in_memory_db.WorkerPool.{Task, WorkerPool, new_pool, submit, take_task, shutdown}
use in_memory_db.Command.{Command, serialize}
use in_memory_db.Command.Execute.{act, log_write}
use in_memory_db.Command.Interleaved.{logs_late, noted}

-- Where build_and_run is: the reactor is up, `reactor.stop` has returned, or `pool.shutdown` has.
pub data Phase : Type 0 where
  serving reactor_stopped pool_joined : Phase

-- The data, the logger with its thread, the pool, the tasks that the workers have in hand, and the
-- changes that they have made and not logged yet. What is observed are the commands in the order in
-- which they met the data, and the changes in the order in which they were logged.
pub record Process : Type 0 where
  pub router : ShardRouter
  pub threads : Threads
  pub pool : WorkerPool
  pub busy : List Task
  pub unlogged : List (ℕ × Command)
  pub phase : Phase
  pub executed : List (Env × Command)
  pub recorded : List (ℕ × Command)

logger_of : Option AofLogger → AofLogger → AofLogger
logger_of none a = a
logger_of (some b) a = b

-- if (aof && !aof->is_replaying()) aof->log(serialize());
unfoldable pub write_record : Command → Threads → Threads
unfolding logger_of
write_record c th = record th {
  logger = logger_of (log_write c (some th.logger)) th.logger;
  accepted = accept (serialize c) th;
}

-- SET and DEL: the call that holds the lock of the shard. A change is still to be logged.
unfoldable pub change_data : Env → Command → List Task → Process → Process
change_data env c others t = record t {
  router = (act env c t.router).0;
  busy = others;
  unlogged = noted (act env c t.router).1.0 (env.now, c) t.unlogged;
  executed = t.executed ++ (env, c) ∷ [];
}

-- SET and DEL, behind that call.
unfoldable pub log_change : ℕ × Command → List (ℕ × Command) → Process → Process
log_change x others t = record t {
  threads = write_record x.1 t.threads;
  unlogged = others;
  recorded = t.recorded ++ x ∷ [];
}

-- Any other command: it logs while it holds the lock, if at all.
unfoldable pub perform_task : Env → Command → List Task → Process → Process
perform_task env c others t = record t {
  router = (act env c t.router).0;
  threads = if (act env c t.router).1.0 then write_record c t.threads else t.threads;
  busy = others;
  executed = t.executed ++ (env, c) ∷ [];
  recorded = noted (act env c t.router).1.0 (env.now, c) t.recorded;
}

pub data Step (t : Process) : Process → Type 0 where
  -- the reactor
  submits : (task : Task) → t.phase ≡ serving → Step t (record t { pool = (submit task t.pool).0 })
  -- a worker
  takes :
      (task : Task) (p : WorkerPool)
      → take_task t.pool ≡ (p, some task)
      → Step t (record t { pool = p; busy = t.busy ++ task ∷ [] })
  changes_data :
      (env : Env) (before : List Task) (task : Task) (after : List Task)
      → t.busy ≡ before ++ task ∷ after
      → logs_late task.command ≡ true
      → Step t (change_data env task.command (before ++ after) t)
  logs :
      (before : List (ℕ × Command)) (x : ℕ × Command) (after : List (ℕ × Command))
      → t.unlogged ≡ before ++ x ∷ after
      → Step t (log_change x (before ++ after) t)
  executes :
      (env : Env) (before : List Task) (task : Task) (after : List Task)
      → t.busy ≡ before ++ task ∷ after
      → logs_late task.command ≡ false
      → Step t (perform_task env task.command (before ++ after) t)
  -- the flush thread
  waits :
      t.threads.flusher ≡ testing
      → t.threads.logger.running ≡ true
      → Step t (record t { threads = record t.threads { flusher = woken } })
  leaves :
      t.threads.flusher ≡ testing
      → t.threads.logger.running ≡ false
      → Step t (record t { threads = record t.threads { flusher = finished } })
  swaps :
      t.threads.flusher ≡ woken
      → Step t (record t {
        threads = record t.threads { logger = swap t.threads.logger; flusher = swapped };
      })
  writes :
      t.threads.flusher ≡ swapped
      → Step t (record t {
        threads = record t.threads {
          logger = write_flush_buffer t.threads.logger;
          flusher = testing;
        };
      })
  -- reactor.stop(); reactor_thread.join();
  stops_reactor : t.phase ≡ serving → Step t (record t { phase = reactor_stopped })
  -- pool.shutdown(): the flag, and the join
  stops_pool : t.phase ≡ reactor_stopped → Step t (record t { pool = shutdown t.pool })
  joins_pool :
      t.phase ≡ reactor_stopped
      → t.pool.running ≡ false
      → t.pool.queue ≡ []
      → t.busy ≡ []
      → t.unlogged ≡ []
      → Step t (record t { phase = pool_joined })
  -- aof.shutdown(): the flag, and the last flush behind the join
  stops_logger :
      t.phase ≡ pool_joined
      → t.threads.logger.running ≡ true
      → Step t (record t { threads = record t.threads { logger = stop t.threads.logger } })
  closes_file :
      t.threads.flusher ≡ finished
      → t.threads.logger.running ≡ false
      → t.threads.closed ≡ false
      → Step t (record t {
        threads = record t.threads { logger = flush t.threads.logger; closed = true };
      })

pub data Reach (s : Process) : Process → Type 0 where
  here : Reach s s
  next : {t u : Process} → Reach s t → Step t u → Reach s u

-- Behind the start of the logger and of the pool.
unfoldable pub booted : Bytes → ShardRouter → Process
booted file router = record {
  router = router;
  threads = started file;
  pool = new_pool 10000;
  busy = [];
  unlogged = [];
  phase = serving;
  executed = [];
  recorded = [];
}
