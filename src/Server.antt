-- ===== src/Server.antt =====
-- The server at work: the reactor thread of app/src/network/reactor.cpp, the worker threads of
-- app/src/core/worker_pool.cpp, and the clients at the other end of the sockets, as a step relation.
-- One step is what a thread does between two points where another may touch the pool: a round of the
-- loop of handle_read is a step, since a worker may take a task between two rounds.
pub mod Tally
pub mod Reading
pub mod Ordered
pub mod Counted
pub mod Elsewhere
pub mod Served
pub mod Working
pub mod Answered
pub mod Serving
pub mod Rounds
use in_memory_db.Base.{
  ℕ, ◌+◌, ◌≡◌, ◌≢◌, Option, none, some, List, [], ◌∷◌, ◌++◌, length, take, ◌==◌, nat_eq,
  if◌then◌else◌,
}
use in_memory_db.Text.{Bytes}
use in_memory_db.Dict.{find, insert_or_assign}
use in_memory_db.Shard.{Env}
use in_memory_db.Command.Execute.{Store}
use in_memory_db.WorkerPool.{Task, TaskResult, WorkerPool, take_task, work}
use in_memory_db.Reactor.{
  Reactor, read_lines, disconnect, handle_write, accept_connection, unpause, drain_completion_queue,
}

-- The reactor with its pool, the data, and the tasks that workers have taken and not finished.
-- The rest is what is observed: all results that the reactor has drained, and of one client the
-- bytes that `send` took and how many `recv` gave.
pub record Server : Type 0 where
  pub reactor : Reactor
  pub store : Store
  pub busy : List Task
  pub drained : List TaskResult
  pub sent : Bytes
  pub received : ℕ

-- state.read_buffer.append(buf, bytes), where the connection is there
pub receive : ℕ → Bytes → Reactor → Reactor
receive client bytes r = elim (find client r.connections) [
  | none ↦ r
  | some c ↦
      let c' = record c { read_buffer = c.read_buffer ++ bytes } in
      record r { connections = insert_or_assign client c' r.connections }
]

-- One round of the loop of handle_read.
pub read_line : ℕ → Reactor → Reactor
read_line client r = elim (find client r.connections) [
  | none ↦ r
  | some c ↦
      let done = read_lines 1 client c r.pool in
      record r {
        pool = done.pool;
        connections = insert_or_assign client done.state r.connections;
        paused_reads =
            if done.paused then insert_or_assign client tt r.paused_reads else r.paused_reads;
      }
]

-- What waits to be sent to a client.
unfoldable pub unsent : ℕ → Reactor → Bytes
unsent client r = elim (find client r.connections) [ none ↦ [] | some c ↦ c.write_buffer ]

-- drain_completion_queue, and its results
abbrev pub drain_results : Server → Server
drain_results t = record t {
  reactor = drain_completion_queue t.reactor;
  drained = t.drained ++ t.reactor.pool.completion_queue;
}

-- The end of a round of worker_loop: what a worker does with its task.
unfoldable pub finish : Env → Task → List Task → Server → Server
finish env task others t =
    let (store, pool) = work env task t.store t.reactor.pool in
    record t { reactor = record t.reactor { pool = pool }; store = store; busy = others }

-- The observed client neither hangs up nor connects again.
pub data Step (client : ℕ) (t : Server) : Server → Type 0 where
  receives :
      (socket : ℕ) (bytes : Bytes)
      → Step client t (record t {
        reactor = receive socket bytes t.reactor;
        received = if socket == client then t.received + length bytes else t.received;
      })
  reads_line : (socket : ℕ) → Step client t (record t { reactor = read_line socket t.reactor })
  -- handle_write, where send takes n bytes
  writes :
      (socket n : ℕ)
      → Step client t (record t {
        reactor = handle_write socket (some n) t.reactor;
        sent = if socket == client then t.sent ++ take n (unsent client t.reactor) else t.sent;
      })
  -- recv gives nothing, send fails, or the poll reports an error
  disconnects :
      (socket : ℕ)
      → socket ≢ client
      → Step client t (record t { reactor = disconnect socket t.reactor })
  accepts :
      (socket : ℕ) (ip : Bytes)
      → socket ≢ client
      → Step client t (record t { reactor = accept_connection socket ip t.reactor })
  unpauses : Step client t (record t { reactor = unpause t.reactor })
  drains : Step client t (drain_results t)
  -- a worker, at the two ends of a round of worker_loop
  takes :
      (task : Task) (p : WorkerPool)
      → take_task t.reactor.pool ≡ (p, some task)
      → Step client t
          (record t { reactor = record t.reactor { pool = p }; busy = t.busy ++ task ∷ [] })
  finishes :
      (env : Env) (before : List Task) (task : Task) (after : List Task)
      → t.busy ≡ before ++ task ∷ after
      → Step client t (finish env task (before ++ after) t)

pub data Reach (client : ℕ) (s : Server) : Server → Type 0 where
  here : Reach client s s
  next : {t u : Server} → Reach client s t → Step client t u → Reach client s u
