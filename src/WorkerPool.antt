-- ===== src/WorkerPool.antt =====
-- app/include/core/worker_pool.h, app/src/core/worker_pool.cpp: the queue of tasks, and the
-- completion queue between the workers and the reactor. Each function is one critical section.
pub mod Bounds
pub mod Workers
use in_memory_db.Base.{
  ℕ, ◌≡◌, Bool, true, false, not, ◌||◌, ◌&&◌, Option, none, some, List, [], ◌∷◌, ◌++◌, length, leb,
  if◌then◌else◌,
}
use in_memory_db.Text.{Bytes}
use in_memory_db.Shard.{Env}
use in_memory_db.Command.{Command}
use in_memory_db.Command.Execute.{Store, execute}

pub record Task : Type 0 where
  pub command : Command
  pub client_fd : ℕ
  pub sequence_id : ℕ

pub record TaskResult : Type 0 where
  pub client_fd : ℕ
  pub sequence_id : ℕ
  pub response : Bytes

pub record WorkerPool : Type 0 where
  pub running : Bool
  pub max_queue_size : ℕ
  pub queue : List Task
  pub completion_queue : List TaskResult

unfoldable pub new_pool : ℕ → WorkerPool
new_pool n = record { running = true; max_queue_size = n; queue = []; completion_queue = [] }

-- CompletionQueue::push
unfoldable pub push : TaskResult → WorkerPool → WorkerPool
push r p = record p { completion_queue = p.completion_queue ++ r ∷ [] }

-- CompletionQueue::drain, on an empty vector
unfoldable pub drain : WorkerPool → WorkerPool × List TaskResult
drain p = (record p { completion_queue = [] }, p.completion_queue)

abbrev pub queue_size : WorkerPool → ℕ
queue_size p = length p.queue

unfoldable pub is_full : WorkerPool → Bool
is_full p = leb p.max_queue_size (queue_size p)

unfoldable pub submit : Task → WorkerPool → WorkerPool × Bool
submit task p =
    if not p.running || leb p.max_queue_size (queue_size p)
    then (p, false)
    else (record p { queue = p.queue ++ task ∷ [] }, true)

-- The first critical section of a round of `worker_loop`: the task at the front, if there is one.
unfoldable pub take_task : WorkerPool → WorkerPool × Option Task
take_task p = elim p.queue [ [] ↦ (p, none) | task ∷ rest ↦ (record p { queue = rest }, some task) ]

-- The rest of the round: the command is executed and its reply is posted.
unfoldable pub work : Env → Task → Store → WorkerPool → Store × WorkerPool
work env task s p =
    let (s', response) = execute env task.command s in
    (
      s',
      push
          (record {
            client_fd = task.client_fd;
            sequence_id = task.sequence_id;
            response = response;
          })
          p,
    )

-- running_ = false, in `shutdown`
unfoldable pub shutdown : WorkerPool → WorkerPool
shutdown p = record p { running = false }
