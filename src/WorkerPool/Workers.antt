-- ===== src/WorkerPool/Workers.antt =====
-- The worker threads of app/src/core/worker_pool.cpp, from the constructor of the pool to the join in
-- its shutdown: worker_loop step by step, and what the other threads do to the pool in between.
pub mod Left
pub mod Joined
use in_memory_db.Base.{
  ℕ, zero, suc, ◌+◌, ◌*◌, ◌≤◌, ◌<◌, ◌≡◌, refl, Bool, true, false, ◌||◌, ◌&&◌, some, List, [], ◌∷◌,
  ◌++◌, ◌⊎◌, inl, inr, arith, ap, ◌∙◌, sym, length, replicate,
}
use in_memory_db.Text.{Bytes}
use in_memory_db.WorkerPool.{
  Task, TaskResult, WorkerPool, new_pool, queue_size, submit, take_task, push, drain, shutdown,
}

-- A worker: at its wait, with a task in hand, or at its end.
pub data Worker : Type 0 where
  waiting : Worker
  executing : Task → Worker
  returned : Worker

pub record Crew : Type 0 where
  pub pool : WorkerPool
  pub workers : List Worker

-- WorkerPool(router, aof, thread_count, max_queue_size)
unfoldable pub new_crew : ℕ → ℕ → Crew
new_crew thread_count n = record { pool = new_pool n; workers = replicate thread_count waiting }

-- What a worker does to itself and the pool: it takes the front task, it posts the reply to its task,
-- or it leaves the loop.
pub data Turn (p : WorkerPool) : Worker → WorkerPool → Worker → Type 0 where
  takes :
      (task : Task) (q : WorkerPool)
      → take_task p ≡ (q, some task)
      → Turn p waiting q (executing task)
  posts :
      (task : Task) (response : Bytes)
      → Turn p
          (executing task)
          (push
            (record {
              client_fd = task.client_fd;
              sequence_id = task.sequence_id;
              response = response;
            })
            p)
          waiting
  leaves : p.running ≡ false → p.queue ≡ [] → Turn p waiting p returned

pub data Works (t : Crew) : Crew → Type 0 where
  one :
      (before : List Worker) (w w' : Worker) (after : List Worker) (p : WorkerPool)
      → t.workers ≡ before ++ w ∷ after
      → Turn t.pool w p w'
      → Works t (record { pool = p; workers = before ++ w' ∷ after })

pub data Others (t : Crew) : Crew → Type 0 where
  submits : (task : Task) → Others t (record t { pool = (submit task t.pool).0 })
  drains : Others t (record t { pool = (drain t.pool).0 })
  shuts_down : Others t (record t { pool = shutdown t.pool })

-- A run with so many steps of the workers.
pub data Run (t : Crew) : ℕ → Crew → Type 0 where
  here : Run t 0 t
  works : {n : ℕ} {u v : Crew} → Run t n u → Works u v → Run t (suc n) v
  meanwhile : {n : ℕ} {u v : Crew} → Run t n u → Others u v → Run t n v
