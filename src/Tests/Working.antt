-- ===== src/Tests/Working.antt =====
-- The workers at a concrete input: two of them, and a task in the queue when the pool is shut down.
use in_memory_db.Base.{◌+◌, ◌*◌, ◌≤◌, ◌≡◌, ◌⊎◌, refl, true, [], ◌∷◌, arith}
use in_memory_db.Text.{codes}
use in_memory_db.Command.{get}
use in_memory_db.WorkerPool.{Task, queue_size, submit, shutdown, new_pool, take_task}
use in_memory_db.WorkerPool.Workers.{
  Crew, new_crew, waiting, executing, takes, Works, one, submits, shuts_down, Run, here, works,
  meanwhile,
}
use in_memory_db.WorkerPool.Workers.Joined.{all_returned, join_ends}

abbrev task : Task
task = record { command = get (codes "a"); client_fd = 7; sequence_id = 0 }

abbrev submitted : Crew
submitted = record (new_crew 2 10000) { pool = (submit task (new_pool 10000)).0 }

abbrev down : Crew
down = record submitted { pool = shutdown submitted.pool }

down-Run : Run (new_crew 2 10000) 0 down
unfolding new_crew new_pool
down-Run = meanwhile (meanwhile here (submits task)) shuts_down

abbrev busy : Crew
busy = record { pool = record down.pool { queue = [] }; workers = waiting ∷ executing task ∷ [] }

busy-Run : Run down 1 busy
unfolding new_crew new_pool submit shutdown take_task
busy-Run =
    works here
      (one (waiting ∷ []) waiting (executing task) [] busy.pool refl (takes task busy.pool refl))

join_ends_example :
    (1 ≤ 2 * queue_size down.pool + 2 * 2)
    × (((all_returned busy.workers ≡ true) × (busy.pool.queue ≡ [])) ⊎ ((v : Crew) × Works busy v))
unfolding shutdown
join_ends_example = join_ends 2 10000 (omega arith) down-Run refl busy-Run
