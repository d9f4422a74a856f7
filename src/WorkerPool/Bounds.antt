-- ===== src/WorkerPool/Bounds.antt =====
-- The bound of the task queue, and where the identity of a request stands in a pool.
use in_memory_db.Base.{◌≤◌, ◌≡◌, true, false, ◌⊎◌, [], ◌∷◌, ◌++◌, length-append, arith, ◌||◌, not}
use in_memory_db.WorkerPool.{Task, WorkerPool, queue_size, is_full, submit}

-- A submit to a queue within its bound leaves it within its bound. It puts the task last, if the
-- pool is running and not full, and otherwise leaves the pool as it was.
pub submit_accepts :
    (task : Task) (p : WorkerPool)
    → queue_size p ≤ p.max_queue_size
    → (queue_size (submit task p).0 ≤ p.max_queue_size)
      × ((((submit task p).1 ≡ true)
            × ((submit task p).0 ≡ record p { queue = p.queue ++ task ∷ [] })
            × (is_full p ≡ false)
            × (p.running ≡ true))
          ⊎ (((submit task p).1 ≡ false)
              × ((submit task p).0 ≡ p)
              × ((is_full p || not p.running) ≡ true)))
unfolding submit is_full
submit_accepts task p h = ground (arith, length-append p.queue (task ∷ []))
