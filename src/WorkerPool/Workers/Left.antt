-- ===== src/WorkerPool/Workers/Left.antt =====
-- The steps that are left to the workers of app/src/core/worker_pool.cpp behind a shutdown.
use in_memory_db.Base.{
  ℕ, suc, ◌+◌, ◌*◌, ◌≡◌, refl, false, some, List, [], ◌∷◌, ◌++◌, ◌⊎◌, inl, inr, arith, ap, ◌∙◌,
  length,
}
use in_memory_db.WorkerPool.{Task, WorkerPool, queue_size, submit, take_task, push, drain, shutdown}
use in_memory_db.WorkerPool.Workers.{
  Worker, waiting, executing, returned, Crew, Turn, takes, posts, leaves, Works, one, Others,
  submits, drains, shuts_down, Run, here, works, meanwhile,
}

-- The steps that a worker has still to make, less the tasks that it has yet to take.
abbrev pub left : Worker → ℕ
left waiting = 1
left (executing task) = 2
left returned = 0

abbrev pub all_left : List Worker → ℕ
all_left [] = 0
all_left (w ∷ ws) = left w + all_left ws

abbrev pub steps_left : Crew → ℕ
steps_left t = 2 * queue_size t.pool + all_left t.workers

all_left-append :
    (before : List Worker) (w : Worker) (after : List Worker)
    → all_left (before ++ w ∷ after) ≡ left w + all_left (before ++ after)
all_left-append [] w after = refl
all_left-append (v ∷ before) w after = omega (arith, all_left-append before w after)

pub tasks-cases :
    (q : List Task) → (q ≡ []) ⊎ ((task : Task) × (rest : List Task) × (q ≡ task ∷ rest))
tasks-cases [] = inl refl
tasks-cases (task ∷ rest) = inr (task, rest, refl)

pub taken_task :
    (task : Task) (p q : WorkerPool)
    → take_task p ≡ (q, some task)
    → (q.running ≡ p.running) × (p.queue ≡ task ∷ q.queue)
unfolding take_task
taken_task task p q e = elim (tasks-cases p.queue) [
  | inl n ↦ ground (arith, n, e)
  | inr (x, rest, n) ↦ ground (arith, n, e)
]

pub submit_stopped : (task : Task) (p : WorkerPool) → p.running ≡ false → (submit task p).0 ≡ p
unfolding submit
submit_stopped task p h = ground arith

steps_left-Turn :
    {p q : WorkerPool} {w w' : Worker}
    → Turn p w q w'
    → p.running ≡ false
    → (q.running ≡ false) × (suc (2 * queue_size q + left w') ≡ 2 * queue_size p + left w)
unfolding take_task push
steps_left-Turn {p} (takes task q e) h =
    let (r, n) = taken_task task p q e in
    let l : queue_size p ≡ suc (queue_size q) = ap length n in (r ∙ h, omega (arith, l))
steps_left-Turn (posts task r) h = (h, omega arith)
steps_left-Turn (leaves r e) h = (h, omega arith)

steps_left-Works :
    {t u : Crew}
    → Works t u
    → t.pool.running ≡ false
    → (u.pool.running ≡ false) × (suc (steps_left u) ≡ steps_left t)
steps_left-Works {t} (one before w w' after p e turn) h =
    let (r, s) = steps_left-Turn turn h in
    (r, rw e (omega (arith, s, all_left-append before w after, all_left-append before w' after)))

steps_left-Others :
    {t u : Crew}
    → Others t u
    → t.pool.running ≡ false
    → (u.pool.running ≡ false) × (steps_left u ≡ steps_left t)
unfolding drain shutdown
steps_left-Others {t} (submits task) h = rw (submit_stopped task t.pool h) (h, refl)
steps_left-Others drains h = (h, refl)
steps_left-Others shuts_down h = (refl, refl)

pub steps_left-Run :
    {t u : Crew} {n : ℕ}
    → Run t n u
    → t.pool.running ≡ false
    → (u.pool.running ≡ false) × (n + steps_left u ≡ steps_left t)
steps_left-Run here h = (h, omega arith)
steps_left-Run (works r step) h =
    let (f, a) = steps_left-Run r h in
    let (g, b) = steps_left-Works step f in (g, omega (arith, a, b))
steps_left-Run (meanwhile r step) h =
    let (f, a) = steps_left-Run r h in
    let (g, b) = steps_left-Others step f in (g, omega (arith, a, b))
