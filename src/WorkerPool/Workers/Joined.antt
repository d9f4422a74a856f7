-- ===== src/WorkerPool/Workers/Joined.antt =====
-- The join of the workers in shutdown of app/src/core/worker_pool.cpp.
use in_memory_db.Base.{
  ℕ, zero, suc, ◌+◌, ◌*◌, ◌≤◌, ◌<◌, ◌≡◌, refl, Bool, true, false, ◌||◌, ◌&&◌, List, [], ◌∷◌, ◌++◌,
  ◌⊎◌, inl, inr, arith, ap, ◌∙◌, sym, length,
}
use mathlib.Core.Bool.{false≢true}
use in_memory_db.WorkerPool.{
  Task, WorkerPool, new_pool, queue_size, submit, take_task, push, drain, shutdown,
}
use in_memory_db.WorkerPool.Workers.{
  Worker, waiting, executing, returned, Crew, new_crew, Turn, takes, posts, leaves, Works, one,
  Others, submits, drains, shuts_down, Run, here, works, meanwhile,
}
use in_memory_db.WorkerPool.Workers.Left.{
  all_left, steps_left-Run, tasks-cases, taken_task, submit_stopped,
}

-- Whether a worker is at its end, and whether all are.
abbrev is_returned : Worker → Bool
is_returned waiting = false
is_returned (executing task) = false
is_returned returned = true

abbrev some_returned : List Worker → Bool
some_returned [] = false
some_returned (w ∷ ws) = is_returned w || some_returned ws

abbrev pub all_returned : List Worker → Bool
all_returned [] = true
all_returned (w ∷ ws) = is_returned w && all_returned ws

some_returned-append :
    (before : List Worker) (w : Worker) (after : List Worker)
    → some_returned (before ++ w ∷ after) ≡ (is_returned w || some_returned (before ++ after))
some_returned-append [] w after = refl
some_returned-append (v ∷ before) w after = ground (arith, some_returned-append before w after)

length-replace :
    (before : List Worker) (v w : Worker) (after : List Worker)
    → length (before ++ v ∷ after) ≡ length (before ++ w ∷ after)
length-replace [] v w after = refl
length-replace (x ∷ before) v w after = ap suc (length-replace before v w after)

-- A worker leaves only a pool that is shut down and has no task, and then there is never one again;
-- the workers are as many as at the start.
record IsManned (n : ℕ) (t : Crew) : Type 0 where
  many : length t.workers ≡ n
  down : some_returned t.workers ≡ true → t.pool.running ≡ false
  drained : some_returned t.workers ≡ true → t.pool.queue ≡ []

Turn-effect :
    {p q : WorkerPool} {w w' : Worker}
    → Turn p w q w'
    → (is_returned w ≡ false)
      × (((is_returned w' ≡ false) × (q.running ≡ p.running) × (p.queue ≡ [] → q.queue ≡ []))
          ⊎ ((q.running ≡ false) × (q.queue ≡ [])))
unfolding push
Turn-effect {p} (takes task q e) =
    let (r, n) = taken_task task p q e in (refl, inl (refl, r, λ h. ground (arith, n, h)))
Turn-effect (posts task response) = (refl, inl (refl, refl, λ h. h))
Turn-effect (leaves r g) = (refl, inr (r, g))

IsManned-Works : {n : ℕ} {t u : Crew} → Works t u → IsManned n t → IsManned n u
IsManned-Works {n} {t} (one before w w' after p e turn) m =
    let was : some_returned t.workers ≡ (is_returned w || some_returned (before ++ after)) =
      ap some_returned e ∙ some_returned-append before w after in
    let is = some_returned-append before w' after in
    let l = sym (length-replace before w w' after) ∙ (ap length (sym e) ∙ m.many) in
    let (stays, effect) = Turn-effect turn in
    elim effect [
      | inl (f, r, g) ↦ record {
        many = l;
        down = λ h.
            r
            ∙ m.down (
                was
                ∙ (ap (λ b. b || some_returned (before ++ after)) (stays ∙ sym f) ∙ (sym is ∙ h)));
        drained = λ h. g (
            m.drained (
              was
              ∙ (ap (λ b. b || some_returned (before ++ after)) (stays ∙ sym f) ∙ (sym is ∙ h))));
      }
      | inr (r, g) ↦ record { many = l; down = λ h. r; drained = λ h. g }
    ]

IsManned-Others : {n : ℕ} {t u : Crew} → Others t u → IsManned n t → IsManned n u
unfolding drain shutdown
IsManned-Others {t = t} (submits task) m = record {
  many = m.many;
  down = λ h. rw (submit_stopped task t.pool (m.down h)) (m.down h);
  drained = λ h. rw (submit_stopped task t.pool (m.down h)) (m.drained h);
}
IsManned-Others drains m = record { many = m.many; down = m.down; drained = m.drained }
IsManned-Others shuts_down m = record { many = m.many; down = λ h. refl; drained = m.drained }

IsManned-Run : {n : ℕ} {t u : Crew} {k : ℕ} → Run t k u → IsManned n t → IsManned n u
IsManned-Run here m = m
IsManned-Run (works r step) m = IsManned-Works step (IsManned-Run r m)
IsManned-Run (meanwhile r step) m = IsManned-Others step (IsManned-Run r m)

new_crew-IsManned : (n size : ℕ) → IsManned n (new_crew n size)
unfolding new_crew new_pool
new_crew-IsManned zero size = record { many = refl; down = λ h. sym h; drained = λ h. refl }
new_crew-IsManned (suc n) size =
    let m = new_crew-IsManned n size in
    record { many = ap suc m.many; down = m.down; drained = m.drained }

all_left-many : (ws : List Worker) → all_left ws ≤ 2 * length ws
all_left-many [] = omega arith
all_left-many (waiting ∷ ws) = omega (arith, all_left-many ws)
all_left-many (executing task ∷ ws) = omega (arith, all_left-many ws)
all_left-many (returned ∷ ws) = omega (arith, all_left-many ws)

all_returned-some :
    (ws : List Worker) → 0 < length ws → all_returned ws ≡ true → some_returned ws ≡ true
all_returned-some [] h a = ground arith
all_returned-some (w ∷ ws) h a = ground (arith, a)

-- Once the pool is shut down, a worker that is not at its end can make a step.
moves :
    (t : Crew) (before : List Worker) (w : Worker) (after : List Worker)
    → t.pool.running ≡ false
    → t.workers ≡ before ++ w ∷ after
    → is_returned w ≡ false
    → (u : Crew) × Works t u
unfolding take_task
moves t before waiting after h e f = elim (tasks-cases t.pool.queue) [
  | inl n ↦ (_, one before waiting returned after t.pool e (leaves h n))
  | inr (task, rest, n) ↦ (
    _,
    one before waiting (executing task) after (record t.pool { queue = rest }) e
        (takes task (record t.pool { queue = rest }) (rw n refl)),
  )
]
moves t before (executing task) after h e f =
    (_, one before (executing task) waiting after _ e (posts task []))
moves t before returned after h e f = absurd (false≢true (sym f))

first_left :
    (ws : List Worker)
    → (all_returned ws ≡ true)
      ⊎ ((before : List Worker) × (w : Worker) × (after : List Worker) × (ws ≡ before ++ w ∷ after)
          × (is_returned w ≡ false))
first_left [] = inl refl
first_left (waiting ∷ ws) = inr ([], waiting, ws, refl, refl)
first_left (executing task ∷ ws) = inr ([], executing task, ws, refl, refl)
first_left (returned ∷ ws) = elim (first_left ws) [
  | inl a ↦ inl a
  | inr (before, w, after, e, f) ↦ inr (returned ∷ before, w, after, ap (λ l. returned ∷ l) e, f)
]

-- In a pool with at least one worker, whatever the other threads do: once `shutdown` has reset the
-- flag, the workers make at most two more steps for each task in the queue and for each worker, and
-- as long as not all are at their end, one can make a step. When all are, and shutdown can join them,
-- no task is left in the queue.
pub join_ends :
    (threads size : ℕ) {t u : Crew} {m n : ℕ}
    → 0 < threads
    → Run (new_crew threads size) m t
    → t.pool.running ≡ false
    → Run t n u
    → (n ≤ 2 * queue_size t.pool + 2 * threads)
      × (((all_returned u.workers ≡ true) × (u.pool.queue ≡ [])) ⊎ ((v : Crew) × Works u v))
join_ends threads size {t} {u} some_threads r down later =
    let before = IsManned-Run r (new_crew-IsManned threads size) in
    let behind = IsManned-Run later before in
    let (f, a) = steps_left-Run later down in
    let b = all_left-many t.workers in
    let c = before.many in
    (
      omega (arith, a, b, c),
      elim (first_left u.workers) [
        | inl d ↦
            let staffed : 0 < length u.workers = omega (arith, behind.many, some_threads) in
            inl (d, behind.drained (all_returned-some u.workers staffed d))
        | inr (first, w, rest, e, g) ↦ inr (moves u first w rest f e g)
      ],
    )

-- Without a worker nothing takes the tasks, and shutdown leaves them in the queue.
pub none_joined :
    (size : ℕ) (task : Task)
    → 0 < size
    → (u : Crew) × Run (new_crew 0 size) 0 u
      × (all_returned u.workers ≡ true)
      × (u.pool.running ≡ false)
      × (u.pool.queue ≡ task ∷ [])
unfolding new_crew new_pool submit shutdown
none_joined size task h =
    let s : Crew = record (new_crew 0 size) { pool = (submit task (new_pool size)).0 } in
    (
      record s { pool = shutdown s.pool },
      meanwhile (meanwhile here (submits task)) shuts_down,
      refl,
      refl,
      ground arith,
    )
