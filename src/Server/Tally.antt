-- ===== src/Server/Tally.antt =====
-- How often a request, by its client and its number, stands in the queues of the server.
use in_memory_db.Base.{
  ℕ, suc, ◌+◌, ◌≡◌, Bool, ◌&&◌, List, [], ◌∷◌, ◌++◌, arith, ◌==◌, if◌then◌else◌, inl, inr, some,
}
use in_memory_db.WorkerPool.{Task, TaskResult, WorkerPool, take_task, work, push}
use in_memory_db.Pipeline.{Request, process}
use in_memory_db.Pipeline.Outcome.{process_outcome}
use in_memory_db.Shard.{Env}
use in_memory_db.Command.Execute.{Store}

abbrev pub tally {ℓ} : {A : Type ℓ} → (A → Bool) → List A → ℕ
tally is_it [] = 0
tally is_it (x ∷ xs) = let rest = tally is_it xs in if is_it x then suc rest else rest

pub tally-append {ℓ} :
    {A : Type ℓ} (is_it : A → Bool) (xs ys : List A)
    → tally is_it (xs ++ ys) ≡ tally is_it xs + tally is_it ys
tally-append is_it [] ys = omega arith
tally-append is_it (x ∷ xs) ys = ground (arith, tally-append is_it xs ys)

-- The tests by which the server's theorems tell requests apart.
abbrev pub is_task : ℕ → ℕ → Task → Bool
is_task client s t = (t.client_fd == client) && (t.sequence_id == s)

abbrev pub is_result : ℕ → ℕ → TaskResult → Bool
is_result client s r = (r.client_fd == client) && (r.sequence_id == s)

unfoldable pub queued : ℕ → ℕ → List Task → ℕ
queued client s ts = tally (is_task client s) ts

unfoldable pub completed : ℕ → ℕ → List TaskResult → ℕ
completed client s rs = tally (is_result client s) rs

-- A request in the pool is a task in its queue, or a result in its completion queue.
unfoldable pub in_pool : ℕ → ℕ → WorkerPool → ℕ
in_pool client s p = queued client s p.queue + completed client s p.completion_queue

pub queued-append :
    (client s : ℕ) (ts us : List Task)
    → queued client s (ts ++ us) ≡ queued client s ts + queued client s us
unfolding queued
queued-append client s ts us = tally-append (is_task client s) ts us

pub completed-append :
    (client s : ℕ) (rs qs : List TaskResult)
    → completed client s (rs ++ qs) ≡ completed client s rs + completed client s qs
unfolding completed
completed-append client s rs qs = tally-append (is_result client s) rs qs

-- A line that is handed over adds the request that it makes, and no other.
pub in_pool-process :
    (client s : ℕ) (q : Request) (p : WorkerPool)
    → in_pool client s (process q p)
      ≡ in_pool client s p + (if (q.client == client) && (q.seq_id == s) then 1 else 0)
unfolding in_pool queued completed
in_pool-process client s q p = elim (process_outcome q p) [
  | inl (c, _, _, _, e) ↦
      let t : Task = record { command = c; client_fd = q.client; sequence_id = q.seq_id } in
      rw e (ground (arith, queued-append client s p.queue (t ∷ [])))
  | inr (response, e, _) ↦
      let r : TaskResult = record {
        client_fd = q.client;
        sequence_id = q.seq_id;
        response = response;
      } in
      rw e (ground (arith, completed-append client s p.completion_queue (r ∷ [])))
]

-- A worker moves a request, from the queue to its hands and from there to the completion queue.
pub in_pool-take_task :
    (client s : ℕ) (task : Task) (p p' : WorkerPool)
    → take_task p ≡ (p', some task)
    → in_pool client s p ≡ in_pool client s p' + queued client s (task ∷ [])
unfolding take_task in_pool queued
in_pool-take_task client s task p p' e = ground arith

in_pool-push :
    (client s : ℕ) (r : TaskResult) (p : WorkerPool)
    → in_pool client s (push r p) ≡ in_pool client s p + completed client s (r ∷ [])
unfolding push in_pool
in_pool-push client s r p = ground (arith, completed-append client s p.completion_queue (r ∷ []))

pub in_pool-work :
    (client s : ℕ) (env : Env) (task : Task) (store : Store) (p : WorkerPool)
    → in_pool client s (work env task store p).1 ≡ in_pool client s p + queued client s (task ∷ [])
unfolding work queued completed
in_pool-work client s env task store p = in_pool-push client s _ p
