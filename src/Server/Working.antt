-- ===== src/Server/Working.antt =====
-- What a client has of a worker that takes or finishes a task, and of the drain: each keeps what is
-- true of the client.
use in_memory_db.Base.{ℕ, ◌+◌, ◌<◌, ◌≡◌, refl, some, List, [], ◌∷◌, ◌++◌, arith, length, nat_eq, ap}
use in_memory_db.Text.{Bytes}
use in_memory_db.Dict.{find}
use in_memory_db.Shard.{Env}
use in_memory_db.WorkerPool.{Task, TaskResult, WorkerPool, take_task, drain}
use in_memory_db.Reactor.{ConnectionState, drain_completion_queue}
use in_memory_db.Reactor.Reassembly.{has_arrived, last_id}
use in_memory_db.Reactor.Draining.{results_of, deliver_results, find-deliver_all}
use in_memory_db.Server.{Server, finish, drain_results}
use in_memory_db.Server.Tally.{
  queued, completed, in_pool, queued-append, completed-append, in_pool-take_task, in_pool-work,
}
use in_memory_db.Server.Ordered.{deliver_results-IsDrained}
use in_memory_db.Server.Counted.{IsOpen, deliver_results-IsOpen}
use in_memory_db.Server.Served.{IsServed}

module _ (client : ℕ) (t : Server) (c : ConnectionState) (w : IsServed client t c) where
  pub take-IsServed :
      (task : Task) (p : WorkerPool)
      → take_task t.reactor.pool ≡ (p, some task)
      → IsServed client
          (record t { reactor = record t.reactor { pool = p }; busy = t.busy ++ task ∷ [] })
          c
  take-IsServed task p e = record {
    connection = w.connection;
    budget = w.budget;
    once = λ s. omega (
      arith,
      w.once s,
      in_pool-take_task client s task t.reactor.pool p e,
      queued-append client s t.busy (task ∷ []),
    );
    counted = w.counted;
    drained = w.drained;
  }

  pub finish-IsServed :
      (env : Env) (before : List Task) (task : Task) (after : List Task)
      → t.busy ≡ before ++ task ∷ after
      → IsServed client (finish env task (before ++ after) t) c
  unfolding finish queued
  finish-IsServed env before task after e = record {
    connection = w.connection;
    budget = w.budget;
    once = λ s.
        let before_finish : queued client s t.busy
            ≡ queued client s before + (queued client s (task ∷ []) + queued client s after) =
          rw (e, queued-append client s before (task ∷ after)) (ground arith) in
        omega (
          arith,
          w.once s,
          before_finish,
          in_pool-work client s env task t.store t.reactor.pool,
          queued-append client s before after,
        );
    counted = w.counted;
    drained = w.drained;
  }

  low : (s : ℕ) (r : Bytes) → find s c.out_of_order_buf ≡ some r → s < c.next_seq_issue
  unfolding has_arrived
  low s r e = ground (arith, w.once s, w.drained.ordered.known s, e)

  queued_low :
      (s : ℕ) → 0 < completed client s t.reactor.pool.completion_queue → s < c.next_seq_issue
  unfolding in_pool
  queued_low s h = ground (arith, w.once s)

  pub drain-IsServed :
      t.received < last_id
      → (c' : ConnectionState) × (c'.next_seq_issue ≡ c.next_seq_issue)
        × IsServed client (drain_results t) c'
  unfolding drain_completion_queue drain in_pool completed
  drain-IsServed small =
      let rs : List TaskResult = t.reactor.pool.completion_queue in
      let c' : ConnectionState = deliver_results (results_of client rs) c in
      let o : IsOpen c.next_seq_issue c.read_buffer c' =
        deliver_results-IsOpen c.next_seq_issue c.read_buffer (omega (arith, w.budget, small))
          client rs c queued_low
          (record { issued = refl; unread = refl; counted = w.counted; low = low }) in
      (
        c',
        o.issued,
        record {
          connection = find-deliver_all client rs t.reactor.connections c w.connection;
          budget = omega (arith, w.budget, o.issued, ap length o.unread);
          once = λ s. ground (arith, w.once s, o.issued, completed-append client s t.drained rs);
          counted = o.counted;
          drained =
              deliver_results-IsDrained client t.sent rs t.drained c
                (record {
                  once = λ s. ground (arith, w.once s);
                  below = λ s h. omega (arith, queued_low s h, w.budget, small);
                })
                w.drained;
        },
      )
