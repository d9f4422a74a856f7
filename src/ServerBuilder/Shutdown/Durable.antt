-- ===== src/ServerBuilder/Shutdown/Durable.antt =====
-- What an orderly end leaves in the file: all that the commands have changed.
use mathlib.Core.List.{Perm}
use mathlib.Core.List.Perm
use in_memory_db.Base.{append-nil, subst, ◌≡◌, refl, true, [], ◌++◌, arith, ap, sym, ◌∙◌, inl, inr}
use mathlib.Core.Bool.{false≢true}
use in_memory_db.Text.{Bytes}
use in_memory_db.Aof.{lines, start, new_logger}
use in_memory_db.Aof.Threads
use in_memory_db.Aof.Threads.{
  Threads, testing, woken, swapped, finished, accept, started, closed_file, closed_stopped,
}
use in_memory_db.Router.{ShardRouter}
use in_memory_db.Command.History.{changes, log_of}
use in_memory_db.ServerBuilder.Shutdown.Held.{after, IsDurable, Step-IsDurable}
use in_memory_db.ServerBuilder.Shutdown.{pool_joined, Process, Reach, here, next, booted}

pub Reach-IsDurable :
    (file : Bytes) (router : ShardRouter) {t : Process}
    → Reach (booted file router) t
    → IsDurable file router t
Reach-IsDurable file router here = record {
  logged = unfold booted in Threads.here;
  live = unfold booted in unfold started in unfold start in unfold new_logger in refl;
  open_for = inr (unfold booted in unfold started in unfold start in refl);
  data_of = unfold booted in unfold after in refl;
  accepted_of = unfold booted in unfold started in refl;
  each_once = unfold booted in unfold changes in Perm.rfl;
  drained = unfold booted in λ q. ground (arith, q);
}
Reach-IsDurable file router (next r step) =
    Step-IsDurable file router step (Reach-IsDurable file router r)

-- In every order of the steps of the workers, of the flush thread and of the end of build_and_run,
-- from a logger on a file and a router, with SET and DEL logging behind the lock: once the file is
-- closed, no task is left in the pool or in hand and no change is left to be logged, and the file
-- holds what it held before, and then the records of the changes in the order in which they were
-- logged; these are exactly the commands that reported a change when they were executed, each once,
-- though perhaps in another order.
pub durable :
    (file : Bytes) (router : ShardRouter) {t : Process}
    → Reach (booted file router) t
    → t.threads.closed ≡ true
    → (t.threads.logger.file ≡ file ++ lines (log_of t.recorded))
      × Perm (changes t.executed router) t.recorded
      × (t.router ≡ after t.executed router)
      × (t.pool.queue ≡ [])
      × (t.busy ≡ [])
      × (t.unlogged ≡ [])
durable file router {t} r closed =
    let v : IsDurable file router t = Reach-IsDurable file router r in
    let joined : t.phase ≡ pool_joined = elim v.open_for [
      | inl p ↦ p
      | inr up ↦ absurd (false≢true (sym (closed_stopped file v.logged closed) ∙ up))
    ] in
    let (queue, busy, unlogged) = v.drained joined in
    (
      closed_file file v.logged closed ∙ ap (λ x. file ++ lines x) v.accepted_of,
      subst (Perm (changes t.executed router))
          (ap (◌++◌ t.recorded) unlogged ∙ append-nil t.recorded) v.each_once,
      v.data_of,
      queue,
      busy,
      unlogged,
    )
