-- ===== src/ServerBuilder/Shutdown/Held.antt =====
-- What stays true of the history, the log and the pool while the server runs and ends.
use mathlib.Core.List.{Perm, perm_middle}
use mathlib.Core.List.Perm
use in_memory_db.Base.{
  ℕ, ◌≡◌, refl, subst, append_assoc, append-nil, Bool, true, false, some, List, [], ◌∷◌, ◌++◌,
  arith, ap, sym, ◌∙◌, ◌⊎◌, inl, inr, if◌then◌else◌,
}
use in_memory_db.Text.{Bytes}
use in_memory_db.Aof.{AofLogger, log, swap, write_flush_buffer, flush, stop}
use in_memory_db.Aof.Written.{replaying-log, running-log}
use in_memory_db.Aof.Threads
use in_memory_db.Aof.Threads.{
  Threads, testing, woken, swapped, finished, accept, started, closed_file, closed_stopped,
}
use in_memory_db.Shard.{Env}
use in_memory_db.Router.{ShardRouter}
use in_memory_db.WorkerPool.{Task, WorkerPool, take_task}
use in_memory_db.Command.{Command, serialize}
use in_memory_db.Command.Execute.{act, log_write}
use in_memory_db.Command.Interleaved.{noted}
use in_memory_db.Command.History.{changes, log_of}
use in_memory_db.ServerBuilder.Shutdown.{
  pool_joined, Phase, Process, write_record, change_data, log_change, perform_task, Step, submits,
  takes, changes_data, logs, executes, waits, leaves, swaps, writes, stops_reactor, stops_pool,
  joins_pool, stops_logger, closes_file,
}

-- The router behind a history.
unfoldable pub after : List (Env × Command) → ShardRouter → ShardRouter
after [] r = r
after ((env, c) ∷ rest) r = after rest (act env c r).0

after-snoc :
    (h : List (Env × Command)) (env : Env) (c : Command) (r : ShardRouter)
    → after (h ++ (env, c) ∷ []) r ≡ (act env c (after h r)).0
unfolding after
after-snoc [] env c r = refl
after-snoc ((e, d) ∷ h) env c r = after-snoc h env c (act e d r).0

changes-snoc :
    (h : List (Env × Command)) (env : Env) (c : Command) (r : ShardRouter)
    → changes (h ++ (env, c) ∷ []) r ≡ noted (act env c (after h r)).1.0 (env.now, c) (changes h r)
unfolding after changes
changes-snoc [] env c r = ground arith
changes-snoc ((e, d) ∷ h) env c r = ground (arith, changes-snoc h env c (act e d r).0)

log_of-snoc :
    (xs : List (ℕ × Command)) (x : ℕ × Command)
    → log_of (xs ++ x ∷ []) ≡ log_of xs ++ serialize x.1 ∷ []
log_of-snoc [] x = refl
log_of-snoc (y ∷ ys) x = ap (◌∷◌ (serialize y.1)) (log_of-snoc ys x)

-- A change that is made, one that is logged, and one that is both.
module _ {A : Type 0} where
  perm-made :
      (b : Bool) (x : A) (made recorded unlogged : List A)
      → Perm made (recorded ++ unlogged)
      → Perm
          (if b then made ++ x ∷ [] else made)
          (recorded ++ (if b then unlogged ++ x ∷ [] else unlogged))
  perm-made true x made recorded unlogged h =
      subst (Perm (made ++ x ∷ [])) (append_assoc recorded unlogged (x ∷ []))
        (Perm.append_right (x ∷ []) h)
  perm-made false x made recorded unlogged h = h

  perm-logged :
      (x : A) (made recorded before after : List A)
      → Perm made (recorded ++ (before ++ x ∷ after))
      → Perm made ((recorded ++ x ∷ []) ++ (before ++ after))
  perm-logged x made recorded before after h =
      subst (Perm made) (sym (append_assoc recorded (x ∷ []) (before ++ after)))
        (Perm.trans h (Perm.append_left recorded (perm_middle before after)))

  perm-done :
      (b : Bool) (x : A) (made recorded unlogged : List A)
      → Perm made (recorded ++ unlogged)
      → Perm
          (if b then made ++ x ∷ [] else made)
          ((if b then recorded ++ x ∷ [] else recorded) ++ unlogged)
  perm-done true x made recorded unlogged h =
      subst (λ u. Perm (made ++ x ∷ []) ((recorded ++ x ∷ []) ++ u)) (append-nil unlogged)
        (perm-logged x (made ++ x ∷ []) recorded unlogged []
          (perm-made true x made recorded unlogged h))
  perm-done false x made recorded unlogged h = h

-- What holds while the server runs and ends.
pub record IsDurable (file : Bytes) (router : ShardRouter) (t : Process) : Type 0 where
  pub logged : Threads.Reach (started file) t.threads
  pub live : t.threads.logger.replaying ≡ false
  pub open_for : (t.phase ≡ pool_joined) ⊎ (t.threads.logger.running ≡ true)
  pub data_of : t.router ≡ after t.executed router
  pub accepted_of : t.threads.accepted ≡ log_of t.recorded
  pub each_once : Perm (changes t.executed router) (t.recorded ++ t.unlogged)
  pub drained : t.phase ≡ pool_joined → (t.pool.queue ≡ []) × (t.busy ≡ []) × (t.unlogged ≡ [])

-- What a record does to the logger that is not replaying.
write_record_lem :
    (c : Command) (th : Threads)
    → th.logger.replaying ≡ false
    → write_record c th
      ≡ record th { logger = log (serialize c) th.logger; accepted = accept (serialize c) th }
unfolding write_record log_write
write_record_lem c th h = rw h refl

-- The threads of the logger as a record leaves them.
record IsWritten (file : Bytes) (recorded : List (ℕ × Command)) (th : Threads) : Type 0 where
  reached : Threads.Reach (started file) th
  live : th.logger.replaying ≡ false
  up : th.logger.running ≡ true
  accepted_of : th.accepted ≡ log_of recorded

write_record-IsWritten :
    (file : Bytes) (recorded : List (ℕ × Command)) (x : ℕ × Command) (th : Threads)
    → IsWritten file recorded th
    → IsWritten file (recorded ++ x ∷ []) (write_record x.1 th)
write_record-IsWritten file recorded x th w =
    subst (IsWritten file (recorded ++ x ∷ [])) (sym (write_record_lem x.1 th w.live)) (record {
      reached = Threads.next w.reached (Threads.logs (serialize x.1));
      live = replaying-log (serialize x.1) th.logger ∙ w.live;
      up = running-log (serialize x.1) th.logger ∙ w.up;
      accepted_of = rw (log_of-snoc recorded x, w.up, w.accepted_of) refl;
    })

noted-IsWritten :
    (b : Bool) (file : Bytes) (recorded : List (ℕ × Command)) (x : ℕ × Command) (th : Threads)
    → IsWritten file recorded th
    → IsWritten file (noted b x recorded) (if b then write_record x.1 th else th)
noted-IsWritten true file recorded x th w = write_record-IsWritten file recorded x th w
noted-IsWritten false file recorded x th w = w

none_in_hand :
    {A : Type 0} (before : List A) (x : A) (after : List A) → ¬ (before ++ x ∷ after ≡ [])
none_in_hand [] x rest h = ground arith
none_in_hand (t ∷ before) x rest h = ground arith

module _ (file : Bytes) (router : ShardRouter) (t : Process) (v : IsDurable file router t) where
  threads-IsWritten : ¬ (t.phase ≡ pool_joined) → IsWritten file t.recorded t.threads
  threads-IsWritten still = record {
    reached = v.logged;
    live = v.live;
    up = elim v.open_for [ inl h ↦ absurd (still h) | inr h ↦ h ];
    accepted_of = v.accepted_of;
  }

  data_of-snoc :
      (env : Env) (c : Command)
      → (act env c t.router).0 ≡ after (t.executed ++ (env, c) ∷ []) router
  data_of-snoc env c =
      ap (λ r. (act env c r).0) v.data_of ∙ sym (after-snoc t.executed env c router)

  made :
      (env : Env) (c : Command)
      → changes (t.executed ++ (env, c) ∷ []) router
        ≡ noted (act env c t.router).1.0 (env.now, c) (changes t.executed router)
  made env c =
      changes-snoc t.executed env c router
      ∙ ap (λ r. noted (act env c r).1.0 (env.now, c) (changes t.executed router)) (sym v.data_of)

  change_data-IsDurable :
      (env : Env) (c : Command) (others : List Task)
      → ¬ (t.phase ≡ pool_joined)
      → IsDurable file router (change_data env c others t)
  unfolding change_data
  change_data-IsDurable env c others still = record {
    logged = v.logged;
    live = v.live;
    open_for = v.open_for;
    data_of = data_of-snoc env c;
    accepted_of = v.accepted_of;
    each_once =
        subst (λ m. Perm m (t.recorded ++ noted (act env c t.router).1.0 (env.now, c) t.unlogged))
          (sym (made env c))
          (perm-made (act env c t.router).1.0 (env.now, c) _ t.recorded t.unlogged v.each_once);
    drained = λ p. absurd (still p);
  }

  log_change-IsDurable :
      (before : List (ℕ × Command)) (x : ℕ × Command) (rest : List (ℕ × Command))
      → t.unlogged ≡ before ++ x ∷ rest
      → ¬ (t.phase ≡ pool_joined)
      → IsDurable file router (log_change x (before ++ rest) t)
  unfolding log_change
  log_change-IsDurable before x rest e still =
      let w = write_record-IsWritten file t.recorded x t.threads (threads-IsWritten still) in
      record {
        logged = w.reached;
        live = w.live;
        open_for = inr w.up;
        data_of = v.data_of;
        accepted_of = w.accepted_of;
        each_once =
            perm-logged x _ t.recorded before rest
              (subst (λ u. Perm (changes t.executed router) (t.recorded ++ u)) e v.each_once);
        drained = λ p. absurd (still p);
      }

  perform_task-IsDurable :
      (env : Env) (c : Command) (others : List Task)
      → ¬ (t.phase ≡ pool_joined)
      → IsDurable file router (perform_task env c others t)
  unfolding perform_task
  perform_task-IsDurable env c others still =
      let flag : Bool = (act env c t.router).1.0 in
      let w =
        noted-IsWritten flag file t.recorded (env.now, c) t.threads (threads-IsWritten still) in
      record {
        logged = w.reached;
        live = w.live;
        open_for = inr w.up;
        data_of = data_of-snoc env c;
        accepted_of = w.accepted_of;
        each_once =
            subst (λ m. Perm m (noted flag (env.now, c) t.recorded ++ t.unlogged))
              (sym (made env c)) (perm-done flag (env.now, c) _ t.recorded t.unlogged v.each_once);
        drained = λ p. absurd (still p);
      }

flags-write_flush_buffer :
    (a : AofLogger)
    → ((write_flush_buffer a).replaying ≡ a.replaying)
      × ((write_flush_buffer a).running ≡ a.running)
unfolding write_flush_buffer
flags-write_flush_buffer a = ground arith

flags-flush :
    (a : AofLogger) → ((flush a).replaying ≡ a.replaying) × ((flush a).running ≡ a.running)
unfolding flush
flags-flush a = ground arith

taken_from : (task : Task) (p q : WorkerPool) → q.queue ≡ [] → ¬ (take_task q ≡ (p, some task))
unfolding take_task
taken_from task p q h e = ground (arith, h, e)

-- The steps of the logger's threads.
threads-IsDurable :
    (file : Bytes) (router : ShardRouter) (t : Process) (th : Threads)
    → Threads.Step t.threads th
    → th.logger.replaying ≡ t.threads.logger.replaying
    → ((t.phase ≡ pool_joined) ⊎ (th.logger.running ≡ t.threads.logger.running))
    → th.accepted ≡ t.threads.accepted
    → IsDurable file router t
    → IsDurable file router (record t { threads = th })
threads-IsDurable file router t th step h k l v = record {
  logged = Threads.next v.logged step;
  live = h ∙ v.live;
  open_for = elim k [
    | inl p ↦ inl p
    | inr e ↦ elim v.open_for [ inl p ↦ inl p | inr q ↦ inr (e ∙ q) ]
  ];
  data_of = v.data_of;
  accepted_of = l ∙ v.accepted_of;
  each_once = v.each_once;
  drained = v.drained;
}

-- A step that leaves the threads of the logger, the router and the history as they are.
others-IsDurable :
    (file : Bytes) (router : ShardRouter) (t : Process) (p : WorkerPool) (b : List Task) (f : Phase)
    → (f ≡ pool_joined) ⊎ (t.threads.logger.running ≡ true)
    → (f ≡ pool_joined → (p.queue ≡ []) × (b ≡ []) × (t.unlogged ≡ []))
    → IsDurable file router t
    → IsDurable file router (record t { pool = p; busy = b; phase = f })
others-IsDurable file router t p b f o d v = record {
  logged = v.logged;
  live = v.live;
  open_for = o;
  data_of = v.data_of;
  accepted_of = v.accepted_of;
  each_once = v.each_once;
  drained = d;
}

pub Step-IsDurable :
    (file : Bytes) (router : ShardRouter) {t u : Process}
    → Step t u
    → IsDurable file router t
    → IsDurable file router u
Step-IsDurable file router {t} (submits task p) v =
    others-IsDurable file router t _ _ _ v.open_for (λ q. ground (arith, p, q)) v
Step-IsDurable file router {t} (takes task p e) v =
    others-IsDurable file router t _ _ _ v.open_for
      (λ q. absurd (taken_from task p t.pool (v.drained q).0 e)) v
Step-IsDurable file router {t} (changes_data env before task rest e l) v =
    change_data-IsDurable file router t v env task.command (before ++ rest)
      (λ q. none_in_hand before task rest (sym e ∙ (v.drained q).1))
Step-IsDurable file router {t} (logs before x rest e) v =
    log_change-IsDurable file router t v before x rest e
      (λ q. none_in_hand before x rest (sym e ∙ (v.drained q).2))
Step-IsDurable file router {t} (executes env before task rest e l) v =
    perform_task-IsDurable file router t v env task.command (before ++ rest)
      (λ q. none_in_hand before task rest (sym e ∙ (v.drained q).1))
Step-IsDurable file router {t} (waits f r) v =
    threads-IsDurable file router t _ (Threads.waits f r) refl (inr refl) refl v
Step-IsDurable file router {t} (leaves f r) v =
    threads-IsDurable file router t _ (Threads.leaves f r) refl (inr refl) refl v
Step-IsDurable file router {t} (swaps f) v =
    threads-IsDurable file router t _ (Threads.swaps f) (unfold swap in refl)
      (inr (unfold swap in refl)) refl v
Step-IsDurable file router {t} (writes f) v =
    threads-IsDurable file router t _ (Threads.writes f)
      (flags-write_flush_buffer t.threads.logger).0
      (inr (flags-write_flush_buffer t.threads.logger).1) refl v
Step-IsDurable file router {t} (stops_reactor p) v =
    others-IsDurable file router t _ _ _
      (elim v.open_for [ inl q ↦ ground (arith, p, q) | inr q ↦ inr q ]) (λ q. ground (arith, q)) v
Step-IsDurable file router {t} (stops_pool p) v =
    others-IsDurable file router t _ _ _ v.open_for (λ q. ground (arith, p, q)) v
Step-IsDurable file router {t} (joins_pool p r q b u) v =
    others-IsDurable file router t _ _ _ (inl refl) (λ _. (q, b, u)) v
Step-IsDurable file router {t} (stops_logger p r) v =
    threads-IsDurable file router t _ (Threads.stops r) (unfold stop in refl) (inl p) refl v
Step-IsDurable file router {t} (closes_file f r c) v =
    threads-IsDurable file router t _ (Threads.closes f r c) (flags-flush t.threads.logger).0
      (inr (flags-flush t.threads.logger).1) refl v
