-- ===== src/ServerBuilder/Crash.antt =====
-- A crash and a restart: the database that the replay builds from the file as the crash left it.
use in_memory_db.Base.{
  ℕ, zero, suc, ◌^◌, ◌<◌, ◌≡◌, refl, none, some, List, [], ◌∷◌, ◌++◌, take, drop, arith, sym, ap,
  subst, ◌∙◌,
}
use in_memory_db.Text.{Bytes}
use in_memory_db.Aof.{lines}
use in_memory_db.Aof.Crash.{unwritten, IsSplit, Reach-IsSplit}
use in_memory_db.Shard.{Env}
use in_memory_db.Router.{ShardRouter, new_router}
use in_memory_db.Router.Index.{IsRouted, new_router-IsRouted}
use in_memory_db.Command.{Command, serialize}
use in_memory_db.Command.Execute.{Store, act}
use in_memory_db.Command.Spec.{Contents, apply, key_of}
use in_memory_db.Command.Refinement.{contents}
use in_memory_db.Command.History.{apply_all, log_of}
use in_memory_db.Command.Interleaved
use in_memory_db.Command.Interleaved.{Shared}
use in_memory_db.Command.Interleaved.Commuting.{Apart, AllApart}
use in_memory_db.Command.Interleaved.Calm
use in_memory_db.Command.Interleaved.Calm.{IsReplayable}
use in_memory_db.Command.Retiming.{untimed, AllFresh, retimed}
use in_memory_db.ServerBuilder.{replay}
use in_memory_db.ServerBuilder.Recovery.{
  Accepts, AllParsed, times_of, contents-new_router, replayed,
}
use in_memory_db.ServerBuilder.Shutdown.{
  Process, change_data, log_change, perform_task, Step, submits, takes, changes_data, logs,
  executes, waits, leaves, swaps, writes, stops_reactor, stops_pool, joins_pool, stops_logger,
  closes_file, Reach, here, next, booted,
}
use in_memory_db.ServerBuilder.Shutdown.Held.{IsDurable}
use in_memory_db.ServerBuilder.Shutdown.Durable.{Reach-IsDurable}

-- A first part of a list of records is the records of its first changes.
record IsCut (cs rest : List Bytes) (xs : List (ℕ × Command)) : Type 0 where
  count : ℕ
  first : cs ≡ log_of (take count xs)
  others : rest ≡ log_of (drop count xs)

log_of-IsCut :
    (cs rest : List Bytes) (xs : List (ℕ × Command)) → log_of xs ≡ cs ++ rest → IsCut cs rest xs
log_of-IsCut [] rest xs e = record { count = 0; first = refl; others = sym e }
log_of-IsCut (c ∷ cs) rest [] e = absurd (cc)
log_of-IsCut (c ∷ cs) rest (x ∷ xs) e =
    let p = log_of-IsCut cs rest xs (ground arith) in
    let same : c ≡ serialize x.1 = ground arith in
    record {
      count = suc p.count;
      first = rw same (ap (◌∷◌ (serialize x.1)) p.first);
      others = p.others;
    }

take-drop : (n : ℕ) (xs : List (ℕ × Command)) → take n xs ++ drop n xs ≡ xs
take-drop zero xs = refl
take-drop (suc n) [] = refl
take-drop (suc n) (x ∷ xs) = ap (◌∷◌ x) (take-drop n xs)

Accepts-append :
    (envs : ℕ → Env) (i : ℕ) (cs others : List (ℕ × Command)) (r : ShardRouter)
    → Accepts envs i (cs ++ others) r
    → Accepts envs i cs r
Accepts-append envs i [] others r a = tt
Accepts-append envs i ((now, c) ∷ cs) others r a =
    (a.0, Accepts-append envs (suc i) cs others (act (envs i) c r).0 a.1)

AllFresh-append :
    (cs others : List (ℕ × Command)) (m : Contents) → AllFresh (cs ++ others) m → AllFresh cs m
AllFresh-append [] others m f = tt
AllFresh-append ((now, c) ∷ cs) others m f = (f.0, AllFresh-append cs others (apply now c m) f.1)

AllFresh-retimed-append :
    (times : ℕ → ℕ) (i : ℕ) (cs others : List (ℕ × Command)) (m : Contents)
    → AllFresh (retimed times i (cs ++ others)) m
    → AllFresh (retimed times i cs) m
AllFresh-retimed-append times i [] others m f = tt
AllFresh-retimed-append times i ((now, c) ∷ cs) others m f =
    (f.0, AllFresh-retimed-append times (suc i) cs others (apply (times i) c m) f.1)

AllParsed-take : (m : ℕ) (xs : List (ℕ × Command)) → AllParsed xs → AllParsed (take m xs)
AllParsed-take zero xs p = tt
AllParsed-take (suc m) [] p = tt
AllParsed-take (suc m) (x ∷ xs) p = (p.0, AllParsed-take m xs p.1)

-- The command that meets the data meets no change of its key that is still to be logged.
abbrev pub IsCalm : {t u : Process} → Step t u → Type 0
IsCalm {t} (changes_data env before task rest e l) = Apart (key_of task.command) t.unlogged
IsCalm {t} (executes env before task rest e l) = Apart (key_of task.command) t.unlogged
IsCalm step = Unit

abbrev pub AllCalm : {s t : Process} → Reach s t → Type 0
AllCalm here = Unit
AllCalm (next r step) = AllCalm r × IsCalm step

-- The part of the process that the workers share.
abbrev shared : Process → Shared
shared t = record {
  router = t.router;
  aof = some t.threads.logger;
  unlogged = t.unlogged;
  recorded = t.recorded;
}

same_data :
    (m : Contents) (s t : Shared)
    → s.router ≡ t.router
    → s.unlogged ≡ t.unlogged
    → s.recorded ≡ t.recorded
    → IsReplayable m s
    → IsReplayable m t
same_data m s t e f g v = record {
  routed = subst IsRouted e v.routed;
  data_of = rw⁻¹ (e, f, g) v.data_of;
  apart = subst AllApart f v.apart;
}

Step-IsReplayable :
    (m : Contents) {t u : Process} (step : Step t u)
    → IsCalm step
    → IsReplayable m (shared t)
    → IsReplayable m (shared u)
unfolding change_data log_change perform_task
Step-IsReplayable m {t} (changes_data env before task rest e l) calm v =
    Calm.Step-IsReplayable m (Interleaved.changes_data env task.command l) calm v
Step-IsReplayable m {t} (logs before x rest e) calm v =
    same_data m _ _ refl refl refl
      (Calm.Step-IsReplayable m (Interleaved.logs before x rest e) tt v)
Step-IsReplayable m {t} (executes env before task rest e l) calm v =
    same_data m _ _ refl refl refl
      (Calm.Step-IsReplayable m (Interleaved.executes env task.command l) calm v)
Step-IsReplayable m {t} (submits task p) calm v = v
Step-IsReplayable m (takes task p e) calm v = v
Step-IsReplayable m (waits f r) calm v = v
Step-IsReplayable m (leaves f r) calm v = v
Step-IsReplayable m (swaps f) calm v = same_data m _ _ refl refl refl v
Step-IsReplayable m (writes f) calm v = same_data m _ _ refl refl refl v
Step-IsReplayable m (stops_reactor p) calm v = v
Step-IsReplayable m (stops_pool p) calm v = v
Step-IsReplayable m (joins_pool p r q b u) calm v = v
Step-IsReplayable m (stops_logger p r) calm v = same_data m _ _ refl refl refl v
Step-IsReplayable m (closes_file f r c) calm v = same_data m _ _ refl refl refl v

Reach-IsReplayable :
    (file : Bytes) (router : ShardRouter) {t : Process} (r : Reach (booted file router) t)
    → AllCalm r
    → IsRouted router
    → IsReplayable (contents router) (shared t)
Reach-IsReplayable file router here calm w =
    unfold booted in record { routed = w; data_of = unfold apply_all in refl; apart = tt }
Reach-IsReplayable file router (next r step) calm w =
    Step-IsReplayable (contents router) step calm.1 (Reach-IsReplayable file router r calm.0 w)

-- A crash. Start a server with an empty log, and let its threads run in any order in which no command
-- meets a change of its key that is still to be logged, until it ends or crashes between two steps.
-- Restart later with any memory and any number of shards, and replay the file as it is. If the logged
-- changes are commands that the parser builds, the replay accepts each, and in the order of the log
-- none meets an entry that has expired without a tombstone, then or in the replay: every key has the
-- value, the ttl and the tombstone that a first part of the logged changes gives it; the records of
-- the others are exactly what was in the two buffers of the logger; and the database at the crash was
-- what all the logged changes give, and then those that were still to be logged.
pub crash_recovery :
    (total n total' n' : ℕ) (router : ShardRouter) (fresh : Store) (envs : ℕ → Env) {t : Process}
    (r : Reach (booted [] router) t)
    → AllCalm r
    → n < 2 ^ 64
    → n' < 2 ^ 64
    → new_router total n ≡ some router
    → new_router total' n' ≡ some fresh.router
    → AllParsed t.recorded
    → Accepts envs 0 t.recorded fresh.router
    → AllFresh t.recorded (λ k. none)
    → AllFresh (retimed (times_of envs) 0 t.recorded) (λ k. none)
    → (m : ℕ) × ((key : Bytes)
        → untimed (contents (replay envs t.threads.logger.file fresh).router key)
          ≡ untimed (apply_all (take m t.recorded) (λ k. none) key))
      × (unwritten t.threads.logger ≡ log_of (drop m t.recorded))
      × (contents t.router ≡ apply_all t.unlogged (apply_all t.recorded (λ k. none)))
crash_recovery total n total' n' router fresh envs {t} r calm hn hn' e e' p a f g =
    let v : IsDurable [] router t = Reach-IsDurable [] router r in
    let d : IsSplit [] t.threads.accepted t.threads.logger = Reach-IsSplit [] v.logged in
    let cut =
      log_of-IsCut d.on_disk (unwritten t.threads.logger) t.recorded
        (sym v.accepted_of ∙ d.all_of) in
    let cs : List (ℕ × Command) = take cut.count t.recorded in
    let others : List (ℕ × Command) = drop cut.count t.recorded in
    let split : t.recorded ≡ cs ++ others = sym (take-drop cut.count t.recorded) in
    let file : t.threads.logger.file ≡ lines (log_of cs) = d.file_of ∙ ap lines cut.first in
    let w = Reach-IsReplayable [] router r calm (new_router-IsRouted total n router hn e) in
    (
      cut.count,
      λ key.
          ap (λ x. untimed (contents (replay envs x fresh).router key)) file
          ∙ replayed total' n' fresh cs envs hn' e' (AllParsed-take cut.count t.recorded p)
              (Accepts-append envs 0 cs others fresh.router
                (subst (λ xs. Accepts envs 0 xs fresh.router) split a))
              (AllFresh-append cs others (λ k. none)
                (subst (λ xs. AllFresh xs (λ k. none)) split f))
              (AllFresh-retimed-append (times_of envs) 0 cs others (λ k. none)
                (subst (λ xs. AllFresh (retimed (times_of envs) 0 xs) (λ k. none)) split g))
              key,
      cut.others,
      w.data_of
          ∙ ap (λ m. apply_all t.unlogged (apply_all t.recorded m))
              (contents-new_router total n router e),
    )
