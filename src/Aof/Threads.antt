-- ===== src/Aof/Threads.antt =====
-- The threads of a logger: workers that log, the flush thread (`flush_loop`), and the call of
-- `shutdown`. One step is what a thread does between two points where another may run: `flush_loop`
-- swaps under the mutex and writes without it, so a worker may log between the two.
use in_memory_db.Base.{
  ◌≡◌, refl, Bool, true, false, List, [], ◌∷◌, ◌++◌, append_assoc, append-nil, arith, ◌∙◌, sym,
  if◌then◌else◌, subst, Bool-cases, inl, inr, ◌⊎◌,
}
use in_memory_db.Text.{Bytes}
use in_memory_db.Aof.{
  AofLogger, active_buffer, flush_buffer, log, lines, flush, swap, write_flush_buffer, stop, start,
  new_logger,
}
use in_memory_db.Aof.Written.{
  written, log_stopped, written_empty, flush_buffer-log, written-swap, written-write_flush_buffer,
  flush_buffer-write_flush_buffer, written-flush, buffers-flush, running-flush, written-log,
  running-log, lines-append,
}

-- Where the flush thread is: at the test of its loop, behind the wait, behind the swap, or at an end.
pub data Flusher : Type 0 where
  testing woken swapped finished : Flusher

-- The logger, the flush thread, whether `shutdown` has closed the file, and the commands that were
-- handed to a running logger, oldest first.
pub record Threads : Type 0 where
  pub logger : AofLogger
  pub flusher : Flusher
  pub closed : Bool
  pub accepted : List Bytes

-- What `log` does with a command.
abbrev pub accept : Bytes → Threads → List Bytes
accept c t = if t.logger.running then t.accepted ++ c ∷ [] else t.accepted

pub data Step (t : Threads) : Threads → Type 0 where
  -- a worker, or the timing wheel
  logs : (c : Bytes) → Step t (record t { logger = log c t.logger; accepted = accept c t })
  -- while (running_) { cv_.wait_for(…) }
  waits : t.flusher ≡ testing → t.logger.running ≡ true → Step t (record t { flusher = woken })
  leaves : t.flusher ≡ testing → t.logger.running ≡ false → Step t (record t { flusher = finished })
  swaps : t.flusher ≡ woken → Step t (record t { logger = swap t.logger; flusher = swapped })
  writes :
      t.flusher ≡ swapped
      → Step t (record t { logger = write_flush_buffer t.logger; flusher = testing })
  -- shutdown: the exchange of the flag, and after the join the last flush
  stops : t.logger.running ≡ true → Step t (record t { logger = stop t.logger })
  closes :
      t.flusher ≡ finished
      → t.logger.running ≡ false
      → t.closed ≡ false
      → Step t (record t { logger = flush t.logger; closed = true })

pub data Reach (s : Threads) : Threads → Type 0 where
  here : Reach s s
  next : {t u : Threads} → Reach s t → Step t u → Reach s u

-- A logger on a file, behind `start`.
unfoldable pub started : Bytes → Threads
started file = record {
  logger = start (new_logger file);
  flusher = testing;
  closed = false;
  accepted = [];
}

-- Only between the swap and the write does the flush buffer hold anything, and nothing is left
-- behind `shutdown`.
pub record Inv (file : Bytes) (t : Threads) : Type 0 where
  pub whole : written t.logger ≡ file ++ lines t.accepted
  pub flushed : (t.flusher ≡ swapped) ⊎ (flush_buffer t.logger ≡ [])
  pub stopped : t.flusher ≡ finished → t.logger.running ≡ false
  pub empty : t.closed ≡ true → (t.flusher ≡ finished) × (active_buffer t.logger ≡ [])

pub not_swapped :
    {file : Bytes} {t : Threads} → Inv file t → ¬ (t.flusher ≡ swapped) → flush_buffer t.logger ≡ []
not_swapped v n = elim v.flushed [ inl e ↦ absurd (n e) | inr e ↦ e ]

-- A running logger takes the command as its last one.
logs-Inv :
    (file : Bytes) (c : Bytes) (t : Threads)
    → t.logger.running ≡ true
    → Inv file t
    → Inv file (record t { logger = log c t.logger; accepted = t.accepted ++ c ∷ [] })
logs-Inv file c t r v = record {
  whole =
      rw (written-log c t.logger r, v.whole, lines-append t.accepted (c ∷ []))
        (simp (append_assoc));
  flushed = rw (flush_buffer-log c t.logger) v.flushed;
  stopped = λ e. rw (running-log c t.logger) (v.stopped e);
  empty = ground arith;
}

stops-Inv :
    {file : Bytes} {t : Threads} → Inv file t → Inv file (record t { logger = stop t.logger })
unfolding stop written flush_buffer active_buffer
stops-Inv v = record { whole = v.whole; flushed = v.flushed; stopped = λ _. refl; empty = v.empty }

Step-Inv : (file : Bytes) {t u : Threads} → Step t u → Inv file t → Inv file u
Step-Inv file {t} (logs c) v = elim (Bool-cases t.logger.running) [
  | inl r ↦
      subst
        (λ b. Inv file (record t {
          logger = log c t.logger;
          accepted = if b then t.accepted ++ c ∷ [] else t.accepted;
        }))
        (sym r) (logs-Inv file c t r v)
  | inr r ↦
      subst
        (λ b. Inv file (record t {
          logger = log c t.logger;
          accepted = if b then t.accepted ++ c ∷ [] else t.accepted;
        }))
        (sym r) (rw (log_stopped c t.logger r) v)
]
Step-Inv file {t} (waits f r) v = record {
  whole = v.whole;
  flushed = inr (not_swapped v (ground arith));
  stopped = ground arith;
  empty = ground arith;
}
Step-Inv file {t} (leaves f r) v = record {
  whole = v.whole;
  flushed = inr (not_swapped v (ground arith));
  stopped = λ _. r;
  empty = ground arith;
}
Step-Inv file {t} (swaps f) v = record {
  whole = rw (written-swap t.logger (not_swapped v (ground arith))) v.whole;
  flushed = inl refl;
  stopped = ground arith;
  empty = ground arith;
}
Step-Inv file {t} (writes f) v = record {
  whole = rw (written-write_flush_buffer t.logger) v.whole;
  flushed = inr (flush_buffer-write_flush_buffer t.logger);
  stopped = ground arith;
  empty = ground arith;
}
Step-Inv file {t} (stops r) v = stops-Inv v
Step-Inv file {t} (closes f r c) v = record {
  whole = rw (written-flush t.logger (not_swapped v (ground arith))) v.whole;
  flushed = inr ((buffers-flush t.logger).0 ∙ not_swapped v (ground arith));
  stopped = λ _. rw (running-flush t.logger) r;
  empty = λ _. (f, (buffers-flush t.logger).1);
}

-- What was handed to a running logger is, while its threads run, split between the file, the flush
-- buffer and the active one, in order.
pub Reach-Inv : (file : Bytes) {t : Threads} → Reach (started file) t → Inv file t
unfolding started start new_logger written flush_buffer active_buffer lines
Reach-Inv file here = record {
  whole = simp (append-nil);
  flushed = inr refl;
  stopped = ground arith;
  empty = ground arith;
}
Reach-Inv file (next r s) = Step-Inv file s (Reach-Inv file r)

pub closed_stopped :
    (file : Bytes) {t : Threads}
    → Reach (started file) t
    → t.closed ≡ true
    → t.logger.running ≡ false
closed_stopped file r c = let v = Reach-Inv file r in v.stopped (v.empty c).0

-- In every order of the steps of the workers, of the flush thread and of `shutdown` from a logger
-- that was started on a file: once `shutdown` has closed the file, it holds what it held before,
-- and then exactly the commands that were handed to the running logger, each once and in that
-- order.
pub closed_file :
    (file : Bytes) {t : Threads}
    → Reach (started file) t
    → t.closed ≡ true
    → t.logger.file ≡ file ++ lines t.accepted
closed_file file {t} r c =
    let v : Inv file t = Reach-Inv file r in
    let f : t.flusher ≡ finished = (v.empty c).0 in
    sym (written_empty t.logger (not_swapped v (ground arith)) (v.empty c).1) ∙ v.whole
