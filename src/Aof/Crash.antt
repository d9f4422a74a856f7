-- ===== src/Aof/Crash.antt =====
-- A crash: what the file holds at any moment, not only behind `shutdown`. It comes between two steps
-- of the threads; a file that a write left incomplete is in Torn.
use in_memory_db.Base.{
  Bool, ◌≡◌, refl, true, false, List, [], ◌∷◌, ◌++◌, append_assoc, append-nil, arith, ◌∙◌, sym, ap,
  if◌then◌else◌,
}
use in_memory_db.Text.{Bytes}
use in_memory_db.Aof.{
  AofLogger, active_buffer, flush_buffer, log, lines, flush, swap, write_flush_buffer, stop, start,
  new_logger,
}
use in_memory_db.Aof.Written.{lines-append}
use in_memory_db.Aof.Threads.{
  Threads, Step, logs, waits, leaves, swaps, writes, stops, closes, Reach, here, next, started, Inv,
  Reach-Inv, not_swapped,
}

-- The commands in memory: those that the flush thread is writing, and those that wait for it.
abbrev pub unwritten : AofLogger → List Bytes
unwritten a = flush_buffer a ++ active_buffer a

-- The accepted commands are those on disk, then those in memory.
pub record IsSplit (file : Bytes) (accepted : List Bytes) (a : AofLogger) : Type 0 where
  pub on_disk : List Bytes
  pub file_of : a.file ≡ file ++ lines on_disk
  pub all_of : accepted ≡ on_disk ++ unwritten a

unwritten-log :
    (c : Bytes) (a : AofLogger)
    → unwritten (log c a) ≡ (if a.running then unwritten a ++ c ∷ [] else unwritten a)
unfolding log flush_buffer active_buffer
unwritten-log c a = ground (
  arith,
  append_assoc a.buffer_a a.buffer_b (c ∷ []),
  append_assoc a.buffer_b a.buffer_a (c ∷ []),
)

pub file-log : (c : Bytes) (a : AofLogger) → (log c a).file ≡ a.file
unfolding log
file-log c a = ground arith

unwritten-swap : (a : AofLogger) → flush_buffer a ≡ [] → unwritten (swap a) ≡ unwritten a
unfolding swap flush_buffer active_buffer
unwritten-swap a h = ground (arith, append-nil a.buffer_a, append-nil a.buffer_b)

pub write_flush_buffer_lem :
    (a : AofLogger)
    → ((write_flush_buffer a).file ≡ a.file ++ lines (flush_buffer a))
      × (unwritten (write_flush_buffer a) ≡ active_buffer a)
unfolding write_flush_buffer flush_buffer active_buffer
write_flush_buffer_lem a = ground arith

pub flush_lem :
    (a : AofLogger)
    → ((flush a).file ≡ a.file ++ lines (active_buffer a)) × (unwritten (flush a) ≡ flush_buffer a)
unfolding flush flush_buffer active_buffer
flush_lem a = ground (arith, append-nil a.buffer_a, append-nil a.buffer_b)

all_of-accept :
    (running : Bool) (c : Bytes) (accepted on_disk rest : List Bytes)
    → accepted ≡ on_disk ++ rest
    → (if running then accepted ++ c ∷ [] else accepted)
      ≡ on_disk ++ (if running then rest ++ c ∷ [] else rest)
all_of-accept true c accepted on_disk rest h = rw h (append_assoc on_disk rest (c ∷ []))
all_of-accept false c accepted on_disk rest h = h

-- Some of what was in memory is written.
written-IsSplit :
    (file : Bytes) (accepted some_of others : List Bytes) (a b : AofLogger)
    → unwritten a ≡ some_of ++ others
    → b.file ≡ a.file ++ lines some_of
    → unwritten b ≡ others
    → IsSplit file accepted a
    → IsSplit file accepted b
written-IsSplit file accepted some_of others a b h f u v = record {
  on_disk = v.on_disk ++ some_of;
  file_of =
      f
      ∙ rw (v.file_of, lines-append v.on_disk some_of)
          (append_assoc file (lines v.on_disk) (lines some_of));
  all_of = v.all_of ∙ rw (h, u) (sym (append_assoc v.on_disk some_of others));
}

Step-IsSplit :
    (file : Bytes) {t u : Threads}
    → Inv file t
    → Step t u
    → IsSplit file t.accepted t.logger
    → IsSplit file u.accepted u.logger
Step-IsSplit file {t} i (logs c) v = record {
  on_disk = v.on_disk;
  file_of = file-log c t.logger ∙ v.file_of;
  all_of =
      all_of-accept t.logger.running c t.accepted v.on_disk (unwritten t.logger) v.all_of
      ∙ ap (◌++◌ v.on_disk) (sym (unwritten-log c t.logger));
}
Step-IsSplit file i (waits f r) v = v
Step-IsSplit file i (leaves f r) v = v
Step-IsSplit file {t} i (swaps f) v = record {
  on_disk = v.on_disk;
  file_of = unfold swap in v.file_of;
  all_of =
      v.all_of ∙ ap (◌++◌ v.on_disk) (sym (unwritten-swap t.logger (not_swapped i (ground arith))));
}
Step-IsSplit file {t} i (writes f) v =
    let (w, u) = write_flush_buffer_lem t.logger in
    written-IsSplit file t.accepted (flush_buffer t.logger) (active_buffer t.logger) t.logger
      (write_flush_buffer t.logger) refl w u v
Step-IsSplit file {t} i (stops r) v = record {
  on_disk = v.on_disk;
  file_of = unfold stop in v.file_of;
  all_of = unfold stop in unfold flush_buffer in unfold active_buffer in v.all_of;
}
Step-IsSplit file {t} i (closes f r c) v =
    let (w, u) = flush_lem t.logger in
    let none_left : flush_buffer t.logger ≡ [] = not_swapped i (ground arith) in
    written-IsSplit file t.accepted (active_buffer t.logger) [] t.logger (flush t.logger)
      (rw none_left (sym (append-nil (active_buffer t.logger)))) w (u ∙ none_left) v

-- At any moment of any run, from a logger that was started on a file: the file holds what it held
-- before, and then whole records: a first part of the commands that were handed to the running
-- logger, in that order. The others are those in its two buffers.
pub Reach-IsSplit :
    (file : Bytes) {t : Threads} → Reach (started file) t → IsSplit file t.accepted t.logger
Reach-IsSplit file here = record {
  on_disk = [];
  file_of =
      unfold started in unfold start in unfold new_logger in unfold lines in sym (append-nil file);
  all_of =
      unfold started in
      unfold start in unfold new_logger in unfold flush_buffer in unfold active_buffer in refl;
}
Reach-IsSplit file (next r step) = Step-IsSplit file (Reach-Inv file r) step (Reach-IsSplit file r)
