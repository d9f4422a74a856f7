-- ===== src/Aof/Written.antt =====
-- What a logger has taken, in order: the file, then the buffer being flushed, then the active one.
use in_memory_db.Base.{
  ◌≡◌, refl, true, false, List, [], ◌∷◌, ◌++◌, append_assoc, append-nil, arith, Bool-cases, inl,
  inr,
}
use in_memory_db.Text.{Bytes}
use in_memory_db.Aof.{
  AofLogger, active_buffer, flush_buffer, log, lines, flush, swap, write_flush_buffer,
}

unfoldable pub written : AofLogger → Bytes
written a = a.file ++ (lines (flush_buffer a) ++ lines (active_buffer a))

pub lines-append : (xs ys : List Bytes) → lines (xs ++ ys) ≡ lines xs ++ lines ys
unfolding lines
lines-append [] ys = refl
lines-append (x ∷ xs) ys = simp (lines-append xs, append_assoc)

-- What a running logger takes comes last.
pub written-log :
    (c : Bytes) (a : AofLogger) → a.running ≡ true → written (log c a) ≡ written a ++ lines (c ∷ [])
unfolding written log flush_buffer active_buffer
written-log c a h = elim (Bool-cases a.active_is_a) [
  | inl e ↦ rw (h, log, e) (simp (lines-append, append_assoc))
  | inr e ↦ rw (h, log, e) (simp (lines-append, append_assoc))
]

pub running-log : (c : Bytes) (a : AofLogger) → (log c a).running ≡ a.running
unfolding log
running-log c a = ground arith

pub replaying-log : (c : Bytes) (a : AofLogger) → (log c a).replaying ≡ a.replaying
unfolding log
replaying-log c a = ground arith

-- A stopped logger takes nothing.
pub log_stopped : (c : Bytes) (a : AofLogger) → a.running ≡ false → log c a ≡ a
unfolding log
log_stopped c a h = rw (h) refl

pub flush_buffer-log : (c : Bytes) (a : AofLogger) → flush_buffer (log c a) ≡ flush_buffer a
unfolding log flush_buffer
flush_buffer-log c a = ground arith

pub written-swap : (a : AofLogger) → flush_buffer a ≡ [] → written (swap a) ≡ written a
unfolding written swap flush_buffer active_buffer lines
written-swap a h = elim (Bool-cases a.active_is_a) [
  | inl e ↦ let g : a.buffer_b ≡ [] = ground arith in rw (e, g) (simp (append-nil))
  | inr e ↦ let g : a.buffer_a ≡ [] = ground arith in rw (e, g) (simp (append-nil))
]

pub written-write_flush_buffer : (a : AofLogger) → written (write_flush_buffer a) ≡ written a
unfolding written write_flush_buffer flush_buffer active_buffer lines
written-write_flush_buffer a = elim (Bool-cases a.active_is_a) [
  | inl e ↦ rw (e) (simp (append_assoc))
  | inr e ↦ rw (e) (simp (append_assoc))
]

pub flush_buffer-write_flush_buffer : (a : AofLogger) → flush_buffer (write_flush_buffer a) ≡ []
unfolding write_flush_buffer flush_buffer
flush_buffer-write_flush_buffer a = ground arith

pub written-flush : (a : AofLogger) → flush_buffer a ≡ [] → written (flush a) ≡ written a
unfolding written flush flush_buffer active_buffer lines
written-flush a h = elim (Bool-cases a.active_is_a) [
  | inl e ↦ let g : a.buffer_b ≡ [] = ground arith in rw (e, g) (simp (append_assoc, append-nil))
  | inr e ↦ let g : a.buffer_a ≡ [] = ground arith in rw (e, g) (simp (append_assoc, append-nil))
]

pub buffers-flush :
    (a : AofLogger) → (flush_buffer (flush a) ≡ flush_buffer a) × (active_buffer (flush a) ≡ [])
unfolding flush flush_buffer active_buffer
buffers-flush a = ground arith

pub written_empty :
    (a : AofLogger) → flush_buffer a ≡ [] → active_buffer a ≡ [] → written a ≡ a.file
unfolding written lines
written_empty a f e = rw (f, e) (simp (append-nil))

pub running-flush : (a : AofLogger) → (flush a).running ≡ a.running
unfolding flush
running-flush a = ground arith
