-- ===== src/Aof/Torn.antt =====
-- A disk that gives out. write_buffer_to_disk looks at no state of its stream: an output that fails
-- leaves the bytes that it could write, and by the state of the stream no later output does anything.
use in_memory_db.Base.{
  ℕ, zero, suc, ◌≡◌, refl, Bool, true, false, [], ◌∷◌, ◌++◌, length, take, drop, leb, if◌then◌else◌,
  append_assoc, append-nil, arith, ◌∙◌, sym, ap, subst, Bool-cases, inl, inr,
}
use in_memory_db.Text.{Bytes}
use in_memory_db.Aof.{lines, flush_buffer, active_buffer, swap, stop, start, new_logger}
use in_memory_db.Aof.Written.{lines-append}
use in_memory_db.Aof.Threads.{
  Threads, Step, logs, waits, leaves, swaps, writes, stops, closes, Reach, here, next, started,
}
use in_memory_db.Aof.Crash.{
  unwritten, IsSplit, Reach-IsSplit, file-log, write_flush_buffer_lem, flush_lem,
}

-- What the file has in truth, and whether the stream is good.
pub record Disk : Type 0 where
  pub bytes : Bytes
  pub good : Bool

-- An output for which the disk has so much room.
pub write : ℕ → Bytes → Disk → Disk
write room new d =
    if d.good
    then (if leb (length new) room
        then record d { bytes = d.bytes ++ new }
        else record { bytes = d.bytes ++ take room new; good = false })
    else d

-- A run of the threads, in which what a step adds to the file is given to the stream.
pub data Run (file : Bytes) : Threads → Disk → Type 0 where
  begun : Run file (started file) (record { bytes = file; good = true })
  steps :
      {t u : Threads} {d : Disk}
      → Run file t d
      → Step t u
      → (new : Bytes) → u.logger.file ≡ t.logger.file ++ new
      → (room : ℕ) → Run file u (write room new d)

Run-Reach : {file : Bytes} {t : Threads} {d : Disk} → Run file t d → Reach (started file) t
Run-Reach begun = here
Run-Reach (steps r step new e room) = next (Run-Reach r) step

take-drop : (n : ℕ) (s : Bytes) → take n s ++ drop n s ≡ s
take-drop zero s = refl
take-drop (suc n) [] = refl
take-drop (suc n) (c ∷ s) = ap (◌∷◌ c) (take-drop n s)

-- The file lacks some bytes at its end, and none if the stream is good.
record IsShort (whole : Bytes) (d : Disk) : Type 0 where
  lost : Bytes
  whole_of : whole ≡ d.bytes ++ lost
  none_lost : d.good ≡ true → lost ≡ []

write_fits :
    (room : ℕ) (new : Bytes) (d : Disk)
    → d.good ≡ true
    → leb (length new) room ≡ true
    → write room new d ≡ record { bytes = d.bytes ++ new; good = true }
unfolding write
write_fits room new d g f = ground arith

write_cut :
    (room : ℕ) (new : Bytes) (d : Disk)
    → d.good ≡ true
    → leb (length new) room ≡ false
    → write room new d ≡ record { bytes = d.bytes ++ take room new; good = false }
unfolding write
write_cut room new d g f = ground arith

write_bad : (room : ℕ) (new : Bytes) (d : Disk) → d.good ≡ false → write room new d ≡ d
unfolding write
write_bad room new d g = ground arith

write-IsShort :
    (room : ℕ) (new whole : Bytes) (d : Disk)
    → IsShort whole d
    → IsShort (whole ++ new) (write room new d)
write-IsShort room new whole d v = elim (Bool-cases d.good) [
  | inl g ↦
      let all : whole ≡ d.bytes = v.whole_of ∙ rw (v.none_lost g) (append-nil d.bytes) in
      elim (Bool-cases (leb (length new) room)) [
        | inl f ↦ subst (IsShort (whole ++ new)) (sym (write_fits room new d g f)) (record {
          lost = [];
          whole_of = rw all (sym (append-nil (d.bytes ++ new)));
          none_lost = λ _. refl;
        })
        | inr f ↦ subst (IsShort (whole ++ new)) (sym (write_cut room new d g f)) (record {
          lost = drop room new;
          whole_of =
              rw (append_assoc d.bytes (take room new) (drop room new), take-drop room new, all)
                refl;
          none_lost = ground arith;
        })
      ]
  | inr g ↦ subst (IsShort (whole ++ new)) (sym (write_bad room new d g)) (record {
    lost = v.lost ++ new;
    whole_of = rw (v.whole_of) (append_assoc d.bytes v.lost new);
    none_lost = ground (arith, g);
  })
]

Run-IsShort : {file : Bytes} {t : Threads} {d : Disk} → Run file t d → IsShort t.logger.file d
Run-IsShort {file} begun = record {
  lost = [];
  whole_of = unfold started in unfold start in unfold new_logger in sym (append-nil file);
  none_lost = λ _. refl;
}
Run-IsShort (steps {t} {u} {d} r step new e room) =
    subst (λ x. IsShort x (write room new d)) (sym e)
      (write-IsShort room new t.logger.file d (Run-IsShort r))

-- Each step has something to add, if only nothing.
pub Step-appends :
    {t u : Threads} → Step t u → (new : Bytes) × (u.logger.file ≡ t.logger.file ++ new)
Step-appends {t} (logs c) = ([], file-log c t.logger ∙ sym (append-nil t.logger.file))
Step-appends {t} (waits f r) = ([], sym (append-nil t.logger.file))
Step-appends {t} (leaves f r) = ([], sym (append-nil t.logger.file))
Step-appends {t} (swaps f) = ([], unfold swap in sym (append-nil t.logger.file))
Step-appends {t} (writes f) = (lines (flush_buffer t.logger), (write_flush_buffer_lem t.logger).0)
Step-appends {t} (stops r) = ([], unfold stop in sym (append-nil t.logger.file))
Step-appends {t} (closes f r c) = (lines (active_buffer t.logger), (flush_lem t.logger).0)

-- In every run of the threads, and whatever room the disk has for each output: the file is at any
-- moment what it was before, and then a first part of the bytes of the records of the accepted
-- commands, in their order: a disk that gives out makes no gap. While the stream is good, only what
-- is in the two buffers is not in the file.
pub disk_prefix :
    (file : Bytes) {t : Threads} {d : Disk}
    → Run file t d
    → (lost : Bytes) × (file ++ lines t.accepted ≡ d.bytes ++ lost)
      × (d.good ≡ true → lost ≡ lines (unwritten t.logger))
disk_prefix file {t} {d} r =
    let v = Run-IsShort r in
    let i : IsSplit file t.accepted t.logger = Reach-IsSplit file (Run-Reach r) in
    let rest : Bytes = lines (unwritten t.logger) in
    (
      v.lost ++ rest,
      ap (λ cs. file ++ lines cs) i.all_of
          ∙ ap (◌++◌ file) (lines-append i.on_disk (unwritten t.logger))
          ∙ sym (append_assoc file (lines i.on_disk) rest)
          ∙ ap (λ x. x ++ rest) (sym i.file_of ∙ v.whole_of)
          ∙ append_assoc d.bytes v.lost rest,
      λ g. ap (λ x. x ++ rest) (v.none_lost g),
    )
