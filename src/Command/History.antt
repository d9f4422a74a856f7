-- ===== src/Command/History.antt =====
-- A history of commands on one store: what ends up in the log, and what in the database.
use in_memory_db.Base.{
  ℕ, ◌≡◌, refl, Bool, true, false, Option, none, some, List, [], ◌∷◌, ◌++◌, map, append_assoc,
  append-nil, arith, if◌then◌else◌, sym, ap, ◌∙◌, Bool-cases, inl, inr,
}
use mathlib.Core.Path.{fun_ext}
use in_memory_db.Text.{Bytes}
use in_memory_db.Aof.{AofLogger, log, lines}
use in_memory_db.Aof.Written.{written, written-log, running-log, replaying-log}
use in_memory_db.Shard.{Env}
use in_memory_db.Router.{ShardRouter}
use in_memory_db.Router.Index.{IsRouted}
use in_memory_db.Command.{Command, serialize}
use in_memory_db.Command.Execute.{Store, act, execute, log_write}
use in_memory_db.Command.Spec.{Contents, apply}
use in_memory_db.Command.Refinement.{contents, act-refines, act-IsRouted}

-- The commands in the order in which the workers execute them.
pub run : List (Env × Command) → Store → Store
run [] s = s
run ((env, c) ∷ rest) s = run rest (execute env c s).0

-- The commands that report a change, each with its time.
unfoldable pub changes : List (Env × Command) → ShardRouter → List (ℕ × Command)
changes [] r = []
changes ((env, c) ∷ rest) r =
    let later = changes rest (act env c r).0 in
    if (act env c r).1.0 then (env.now, c) ∷ later else later

-- The contract of a history.
unfoldable pub apply_all : List (ℕ × Command) → Contents → Contents
apply_all [] m = m
apply_all ((now, c) ∷ rest) m = apply_all rest (apply now c m)

pub router-execute :
    (env : Env) (c : Command) (s : Store) → (execute env c s).0.router ≡ (act env c s.router).0
unfolding execute
router-execute env c s = ground arith

pub contents-act :
    (env : Env) (c : Command) (r : ShardRouter)
    → IsRouted r
    → contents (act env c r).0
      ≡ (if (act env c r).1.0 then apply env.now c (contents r) else contents r)
contents-act env c r w = fun_ext λ j. elim (Bool-cases (act env c r).1.0) [
  | inl e ↦ act-refines env c r j w ∙ rw e
  | inr e ↦ act-refines env c r j w ∙ rw e
]

pub apply_all-if :
    (b : Bool) (now : ℕ) (c : Command) (later : List (ℕ × Command)) (m : Contents)
    → apply_all later (if b then apply now c m else m)
      ≡ apply_all (if b then (now, c) ∷ later else later) m
unfolding apply_all
apply_all-if true now c later m = refl
apply_all-if false now c later m = refl

-- On a router that is laid out as its constructor does it, the database after a history is what the
-- contract makes of the commands that report a change, in order.
pub contents-run :
    (history : List (Env × Command)) (s : Store)
    → IsRouted s.router
    → contents (run history s).router ≡ apply_all (changes history s.router) (contents s.router)
unfolding run changes execute
contents-run [] s w = unfold apply_all in refl
contents-run ((env, c) ∷ rest) s w =
    let later : List (ℕ × Command) = changes rest (act env c s.router).0 in
    contents-run rest (execute env c s).0 (act-IsRouted env c s.router w)
    ∙ ap (apply_all later) (contents-act env c s.router w)
    ∙ apply_all-if (act env c s.router).1.0 env.now c later (contents s.router)

-- The records of the changes, in the order of the file.
abbrev pub log_of : List (ℕ × Command) → List Bytes
log_of cs = map (λ tc. serialize tc.1) cs

-- The logger of a store that is running takes the changes, and nothing else.
abbrev pub IsLogging : Option AofLogger → Type 0
IsLogging none = ⊥
IsLogging (some a) = (a.running ≡ true) × (a.replaying ≡ false)

abbrev pub taken : Option AofLogger → Bytes
taken none = []
taken (some a) = written a

-- The log after the end of one command.
abbrev pub logged : Bool → Command → Option AofLogger → Option AofLogger
logged changed c aof = if changed then log_write c aof else aof

pub IsLogging-logged :
    (b : Bool) (c : Command) (aof : Option AofLogger) → IsLogging aof → IsLogging (logged b c aof)
unfolding log_write
IsLogging-logged b c none l = absurd l
IsLogging-logged b c (some a) l =
    ground (arith, running-log (serialize c) a, replaying-log (serialize c) a)

abbrev pub record_of : Bool → ℕ → Command → List (ℕ × Command) → List (ℕ × Command)
record_of b now c later = if b then (now, c) ∷ later else later

pub taken-logged :
    (b : Bool) (now : ℕ) (c : Command) (aof : Option AofLogger) (later : List (ℕ × Command))
    → IsLogging aof
    → taken (logged b c aof) ++ lines (log_of later)
      ≡ taken aof ++ lines (log_of (record_of b now c later))
unfolding log_write
taken-logged b now c none later l = absurd l
taken-logged false now c (some a) later l = refl
taken-logged true now c (some a) later l =
    let e : logged true c (some a) ≡ some (log (serialize c) a) = ground arith in
    ap (λ o. taken o ++ lines (log_of later)) e
    ∙ rw (written-log (serialize c) a l.0) (unfold lines in simp append_assoc)

-- If the logger runs and is not replaying, then what it has taken, from the file to the active
-- buffer, grows in a history by the records of the commands that report a change, in order.
pub taken-run :
    (history : List (Env × Command)) (s : Store)
    → IsLogging s.aof
    → taken (run history s).aof ≡ taken s.aof ++ lines (log_of (changes history s.router))
unfolding run changes execute
taken-run [] s l = unfold lines in sym (append-nil (taken s.aof))
taken-run ((env, c) ∷ rest) s l =
    let flag : Bool = (act env c s.router).1.0 in
    taken-run rest (execute env c s).0 (IsLogging-logged flag c s.aof l)
    ∙ taken-logged flag env.now c s.aof (changes rest (act env c s.router).0) l
