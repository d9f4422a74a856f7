-- ===== src/Command/Interleaved/Calm.antt =====
-- If no worker changes a key whose last change another one has still to log, then the log, replayed,
-- gives the database, although its order need not be that of the changes.
use in_memory_db.Base.{
  ℕ, ◌≡◌, refl, Bool, true, false, Option, List, [], ◌∷◌, ◌++◌, append_assoc, append-nil, sym, ap,
  subst, ◌∙◌, if◌then◌else◌,
}
use in_memory_db.Text.{Bytes}
use in_memory_db.Aof.{AofLogger, lines}
use in_memory_db.Router.{ShardRouter}
use in_memory_db.Router.Index.{IsRouted}
use in_memory_db.Command.{Command}
use in_memory_db.Command.Execute.{act}
use in_memory_db.Command.Spec.{Contents, apply, key_of}
use in_memory_db.Command.Refinement.{contents, act-IsRouted}
use in_memory_db.Command.History.{
  apply_all, contents-act, log_of, IsLogging, taken, logged, IsLogging-logged, taken-logged,
}
use in_memory_db.Command.Interleaved.{
  Shared, noted, Step, changes_data, logs, executes, Reach, here, next, begun,
}
use in_memory_db.Command.Interleaved.Commuting.{
  Apart, AllApart, apply_all-apply, apply_all-snoc, apply_all-remove, AllApart-snoc,
  AllApart-remove,
}

-- The command meets no change of its key that is still to be logged.
abbrev pub IsCalm : {t u : Shared} → Step t u → Type 0
IsCalm {t} (changes_data env c l) = Apart (key_of c) t.unlogged
IsCalm (logs before x after e) = Unit
IsCalm {t} (executes env c l) = Apart (key_of c) t.unlogged

abbrev pub AllCalm : {s t : Shared} → Reach s t → Type 0
AllCalm here = Unit
AllCalm (next r step) = AllCalm r × IsCalm step

-- The database is what the contract makes of the logged changes, and then of the others.
pub record IsReplayable (m : Contents) (t : Shared) : Type 0 where
  pub routed : IsRouted t.router
  pub data_of : contents t.router ≡ apply_all t.unlogged (apply_all t.recorded m)
  pub apart : AllApart t.unlogged

apply_all-noted :
    (b : Bool) (now : ℕ) (c : Command) (xs : List (ℕ × Command)) (m : Contents)
    → apply_all (noted b (now, c) xs) m
      ≡ (if b then apply now c (apply_all xs m) else apply_all xs m)
apply_all-noted true now c xs m = apply_all-snoc xs now c m
apply_all-noted false now c xs m = refl

AllApart-noted :
    (b : Bool) (x : ℕ × Command) (xs : List (ℕ × Command))
    → AllApart xs
    → Apart (key_of x.1) xs
    → AllApart (noted b x xs)
AllApart-noted true x xs a h = AllApart-snoc x xs a h
AllApart-noted false x xs a h = a

-- A change before others that are apart from it, if it is one.
apply_all-if_Apart :
    (b : Bool) (now : ℕ) (c : Command) (xs : List (ℕ × Command)) (m : Contents)
    → Apart (key_of c) xs
    → apply_all xs (if b then apply now c m else m)
      ≡ (if b then apply now c (apply_all xs m) else apply_all xs m)
apply_all-if_Apart true now c xs m h = apply_all-apply now c xs m h
apply_all-if_Apart false now c xs m h = refl

pub Step-IsReplayable :
    (m : Contents) {t u : Shared} (step : Step t u)
    → IsCalm step
    → IsReplayable m t
    → IsReplayable m u
Step-IsReplayable m {t} (changes_data env c l) calm v =
    let flag : Bool = (act env c t.router).1.0 in
    record {
      routed = act-IsRouted env c t.router v.routed;
      data_of =
          contents-act env c t.router v.routed
          ∙ ap (λ d. if flag then apply env.now c d else d) v.data_of
          ∙ sym (apply_all-noted flag env.now c t.unlogged (apply_all t.recorded m));
      apart = AllApart-noted flag (env.now, c) t.unlogged v.apart calm;
    }
Step-IsReplayable m {t} (logs before x after e) calm v =
    let (p, r) = AllApart-remove before x after (subst AllApart e v.apart) in
    let n : Contents = apply_all t.recorded m in
    record {
      routed = v.routed;
      data_of =
          v.data_of
          ∙ ap (λ xs. apply_all xs n) e
          ∙ apply_all-remove before x.0 x.1 after n p
          ∙ ap (apply_all (before ++ after)) (sym (apply_all-snoc t.recorded x.0 x.1 m));
      apart = r;
    }
Step-IsReplayable m {t} (executes env c l) calm v =
    let flag : Bool = (act env c t.router).1.0 in
    record {
      routed = act-IsRouted env c t.router v.routed;
      data_of =
          contents-act env c t.router v.routed
          ∙ ap (λ d. if flag then apply env.now c d else d) v.data_of
          ∙ sym (apply_all-if_Apart flag env.now c t.unlogged (apply_all t.recorded m) calm)
          ∙ ap (apply_all t.unlogged) (sym (apply_all-noted flag env.now c t.recorded m));
      apart = v.apart;
    }

Reach-IsReplayable :
    (router : ShardRouter) (aof : Option AofLogger) {t : Shared} (r : Reach (begun router aof) t)
    → AllCalm r
    → IsRouted router
    → IsReplayable (contents router) t
Reach-IsReplayable router aof here calm w =
    unfold begun in record { routed = w; data_of = unfold apply_all in refl; apart = tt }
Reach-IsReplayable router aof (next r step) calm w =
    Step-IsReplayable (contents router) step calm.1 (Reach-IsReplayable router aof r calm.0 w)

apply_all_none : (m : Contents) → apply_all [] m ≡ m
unfolding apply_all
apply_all_none m = refl

-- The log holds the recorded changes.
record IsRecorded (before : Bytes) (t : Shared) : Type 0 where
  logging : IsLogging t.aof
  taken_of : taken t.aof ≡ before ++ lines (log_of t.recorded)

lines-snoc :
    (xs : List (ℕ × Command)) (x : ℕ × Command)
    → lines (log_of (xs ++ x ∷ [])) ≡ lines (log_of xs) ++ lines (log_of (x ∷ []))
unfolding lines
lines-snoc [] x = refl
lines-snoc (y ∷ ys) x = simp (lines-snoc ys x, append_assoc)

-- What a command that is logged adds.
taken-noted :
    (b : Bool) (now : ℕ) (c : Command) (aof : Option AofLogger) (before : Bytes)
    (xs : List (ℕ × Command))
    → IsLogging aof
    → taken aof ≡ before ++ lines (log_of xs)
    → taken (logged b c aof) ≡ before ++ lines (log_of (noted b (now, c) xs))
unfolding lines
taken-noted true now c aof before xs l e =
    sym (append-nil (taken (logged true c aof)))
    ∙ taken-logged true now c aof [] l
    ∙ ap (λ s. s ++ lines (log_of ((now, c) ∷ []))) e
    ∙ append_assoc before (lines (log_of xs)) (lines (log_of ((now, c) ∷ [])))
    ∙ ap (◌++◌ before) (sym (lines-snoc xs (now, c)))
taken-noted false now c aof before xs l e = e

Step-IsRecorded :
    (before : Bytes) {t u : Shared} → Step t u → IsRecorded before t → IsRecorded before u
Step-IsRecorded before (changes_data env c l) v = record {
  logging = v.logging;
  taken_of = v.taken_of;
}
Step-IsRecorded before {t} (logs first x after e) v = record {
  logging = IsLogging-logged true x.1 t.aof v.logging;
  taken_of = taken-noted true x.0 x.1 t.aof before t.recorded v.logging v.taken_of;
}
Step-IsRecorded before {t} (executes env c l) v =
    let flag : Bool = (act env c t.router).1.0 in
    record {
      logging = IsLogging-logged flag c t.aof v.logging;
      taken_of = taken-noted flag env.now c t.aof before t.recorded v.logging v.taken_of;
    }

Reach-IsRecorded :
    (router : ShardRouter) (aof : Option AofLogger) {t : Shared}
    → Reach (begun router aof) t
    → IsLogging aof
    → IsRecorded (taken aof) t
Reach-IsRecorded router aof here l =
    unfold begun in record { logging = l; taken_of = unfold lines in sym (append-nil (taken aof)) }
Reach-IsRecorded router aof (next r step) l =
    Step-IsRecorded (taken aof) step (Reach-IsRecorded router aof r l)

-- In each run of the workers in which no command meets a change of its key that is still to be
-- logged, from a router that is laid out as its constructor does it and a logger that runs and is
-- not replaying: when all changes are logged, the logger has taken, behind what it had, exactly the
-- records of some changes, and these changes in this order make of the database of the start the
-- one of now, although it came about in another order.
pub calm_log :
    (router : ShardRouter) (aof : Option AofLogger) {t : Shared} (r : Reach (begun router aof) t)
    → AllCalm r
    → IsRouted router
    → IsLogging aof
    → t.unlogged ≡ []
    → (taken t.aof ≡ taken aof ++ lines (log_of t.recorded))
      × (contents t.router ≡ apply_all t.recorded (contents router))
calm_log router aof {t} r calm w l e =
    let v = Reach-IsReplayable router aof r calm w in
    let b = Reach-IsRecorded router aof r l in
    (
      b.taken_of,
      v.data_of
          ∙ ap (λ xs. apply_all xs (apply_all t.recorded (contents router))) e
          ∙ apply_all_none (apply_all t.recorded (contents router)),
    )
