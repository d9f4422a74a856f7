-- ===== src/TimingWheel/Sweeper.antt =====
-- The sweeper thread of app/src/daemons/timing_wheel.cpp beside the thread that calls start and stop:
-- sweeper_loop step by step, the flag that ends it, and the join.
use in_memory_db.Base.{
  ℕ, suc, ◌+◌, ◌≤◌, ◌≡◌, refl, ap, Bool, true, false, ◌⊎◌, inl, inr, arith, if◌then◌else◌,
}
use in_memory_db.Text.{Bytes}
use in_memory_db.Shard.{Env}
use in_memory_db.Command.Execute.{Store}
use in_memory_db.TimingWheel
use in_memory_db.TimingWheel.{TimingWheel, schedule, advance_tick}

-- Where the sweeper is: at the test of the loop, in its sleep, behind the second test, or at its end.
pub data SweeperThread : Type 0 where
  testing asleep ticking finished : SweeperThread

-- Where the caller is: before stop(), at its join, or behind it.
pub data Caller : Type 0 where
  serving joining returned : Caller

pub record Sweeping : Type 0 where
  pub wheel : TimingWheel
  pub store : Store
  pub running : Bool
  pub sweeper : SweeperThread
  pub caller : Caller

-- start(), at the time `now`
unfoldable pub start : ℕ → TimingWheel → Store → Sweeping
start now w s = record {
  wheel = TimingWheel.start now w;
  store = s;
  running = true;
  sweeper = testing;
  caller = serving;
}

-- stop(), up to the join
unfoldable pub stop : Sweeping → Sweeping
stop t = record t { running = false; caller = if t.running then joining else returned }

pub tick : (ℕ → Env) → Sweeping → Sweeping
tick envs t =
    let (w, s) = advance_tick envs (t.wheel, t.store) in
    record t { wheel = w; store = s; sweeper = testing }

-- A step of the sweeper.
pub data Sweeps (t : Sweeping) : Sweeping → Type 0 where
  falls_asleep : t.sweeper ≡ testing → t.running ≡ true → Sweeps t (record t { sweeper = asleep })
  leaves : t.sweeper ≡ testing → t.running ≡ false → Sweeps t (record t { sweeper = finished })
  wakes : t.sweeper ≡ asleep → t.running ≡ true → Sweeps t (record t { sweeper = ticking })
  breaks : t.sweeper ≡ asleep → t.running ≡ false → Sweeps t (record t { sweeper = finished })
  ticks : (envs : ℕ → Env) → t.sweeper ≡ ticking → Sweeps t (tick envs t)

-- A step of another thread: a command, a new entry of the wheel, or the caller.
pub data Others (t : Sweeping) : Sweeping → Type 0 where
  works : (f : Store → Store) → Others t (record t { store = f t.store })
  schedules :
      (key : Bytes) (expiry : ℕ) → Others t (record t { wheel = schedule key expiry t.wheel })
  stops : t.caller ≡ serving → Others t (stop t)
  joins : t.caller ≡ joining → t.sweeper ≡ finished → Others t (record t { caller = returned })

-- A run with so many steps of the sweeper.
pub data Run (t : Sweeping) : ℕ → Sweeping → Type 0 where
  here : Run t 0 t
  sweeps : {n : ℕ} {u v : Sweeping} → Run t n u → Sweeps u v → Run t (suc n) v
  meanwhile : {n : ℕ} {u v : Sweeping} → Run t n u → Others u v → Run t n v

-- The steps that are left behind the reset of the flag.
left : SweeperThread → ℕ
left testing = 1
left asleep = 1
left ticking = 2
left finished = 0

left-Sweeps :
    {t u : Sweeping}
    → Sweeps t u
    → t.running ≡ false
    → (u.running ≡ false) × (suc (left u.sweeper) ≤ left t.sweeper)
unfolding tick left
left-Sweeps (falls_asleep p r) h = ground arith
left-Sweeps {t} (leaves p r) h = let e : left t.sweeper ≡ 1 = ap left p in (h, omega (arith, e))
left-Sweeps (wakes p r) h = ground arith
left-Sweeps {t} (breaks p r) h = let e : left t.sweeper ≡ 1 = ap left p in (h, omega (arith, e))
left-Sweeps {t} (ticks envs p) h = let e : left t.sweeper ≡ 2 = ap left p in (h, omega (arith, e))

left-Others :
    {t u : Sweeping}
    → Others t u
    → t.running ≡ false
    → (u.running ≡ false) × (left u.sweeper ≡ left t.sweeper)
unfolding stop
left-Others (works f) h = (h, refl)
left-Others (schedules k e) h = (h, refl)
left-Others (stops c) h = (refl, refl)
left-Others (joins c f) h = (h, refl)

left-Run :
    {t u : Sweeping} {n : ℕ}
    → Run t n u
    → t.running ≡ false
    → (u.running ≡ false) × (n + left u.sweeper ≤ left t.sweeper)
left-Run here h = (h, omega arith)
left-Run (sweeps r step) h =
    let (f, a) = left-Run r h in let (g, b) = left-Sweeps step f in (g, omega (arith, a, b))
left-Run (meanwhile r step) h =
    let (f, a) = left-Run r h in let (g, b) = left-Others step f in (g, omega (arith, a, b))

-- What holds from start() on: the flag is set up to stop(), and stop() returns behind the sweeper.
IsHeld : Sweeping → Type 0
IsHeld t =
    ((t.caller ≡ serving) × (t.running ≡ true))
    ⊎ ((t.caller ≡ joining) × (t.running ≡ false))
    ⊎ ((t.caller ≡ returned) × (t.running ≡ false) × (t.sweeper ≡ finished))

IsHeld-Sweeps : {t u : Sweeping} → Sweeps t u → IsHeld t → IsHeld u
unfolding IsHeld tick
IsHeld-Sweeps (falls_asleep p r) h = ground arith
IsHeld-Sweeps (leaves p r) h = ground arith
IsHeld-Sweeps (wakes p r) h = ground arith
IsHeld-Sweeps (breaks p r) h = ground arith
IsHeld-Sweeps (ticks envs p) h = ground arith

IsHeld-Others : {t u : Sweeping} → Others t u → IsHeld t → IsHeld u
unfolding IsHeld stop
IsHeld-Others (works f) h = h
IsHeld-Others (schedules k e) h = h
IsHeld-Others (stops c) h = ground arith
IsHeld-Others (joins c f) h = ground arith

IsHeld-Run : {t u : Sweeping} {n : ℕ} → Run t n u → IsHeld t → IsHeld u
IsHeld-Run here h = h
IsHeld-Run (sweeps r step) h = IsHeld-Sweeps step (IsHeld-Run r h)
IsHeld-Run (meanwhile r step) h = IsHeld-Others step (IsHeld-Run r h)

left-bound : (p : SweeperThread) → left p ≤ 2
unfolding left
left-bound testing = omega arith
left-bound asleep = omega arith
left-bound ticking = omega arith
left-bound finished = omega arith

SweeperThread-cases :
    (p : SweeperThread) → (p ≡ finished) ⊎ ((p ≡ testing) ⊎ ((p ≡ asleep) ⊎ (p ≡ ticking)))
SweeperThread-cases testing = inr (inl refl)
SweeperThread-cases asleep = inr (inr (inl refl))
SweeperThread-cases ticking = inr (inr (inr refl))
SweeperThread-cases finished = inl refl

moves :
    (envs : ℕ → Env) (t : Sweeping)
    → t.running ≡ false
    → (t.sweeper ≡ finished) ⊎ ((v : Sweeping) × Sweeps t v)
moves envs t h = elim (SweeperThread-cases t.sweeper) [
  | inl p ↦ inl p
  | inr (inl p) ↦ inr (record t { sweeper = finished }, leaves p h)
  | inr (inr (inl p)) ↦ inr (record t { sweeper = finished }, breaks p h)
  | inr (inr (inr p)) ↦ inr (tick envs t, ticks envs p)
]

-- From start() on, and whatever the other threads do in between: once stop() has been called the
-- sweeper makes at most two more steps, and unless it is at its end, stop() is still at the join and
-- the sweeper can make a step. So the join ends, and behind stop() the sweeper does nothing.
pub stop_ends :
    (envs : ℕ → Env) (now : ℕ) (w : TimingWheel) (s : Store) {t u : Sweeping} {m n : ℕ}
    → Run (start now w s) m t
    → ¬ (t.caller ≡ serving)
    → Run t n u
    → (n ≤ 2) × ((u.sweeper ≡ finished) ⊎ ((u.caller ≡ joining) × ((v : Sweeping) × Sweeps u v)))
unfolding IsHeld start
stop_ends envs now w s {t} {u} r c later =
    let held = IsHeld-Run r (inl (refl, refl)) in
    let after = IsHeld-Run later held in
    let reset : t.running ≡ false = ground arith in
    let (f, a) = left-Run later reset in
    let b = left-bound t.sweeper in
    (
      omega (arith, a, b),
      elim after [
        | inl (d, g) ↦ ground (arith, f, g)
        | inr (inl (d, g)) ↦ elim (moves envs u f) [ inl p ↦ inl p | inr q ↦ inr (d, q) ]
        | inr (inr (d, g, p)) ↦ inl p
      ],
    )
