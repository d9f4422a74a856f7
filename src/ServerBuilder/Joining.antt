-- ===== src/ServerBuilder/Joining.antt =====
-- The main thread and the reactor's thread at the end of build_and_run of
-- app/src/core/server_builder.cpp: the loop on g_running, reactor.stop(), and the join. The turns of
-- the reactor's loop change nothing here, and are not steps.
use in_memory_db.Base.{◌≡◌, refl, true, false, none, some, ◌⊎◌, inl, inr, arith, ◌↔◌, Bool-cases}
use in_memory_db.Text.{Bytes}
use in_memory_db.Reactor.Listening.{
  Winsock, Endpoint, new_endpoint, start_listening, stop, start_listening_running, granted,
  start_listening_granted,
}

-- The reactor's thread: not begun, in the loop, behind it, or with an exception that leaves `start`:
-- nothing in the thread catches it, so that std::terminate ends the process.
pub data ReactorThread : Type 0 where
  created looping returned terminated : ReactorThread

-- The main thread: in the loop on g_running, at the join, or behind it.
pub data MainThread : Type 0 where
  waiting joining joined : MainThread

pub record Running : Type 0 where
  pub endpoint : Endpoint
  pub reactor : ReactorThread
  pub main : MainThread

pub data Step (t : Running) : Running → Type 0 where
  -- reactor.start();
  begins :
      (w : Winsock)
      → t.reactor ≡ created
      → (start_listening w t.endpoint).1 ≡ none
      → Step t (record t { endpoint = (start_listening w t.endpoint).0; reactor = looping })
  throws :
      (w : Winsock) (message : Bytes)
      → t.reactor ≡ created
      → (start_listening w t.endpoint).1 ≡ some message
      → Step t (record t { endpoint = (start_listening w t.endpoint).0; reactor = terminated })
  -- while (running_) { … }
  leaves :
      t.reactor ≡ looping → t.endpoint.running ≡ false → Step t (record t { reactor = returned })
  -- while (g_running) { … }  reactor.stop();
  stops :
      t.main ≡ waiting
      → ¬ (t.reactor ≡ terminated)
      → Step t (record t { endpoint = stop t.endpoint; main = joining })
  -- reactor_thread.join();
  joins : t.main ≡ joining → t.reactor ≡ returned → Step t (record t { main = joined })

pub data Reach (s : Running) : Running → Type 0 where
  here : Reach s s
  next : {t u : Running} → Reach s t → Step t u → Reach s u

-- Behind the construction of the thread.
unfoldable pub launched : Running
launched = record { endpoint = new_endpoint; reactor = created; main = waiting }

-- The main thread has reset the flag, and the reactor's thread sets it only then, or has done so.
abbrev pub IsLost : Running → Type 0
IsLost t =
    (t.main ≡ joining)
    × ((t.reactor ≡ created) ⊎ ((t.reactor ≡ looping) × (t.endpoint.running ≡ true)))

-- From there no end is reached, unless the process dies.
abbrev IsDoomed : Running → Type 0
IsDoomed t = IsLost t ⊎ ((t.main ≡ joining) × (t.reactor ≡ terminated))

Step-IsDoomed : {t u : Running} → Step t u → IsDoomed t → IsDoomed u
Step-IsDoomed {t} (begins w c e) d =
    let set = start_listening_running w t.endpoint e in ground (arith, set)
Step-IsDoomed {t} (throws w m c e) d = ground arith
Step-IsDoomed (leaves l r) d = ground arith
Step-IsDoomed (stops m a) d = ground arith
Step-IsDoomed (joins m r) d = ground arith

Reach-IsDoomed : {t u : Running} → Reach t u → IsDoomed t → IsDoomed u
Reach-IsDoomed here d = d
Reach-IsDoomed (next r step) d = Step-IsDoomed step (Reach-IsDoomed r d)

-- The main thread comes to the end of the join.
abbrev pub Ends : Running → Type 0
Ends t = (u : Running) × Reach t u × (u.main ≡ joined)

prepend : {t u v : Running} → Step t u → Reach u v → Reach t v
prepend step here = next here step
prepend step (next r last) = next (prepend step r) last

Ends-Step : {t u : Running} → Step t u → Ends u → Ends t
Ends-Step step (v, r, e) = (v, prepend step r, e)

Ends-returned : (t : Running) → t.main ≡ joining → t.reactor ≡ returned → Ends t
Ends-returned t m r = (record t { main = joined }, next here (joins m r), refl)

Ends-leaving :
    (t : Running) → t.main ≡ joining → t.reactor ≡ looping → t.endpoint.running ≡ false → Ends t
Ends-leaving t m r f =
    Ends-Step (leaves r f) (Ends-returned (record t { reactor = returned }) m refl)

Ends-looping : (t : Running) → t.main ≡ waiting → t.reactor ≡ looping → Ends t
unfolding stop
Ends-looping t m r =
    Ends-Step (stops m (ground arith))
      (Ends-leaving (record t { endpoint = stop t.endpoint; main = joining }) refl r refl)

Ends-created : (t : Running) → t.main ≡ waiting → t.reactor ≡ created → Ends t
Ends-created t m r =
    let granted_now = start_listening_granted 1 t.endpoint in
    Ends-Step (begins (granted 1) r granted_now) (
      Ends-looping
        (record t { endpoint = (start_listening (granted 1) t.endpoint).0; reactor = looping }) m
        refl)

Ends-waiting_returned : (t : Running) → t.main ≡ waiting → t.reactor ≡ returned → Ends t
Ends-waiting_returned t m r =
    Ends-Step (stops m (ground arith))
      (Ends-returned (record t { endpoint = stop t.endpoint; main = joining }) refl r)

MainThread-cases : (m : MainThread) → (m ≡ waiting) ⊎ ((m ≡ joining) ⊎ (m ≡ joined))
MainThread-cases waiting = inl refl
MainThread-cases joining = inr (inl refl)
MainThread-cases joined = inr (inr refl)

ReactorThread-cases :
    (r : ReactorThread) → ((r ≡ created) ⊎ (r ≡ looping)) ⊎ ((r ≡ returned) ⊎ (r ≡ terminated))
ReactorThread-cases created = inl (inl refl)
ReactorThread-cases looping = inl (inr refl)
ReactorThread-cases returned = inr (inl refl)
ReactorThread-cases terminated = inr (inr refl)

Ends-waiting : (t : Running) → t.main ≡ waiting → ¬ (t.reactor ≡ terminated) → Ends t
Ends-waiting t m a = elim (ReactorThread-cases t.reactor) [
  | inl (inl r) ↦ Ends-created t m r
  | inl (inr r) ↦ Ends-looping t m r
  | inr (inl r) ↦ Ends-waiting_returned t m r
  | inr (inr r) ↦ absurd (a r)
]

Ends-joining : (t : Running) → t.main ≡ joining → ¬ (t.reactor ≡ terminated) → ¬ IsLost t → Ends t
Ends-joining t m a n = elim (ReactorThread-cases t.reactor) [
  | inl (inl r) ↦ absurd (n (m, inl r))
  | inl (inr r) ↦ elim (Bool-cases t.endpoint.running) [
    | inl b ↦ absurd (n (m, inr (r, b)))
    | inr b ↦ Ends-leaving t m r b
  ]
  | inr (inl r) ↦ Ends-returned t m r
  | inr (inr r) ↦ absurd (a r)
]

-- From a state in which no exception has ended the process, the main thread can come to the end of
-- the join exactly if the stop was not lost: if it has not reset the flag while the reactor's thread
-- had still to set it.
pub Ends-iff : (t : Running) → ¬ (t.reactor ≡ terminated) → Ends t ↔ (¬ IsLost t)
Ends-iff t a = (
  λ (u, r, e). λ lost. ground (arith, Reach-IsDoomed r (inl lost)),
  λ n. elim (MainThread-cases t.main) [
    | inl m ↦ Ends-waiting t m a
    | inr (inl m) ↦ Ends-joining t m a n
    | inr (inr m) ↦ (t, here, m)
  ],
)

-- A signal that comes before the reactor's thread has set its flag is lost: such states are reached,
-- whatever Winsock answers later.
pub IsLost-stop : (t : Running) × Reach launched t × IsLost t
unfolding launched
IsLost-stop = (
  record { endpoint = stop new_endpoint; reactor = created; main = joining },
  next here (stops refl (ground arith)),
  (refl, inl refl),
)
