-- ===== src/Tests/Expiring.antt =====
-- The sweeper at concrete inputs: a key with a ttl of a second, which a client sets again and again, and
-- a stop in the sleep.
use in_memory_db.Base.{ℕ, ◌≤◌, ◌⊎◌, ◌≡◌, ◌%◌, ◌++◌, ◌∷◌, refl, false, none, some, [], arith}
use in_memory_db.Aof.{lines, new_logger, start}
use in_memory_db.Command.History.{IsLogging, taken, log_of}
use in_memory_db.TimingWheel.Logged.{evictions, taken-advance_tick}
use in_memory_db.Base.Int.{pos}
use in_memory_db.Text.{codes}
use in_memory_db.Shard
use in_memory_db.Router.{set}
use in_memory_db.Router.Index.{IsRouted}
use in_memory_db.Router.Contract.{on_shard-IsRouted}
use in_memory_db.Command.Execute.{Store}
use in_memory_db.TimingWheel.Sweeper
use in_memory_db.TimingWheel.Sweeper.{
  Sweeping, asleep, finished, joining, Run, here, sweeps, meanwhile, Sweeps, falls_asleep, breaks,
  stops, stop_ends,
}
use in_memory_db.TimingWheel.{advance_tick, TimingWheel, wheel_size}
use in_memory_db.Tests.{at_second, four_shards, four_shards-IsRouted}

abbrev wheel : TimingWheel
wheel = record { buckets = λ i. []; start_time = 0; current_tick = 86_399 }

abbrev store : Store
store = record { router = four_shards; aof = none }

abbrev set_again : ℕ → Store → Store
set_again i x = record x { router = (set (at_second 5) (codes "k") (codes "v") (pos 1) x.router).0 }

set_again-IsRouted : (i : ℕ) (x : Store) → IsRouted x.router → IsRouted (set_again i x).router
unfolding set
set_again-IsRouted i x w =
    on_shard-IsRouted (codes "k") false (Shard.set (at_second 5) (codes "k") (codes "v") (pos 1))
      x.router w

-- The sweeper goes to sleep, and then stop() is called.
abbrev started : Sweeping
started = Sweeper.start 0 wheel store

abbrev sleeping : Sweeping
sleeping = record started { sweeper = asleep }

abbrev stopping : Sweeping
stopping = record sleeping { running = false; caller = joining }

stopping-Run : Run started 1 stopping
unfolding Sweeper.start Sweeper.stop
stopping-Run = meanwhile (sweeps here (falls_asleep refl refl)) (stops refl)

stop_ends_example :
    (1 ≤ 2)
    × ((finished ≡ finished)
        ⊎ ((stopping.caller ≡ joining)
            × ((v : Sweeping) × Sweeps (record stopping { sweeper = finished }) v)))
stop_ends_example =
    stop_ends (λ i. at_second 7) 0 wheel store stopping-Run (ground arith)
      (sweeps here (breaks refl refl))

-- A logger, and a key that a client has set.
abbrev recorder : Store
recorder = set_again 0 (record { router = four_shards; aof = some (start (new_logger [])) })

abbrev full : TimingWheel
full = record { buckets = λ i. codes "k" ∷ codes "j" ∷ []; start_time = 0; current_tick = 7 }

recorder-IsLogging : IsLogging recorder.aof
unfolding start new_logger
recorder-IsLogging = (refl, refl)

taken-advance_tick_example :
    taken (advance_tick (λ i. at_second 7) (full, recorder)).1.aof
    ≡ taken recorder.aof
      ++ lines
          (log_of (evictions (λ i. at_second 7) 0 (full.buckets (7 % wheel_size)) recorder.router))
taken-advance_tick_example =
    taken-advance_tick (λ i. at_second 7) full recorder
      (set_again-IsRouted 0 (record { router = four_shards; aof = none }) four_shards-IsRouted)
      recorder-IsLogging
