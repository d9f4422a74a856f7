-- ===== src/Tests/Tearing.antt =====
-- A disk with room for three bytes, and a record of a SET that is cut off.
use in_memory_db.Base.{ℕ, ◌≡◌, refl, true, none, List, [], ◌∷◌, ◌++◌, arith}
use in_memory_db.Base.Int.{pos}
use in_memory_db.Text.{Bytes, codes, is_space, is_empty}
use in_memory_db.Aof.{new_logger, start, log, swap, write_flush_buffer}
use in_memory_db.Aof.Threads.{Threads, testing, woken, swapped, started, accept}
use in_memory_db.Aof.Torn.{Disk, write}
use in_memory_db.Command.{Command, set, del, serialize, default_ttl}
use in_memory_db.Command.Execute.{Store, execute}
use in_memory_db.Command.History.{log_of}
use in_memory_db.Command.RoundTrip.{IsParsed}
use in_memory_db.ServerBuilder.{replay_line}
use in_memory_db.ServerBuilder.Torn.{torn_set}
use in_memory_db.Tests.{at_second, four_shards}

abbrev t0 : Threads
t0 = started []

abbrev t1 : Threads
t1 = record t0 { logger = log (codes "DEL a") t0.logger; accepted = accept (codes "DEL a") t0 }

abbrev t2 : Threads
t2 = record t1 { flusher = woken }

abbrev t3 : Threads
t3 = record t2 { logger = swap t2.logger; flusher = swapped }

abbrev t4 : Threads
t4 = record t3 { logger = write_flush_buffer t3.logger; flusher = testing }

abbrev empty : Disk
empty = record { bytes = []; good = true }

abbrev full : Disk
full = write 3 (codes "DEL a\n") (write 9 [] (write 9 [] (write 9 [] empty)))

abbrev changes : List (ℕ × Command)
changes = (1_000_000_000, del (codes "a")) ∷ []

accepted : t4.accepted ≡ log_of changes
unfolding started start new_logger serialize
accepted = refl

abbrev store : Store
store = record { router = four_shards; aof = none }

record-IsParsed : IsParsed (set (codes "k") (codes "v") (pos 10))
unfolding is_space is_empty
record-IsParsed = ((refl, (refl, tt)), (refl, (refl, tt)), (omega arith, omega arith))

torn_set_example :
    (cut : Bytes) × (rest : Bytes) × (serialize (set (codes "k") (codes "v") (pos 10))
      ≡ cut ++ rest)
    × (replay_line (at_second 1) cut store
        ≡ (execute (at_second 1) (set (codes "k") (codes "v") default_ttl) store).0)
torn_set_example = torn_set (at_second 1) (codes "k") (codes "v") (pos 10) store record-IsParsed
