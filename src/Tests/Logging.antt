-- ===== src/Tests/Logging.antt =====
-- The log, its threads and a restart at concrete inputs.
use in_memory_db.Base.{ℕ, none, ◌+◌, ◌≡◌, true, none, some, List, [], ◌∷◌, ◌++◌, refl, arith, All}
use in_memory_db.Base.Int.{pos}
use in_memory_db.Text.{codes, is_space, is_empty, bytes_eq}
use in_memory_db.Aof.{
  AofLogger, new_logger, start, log, swap, write_flush_buffer, stop, flush, lines, flush_buffer,
  active_buffer,
}
use in_memory_db.Aof.Written.{written}
use in_memory_db.Aof.Threads.{
  Threads, testing, woken, swapped, finished, logs, waits, leaves, swaps, writes, stops, closes,
  Reach, here, next, started, accept, closed_file,
}
use in_memory_db.Router.{ShardRouter, new_router}
use in_memory_db.Shard.{Env, new_shard}
use in_memory_db.Command.{Command, set, del, lpush, default_ttl}
use in_memory_db.Shard
use in_memory_db.Router
use in_memory_db.Router.{on_shard, shard_for_key, shard_index}
use in_memory_db.Hasher.{murmur_hash3}
use in_memory_db.Memory.{
  is_hard_limit_reached, new_arena, perform, allocate_all, do_allocate, release_all, do_deallocate,
}
use in_memory_db.Dict.{find, insert_or_assign}
use in_memory_db.Command.Execute.Lists.{lpush_shard, lpush_entry, find_live}
use in_memory_db.Command.Execute.{Store, act}
use in_memory_db.Command.Refinement.{contents}
use in_memory_db.Command.RoundTrip.{IsParsed}
use in_memory_db.Command.History.{run, changes, apply_all, taken, contents-run, IsLogging}
use in_memory_db.ServerBuilder.{replay}
use in_memory_db.ServerBuilder.Recovery.{recovery, Accepts, times_of}
use in_memory_db.Command.Retiming.{untimed, AllFresh, retimed}
use in_memory_db.Command.Spec.{apply, key_of}
use in_memory_db.Tests.{at_second, four_shards, four_shards-IsRouted}

-- A worker logs before the swap and between the swap and the write; then `shutdown`.
abbrev t0 : Threads
t0 = started (codes "PING\n")

abbrev t1 : Threads
t1 = record t0 { logger = log (codes "DEL a") t0.logger; accepted = accept (codes "DEL a") t0 }

abbrev t2 : Threads
t2 = record t1 { flusher = woken }

abbrev t3 : Threads
t3 = record t2 { logger = swap t2.logger; flusher = swapped }

abbrev t4 : Threads
t4 = record t3 { logger = log (codes "DEL b") t3.logger; accepted = accept (codes "DEL b") t3 }

abbrev t5 : Threads
t5 = record t4 { logger = write_flush_buffer t4.logger; flusher = testing }

abbrev t6 : Threads
t6 = record t5 { logger = stop t5.logger }

abbrev t7 : Threads
t7 = record t6 { flusher = finished }

abbrev t8 : Threads
t8 = record t7 { logger = flush t7.logger; closed = true }

shut_down : Reach t0 t8
unfolding start new_logger log swap write_flush_buffer stop started
shut_down =
    next {t = t7}
      (next {t = t6}
        (next {t = t5}
          (next {t = t4}
            (next {t = t3}
              (next {t = t2}
                (next {t = t1} (next {t = t0} here (logs (codes "DEL a"))) (waits refl refl))
                (swaps refl))
              (logs (codes "DEL b")))
            (writes refl))
          (stops refl))
        (leaves refl refl))
      (closes refl refl refl)

closed_file_example : t8.logger.file ≡ codes "PING\n" ++ lines t8.accepted
closed_file_example = closed_file (codes "PING\n") shut_down refl

abbrev logger : AofLogger
logger = start (new_logger [])

abbrev server : Store
server = record { router = four_shards; aof = some logger }

abbrev history : List (Env × Command)
history =
    (at_second 1, set (codes "a") (codes "v") (pos 10))
    ∷ (at_second 2, del (codes "b"))
    ∷ (at_second 3, lpush (codes "l") (codes "x") default_ttl)
    ∷ []

server-IsLogging : IsLogging server.aof
unfolding start new_logger
server-IsLogging = (refl, refl)

contents-run_example :
    contents (run history server).router
    ≡ apply_all (changes history four_shards) (contents four_shards)
contents-run_example = contents-run history server four_shards-IsRouted

-- A restart with one shard.
abbrev fresh : Store
fresh = record {
  router = record { shard_count = 1; shard_mask = 0; shards = new_shard 512 ∷ [] };
  aof = some (new_logger []);
}

abbrev envs : ℕ → Env
envs i = at_second (i + 100)

-- The DEL finds nothing, and is no change.
abbrev changed : List (ℕ × Command)
changed =
    (1_000_000_000, set (codes "a") (codes "v") (pos 10))
    ∷ (3_000_000_000, lpush (codes "l") (codes "x") default_ttl)
    ∷ []

changes-history : changes history four_shards ≡ changed
unfolding changes act Router.set Router.del on_shard shard_for_key shard_index murmur_hash3
    Shard.set Shard.del is_hard_limit_reached Shard.new_shard new_arena Shard.store_entry perform
    allocate_all do_allocate release_all do_deallocate find lpush_shard lpush_entry find_live
    insert_or_assign
changes-history = refl

accepted_changed : Accepts envs 0 changed fresh.router
unfolding act Router.set Router.del on_shard shard_for_key shard_index murmur_hash3 Shard.set
    Shard.del is_hard_limit_reached Shard.new_shard new_arena Shard.store_entry perform allocate_all
    do_allocate release_all do_deallocate find lpush_shard lpush_entry find_live insert_or_assign
    bytes_eq
accepted_changed = (refl, (refl, tt))

accepted : Accepts envs 0 (changes history four_shards) fresh.router
accepted = rw (changes-history) accepted_changed

history-AllParsed : All (λ ec. IsParsed ec.1) history
unfolding is_space is_empty
history-AllParsed = (
  ((refl, (refl, tt)), (refl, (refl, tt)), (omega arith, omega arith)),
  ((refl, (refl, tt)), (((refl, (refl, tt)), (refl, (refl, tt)), refl), tt)),
)

changed-AllFresh : AllFresh changed (λ k. none)
unfolding apply key_of bytes_eq
changed-AllFresh = (refl, (refl, tt))

later-AllFresh : AllFresh (retimed (times_of envs) 0 changed) (λ k. none)
unfolding apply key_of bytes_eq
later-AllFresh = (refl, (refl, tt))

recovery_example :
    untimed (contents (replay envs (taken (run history server).aof) fresh).router (codes "l"))
    ≡ untimed (contents (run history server).router (codes "l"))
unfolding new_router written start new_logger lines flush_buffer active_buffer
recovery_example =
    recovery 1024 4 512 1 server fresh history envs (omega arith) (omega arith) refl refl
      server-IsLogging refl history-AllParsed accepted (rw changes-history changed-AllFresh)
      (rw changes-history later-AllFresh) (codes "l")
