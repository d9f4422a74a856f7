-- ===== src/Tests/Crashing.antt =====
-- A crash at concrete inputs: of three changes one is in the file, one in a buffer, and one is still to
-- be logged.
use in_memory_db.Base.{ℕ, ◌+◌, ◌≡◌, refl, true, none, some, List, [], ◌∷◌, take, drop, arith}
use in_memory_db.Base.Int.{pos}
use in_memory_db.Text.{Bytes, codes, is_space, is_empty, bytes_eq}
use in_memory_db.Aof.{new_logger, start, log, swap, write_flush_buffer}
use in_memory_db.Aof.Threads.{started, testing, woken, swapped}
use in_memory_db.Aof.Crash.{unwritten}
use in_memory_db.Hasher.{murmur_hash3}
use in_memory_db.Memory.{
  new_arena, is_hard_limit_reached, perform, allocate_all, do_allocate, release_all, do_deallocate,
}
use in_memory_db.Dict.{find, insert_or_assign}
use in_memory_db.Shard
use in_memory_db.Shard.{Env, new_shard}
use in_memory_db.Router
use in_memory_db.Router.{new_router, on_shard, shard_for_key, shard_index}
use in_memory_db.Command.{Command, set}
use in_memory_db.Command.Execute.{Store, act, log_write}
use in_memory_db.Command.Interleaved.{logs_late}
use in_memory_db.Command.History.{apply_all, log_of}
use in_memory_db.Command.Refinement.{contents}
use in_memory_db.Command.Retiming.{untimed, AllFresh, retimed}
use in_memory_db.Command.Spec.{apply, key_of}
use in_memory_db.Value.{new_value, is_expired}
use in_memory_db.WorkerPool.{Task, new_pool, submit, take_task}
use in_memory_db.ServerBuilder.{replay}
use in_memory_db.ServerBuilder.Recovery.{Accepts, AllParsed, times_of}
use in_memory_db.ServerBuilder.Shutdown.{
  Process, write_record, change_data, log_change, submits, takes, changes_data, logs, waits, swaps,
  writes, Reach, here, next, booted,
}
use in_memory_db.ServerBuilder.Crash.{AllCalm, crash_recovery}
use in_memory_db.Tests.{at_second, four_shards}

abbrev first : Task
first = record { command = set (codes "a") (codes "v") (pos 10); client_fd = 7; sequence_id = 0 }

abbrev second : Task
second = record { command = set (codes "a") (codes "w") (pos 10); client_fd = 8; sequence_id = 0 }

abbrev third : Task
third = record { command = set (codes "b") (codes "v") (pos 10); client_fd = 9; sequence_id = 0 }

-- A task comes, is taken, and changes the data.
abbrev given : Task → Process → Process
given k p = record p { pool = (submit k p.pool).0 }

abbrev taken_by : Task → Process → Process
taken_by k p = record p { pool = new_pool 10000; busy = k ∷ [] }

abbrev changed_by : ℕ → Task → Process → Process
changed_by n k p = change_data (at_second n) k.command [] (taken_by k (given k p))

abbrev change_1 : ℕ × Command
change_1 = (1_000_000_000, first.command)

abbrev change_2 : ℕ × Command
change_2 = (2_000_000_000, second.command)

abbrev p0 : Process
p0 = booted [] four_shards

abbrev p1 : Process
p1 = log_change change_1 [] (changed_by 1 first p0)

abbrev p2 : Process
p2 = record p1 { threads = record p1.threads { flusher = woken } }

abbrev p3 : Process
p3 = record p2 {
  threads = record p2.threads { logger = swap p2.threads.logger; flusher = swapped };
}

abbrev p4 : Process
p4 = record p3 {
  threads = record p3.threads { logger = write_flush_buffer p3.threads.logger; flusher = testing };
}

abbrev p5 : Process
p5 = log_change change_2 [] (changed_by 2 second p4)

-- The third SET is not logged when the crash comes.
abbrev p6 : Process
p6 = changed_by 3 third p5

running : p1.threads.logger.running ≡ true
unfolding booted started start new_logger change_data log_change write_record log_write log
running = refl

unlogged_1 : (changed_by 1 first p0).unlogged ≡ change_1 ∷ []
unfolding booted change_data act Router.set on_shard shard_for_key shard_index murmur_hash3
    Shard.set is_hard_limit_reached Shard.new_shard new_arena Shard.store_entry perform allocate_all
    do_allocate release_all do_deallocate
unlogged_1 = refl

unlogged_2 : (changed_by 2 second p4).unlogged ≡ change_2 ∷ []
unfolding booted change_data log_change act Router.set on_shard shard_for_key shard_index
    murmur_hash3 Shard.set is_hard_limit_reached Shard.new_shard new_arena Shard.store_entry perform
    allocate_all do_allocate release_all do_deallocate find insert_or_assign
unlogged_2 = refl

abbrev crashed : Reach p0 p6
unfolding booted started start new_logger submit take_task new_pool change_data log_change logs_late
    write_record
crashed =
    next {t = taken_by third (given third p5)}
      (next {t = given third p5}
        (next {t = p5}
          (next {t = changed_by 2 second p4}
            (next {t = taken_by second (given second p4)}
              (next {t = given second p4}
                (next {t = p4}
                  (next {t = p3}
                    (next {t = p2}
                      (next {t = p1}
                        (next {t = changed_by 1 first p0}
                          (next {t = taken_by first (given first p0)}
                            (next {t = given first p0} (next {t = p0} here (submits first refl))
                              (takes first (new_pool 10000) refl))
                            (changes_data (at_second 1) [] first [] refl refl))
                          (logs [] change_1 [] unlogged_1))
                        (waits refl running))
                      (swaps refl))
                    (writes refl))
                  (submits second refl))
                (takes second (new_pool 10000) refl))
              (changes_data (at_second 2) [] second [] refl refl))
            (logs [] change_2 [] unlogged_2))
          (submits third refl))
        (takes third (new_pool 10000) refl))
      (changes_data (at_second 3) [] third [] refl refl)

crashed-AllCalm : AllCalm crashed
unfolding booted started start new_logger submit take_task new_pool change_data log_change logs_late
    write_record
crashed-AllCalm =
    ((((((((((((((tt, tt), tt), tt), tt), tt), tt), tt), tt), tt), tt), tt), tt), tt), tt)

-- A restart with one shard.
abbrev fresh : Store
fresh = record {
  router = record { shard_count = 1; shard_mask = 0; shards = new_shard 512 ∷ [] };
  aof = some (new_logger []);
}

abbrev envs : ℕ → Env
envs i = at_second (i + 100)

abbrev changed : List (ℕ × Command)
changed = change_1 ∷ change_2 ∷ []

recorded_changed : p6.recorded ≡ changed
unfolding booted change_data log_change
recorded_changed = refl

accepted_changed : Accepts envs 0 changed fresh.router
unfolding act Router.set on_shard shard_for_key shard_index murmur_hash3 Shard.set
    is_hard_limit_reached Shard.new_shard new_arena Shard.store_entry perform allocate_all
    do_allocate release_all do_deallocate find insert_or_assign bytes_eq
accepted_changed = (refl, (refl, tt))

changed-AllParsed : AllParsed changed
unfolding is_space is_empty
changed-AllParsed = (
  ((refl, (refl, tt)), (refl, (refl, tt)), (omega arith, omega arith)),
  (((refl, (refl, tt)), (refl, (refl, tt)), (omega arith, omega arith)), tt),
)

changed-AllFresh : AllFresh changed (λ k. none)
unfolding apply key_of bytes_eq new_value is_expired
changed-AllFresh = (refl, (refl, tt))

later-AllFresh : AllFresh (retimed (times_of envs) 0 changed) (λ k. none)
unfolding apply key_of bytes_eq new_value is_expired
later-AllFresh = (refl, (refl, tt))

crash_recovery_example :
    (m : ℕ) × ((key : Bytes)
      → untimed (contents (replay envs p6.threads.logger.file fresh).router key)
        ≡ untimed (apply_all (take m p6.recorded) (λ k. none) key))
    × (unwritten p6.threads.logger ≡ log_of (drop m p6.recorded))
    × (contents p6.router ≡ apply_all p6.unlogged (apply_all p6.recorded (λ k. none)))
unfolding new_router
crash_recovery_example =
    crash_recovery 1024 4 512 1 four_shards fresh envs crashed crashed-AllCalm (omega arith)
      (omega arith) refl refl (rw recorded_changed changed-AllParsed)
      (rw recorded_changed accepted_changed) (rw recorded_changed changed-AllFresh)
      (rw recorded_changed later-AllFresh)
