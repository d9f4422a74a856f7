-- ===== src/Tests/Ending.antt =====
-- The end of the server at a concrete input: a SET that is in the queue when the reactor stops.
use mathlib.Core.List.{Perm}
use in_memory_db.Base.{ℕ, ◌≡◌, refl, true, [], ◌∷◌, ◌++◌}
use in_memory_db.Base.Int.{pos}
use in_memory_db.Text.{codes}
use in_memory_db.Aof.{lines, log, start, new_logger, stop, flush}
use in_memory_db.Hasher.{murmur_hash3}
use in_memory_db.Memory.{
  new_arena, is_hard_limit_reached, perform, allocate_all, do_allocate, release_all, do_deallocate,
}
use in_memory_db.Shard
use in_memory_db.Aof.Threads.{started, finished}
use in_memory_db.Command.{Command, set}
use in_memory_db.Command.Interleaved.{logs_late}
use in_memory_db.Command.Execute.{act, log_write}
use in_memory_db.Command.History.{changes, log_of}
use in_memory_db.Router
use in_memory_db.Router.{on_shard, shard_for_key, shard_index}
use in_memory_db.WorkerPool.{Task, new_pool, submit, take_task, shutdown}
use in_memory_db.ServerBuilder.Shutdown.{
  reactor_stopped, pool_joined, Process, write_record, change_data, log_change, submits, takes,
  changes_data, logs, leaves, stops_reactor, stops_pool, joins_pool, stops_logger, closes_file,
  Reach, here, next, booted,
}
use in_memory_db.ServerBuilder.Shutdown.Held.{after}
use in_memory_db.ServerBuilder.Shutdown.Durable.{durable}
use in_memory_db.Tests.{at_second, four_shards}

abbrev task : Task
task = record { command = set (codes "a") (codes "v") (pos 10); client_fd = 7; sequence_id = 0 }

abbrev p0 : Process
p0 = booted (codes "PING\n") four_shards

abbrev p1 : Process
p1 = record p0 { pool = (submit task p0.pool).0 }

abbrev p2 : Process
p2 = record p1 { phase = reactor_stopped }

abbrev p3 : Process
p3 = record p2 { pool = new_pool 10000; busy = task ∷ [] }

abbrev changed : Process
changed = change_data (at_second 1) task.command [] p3

abbrev change : ℕ × Command
change = (1_000_000_000, task.command)

abbrev p4 : Process
p4 = log_change change [] changed

abbrev p5 : Process
p5 = record p4 { pool = shutdown p4.pool }

abbrev p6 : Process
p6 = record p5 { phase = pool_joined }

abbrev p7 : Process
p7 = record p6 { threads = record p6.threads { logger = stop p6.threads.logger } }

abbrev p8 : Process
p8 = record p7 { threads = record p7.threads { flusher = finished } }

abbrev p9 : Process
p9 = record p8 { threads = record p8.threads { logger = flush p8.threads.logger; closed = true } }

unlogged : changed.unlogged ≡ change ∷ []
unfolding booted change_data act Router.set on_shard shard_for_key shard_index murmur_hash3
    Shard.set is_hard_limit_reached Shard.new_shard new_arena Shard.store_entry perform allocate_all
    do_allocate release_all do_deallocate
unlogged = refl

running : p6.threads.logger.running ≡ true
unfolding booted started start new_logger change_data log_change write_record log_write log
running = refl

ended : Reach p0 p9
unfolding booted started start new_logger submit take_task new_pool change_data log_change
    write_record log_write log logs_late shutdown stop
ended =
    next
      (next {t = p7}
        (next {t = p6}
          (next {t = p5}
            (next {t = p4}
              (next {t = changed}
                (next {t = p3}
                  (next {t = p2}
                    (next {t = p1} (next here (submits task refl)) (stops_reactor refl))
                    (takes task (new_pool 10000) refl))
                  (changes_data (at_second 1) [] task [] refl refl))
                (logs [] change [] unlogged))
              (stops_pool refl))
            (joins_pool refl refl refl refl refl))
          (stops_logger refl running))
        (leaves refl refl))
      (closes_file refl refl refl)

durable_example :
    (p9.threads.logger.file ≡ codes "PING\n" ++ lines (log_of p9.recorded))
    × Perm (changes p9.executed four_shards) p9.recorded
    × (p9.router ≡ after p9.executed four_shards)
    × (p9.pool.queue ≡ [])
    × (p9.busy ≡ [])
    × (p9.unlogged ≡ [])
durable_example = durable (codes "PING\n") four_shards ended refl
