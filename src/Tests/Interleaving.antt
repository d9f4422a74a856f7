-- ===== src/Tests/Interleaving.antt =====
-- Two workers at concrete inputs: on two keys, where the second one logs first, and on one key.
use in_memory_db.Base.{ℕ, ◌+◌, ◌≡◌, refl, none, some, [], ◌∷◌, arith}
use in_memory_db.Base.Int.{pos}
use in_memory_db.Text.{codes, is_space, is_empty, bytes_eq}
use in_memory_db.Aof.{AofLogger, new_logger, start, lines, flush_buffer, active_buffer}
use in_memory_db.Aof.Written.{written}
use in_memory_db.Hasher.{murmur_hash3}
use in_memory_db.Memory.{
  new_arena, is_hard_limit_reached, perform, allocate_all, do_allocate, release_all, do_deallocate,
}
use in_memory_db.Dict.{find, insert_or_assign}
use in_memory_db.Value.{new_value, is_expired, string}
use in_memory_db.Shard
use in_memory_db.Shard.{Env, new_shard}
use in_memory_db.Router
use in_memory_db.Router.{new_router, on_shard, shard_for_key, shard_index}
use in_memory_db.Command.{Command, set}
use in_memory_db.Command.Execute.{Store, act, log_write}
use in_memory_db.Command.History.{IsLogging, taken, apply_all}
use in_memory_db.Command.Refinement.{contents}
use in_memory_db.Command.Retiming.{untimed, AllFresh, retimed}
use in_memory_db.Command.Spec.{apply, key_of}
use in_memory_db.Command.Interleaved.{
  Shared, noted, changes_data, logs, logs_late, Reach, here, next, begun,
}
use in_memory_db.Command.Interleaved.Calm.{AllCalm}
use in_memory_db.Command.Interleaved.Race.{race}
use in_memory_db.ServerBuilder.{replay}
use in_memory_db.ServerBuilder.Recovery.{Accepts, AllParsed, times_of}
use in_memory_db.ServerBuilder.Calm.{calm_recovery}
use in_memory_db.Tests.{at_second, four_shards, four_shards-IsRouted}

abbrev set_a : Command
set_a = set (codes "a") (codes "v") (pos 10)

abbrev set_b : Command
set_b = set (codes "b") (codes "w") (pos 10)

abbrev logger : AofLogger
logger = start (new_logger [])

abbrev server : Store
server = record { router = four_shards; aof = some logger }

abbrev u0 : Shared
u0 = begun four_shards (some logger)

abbrev u1 : Shared
u1 = record u0 {
  router = (act (at_second 1) set_a u0.router).0;
  unlogged = noted (act (at_second 1) set_a u0.router).1.0 (1_000_000_000, set_a) u0.unlogged;
}

abbrev u2 : Shared
u2 = record u1 {
  router = (act (at_second 2) set_b u1.router).0;
  unlogged = noted (act (at_second 2) set_b u1.router).1.0 (2_000_000_000, set_b) u1.unlogged;
}

abbrev u3 : Shared
u3 = record u2 {
  aof = log_write set_b u2.aof;
  unlogged = (1_000_000_000, set_a) ∷ [];
  recorded = (2_000_000_000, set_b) ∷ [];
}

abbrev u4 : Shared
u4 = record u3 {
  aof = log_write set_a u3.aof;
  unlogged = [];
  recorded = (2_000_000_000, set_b) ∷ (1_000_000_000, set_a) ∷ [];
}

both_changed : u2.unlogged ≡ (1_000_000_000, set_a) ∷ (2_000_000_000, set_b) ∷ []
unfolding begun act Router.set on_shard shard_for_key shard_index murmur_hash3 Shard.set
    is_hard_limit_reached Shard.new_shard new_arena Shard.store_entry perform allocate_all
    do_allocate release_all do_deallocate find insert_or_assign bytes_eq
both_changed = refl

one_changed : u1.unlogged ≡ (1_000_000_000, set_a) ∷ []
unfolding begun act Router.set on_shard shard_for_key shard_index murmur_hash3 Shard.set
    is_hard_limit_reached Shard.new_shard new_arena Shard.store_entry perform allocate_all
    do_allocate release_all do_deallocate find insert_or_assign bytes_eq
one_changed = refl

abbrev swapped : Reach u0 u4
unfolding begun logs_late
swapped =
    next {t = u3}
      (next {t = u2}
        (next {t = u1} (next {t = u0} here (changes_data (at_second 1) set_a refl))
          (changes_data (at_second 2) set_b refl))
        (logs ((1_000_000_000, set_a) ∷ []) (2_000_000_000, set_b) [] both_changed))
      (logs [] (1_000_000_000, set_a) [] refl)

-- No change of "b" is left to log when "b" is set.
swapped_calm : AllCalm swapped
unfolding begun logs_late key_of bytes_eq
swapped_calm = ((((tt, tt), rw one_changed (refl, tt)), tt), tt)

abbrev fresh : Store
fresh = record {
  router = record { shard_count = 1; shard_mask = 0; shards = new_shard 512 ∷ [] };
  aof = some (new_logger []);
}

abbrev envs : ℕ → Env
envs i = at_second (i + 100)

server-IsLogging : IsLogging server.aof
unfolding start new_logger
server-IsLogging = (refl, refl)

recorded-AllParsed : AllParsed u4.recorded
unfolding is_space is_empty
recorded-AllParsed = (
  ((refl, (refl, tt)), (refl, (refl, tt)), (omega arith, omega arith)),
  (((refl, (refl, tt)), (refl, (refl, tt)), (omega arith, omega arith)), tt),
)

accepted : Accepts envs 0 u4.recorded fresh.router
unfolding act Router.set on_shard shard_for_key shard_index murmur_hash3 Shard.set
    is_hard_limit_reached Shard.new_shard new_arena Shard.store_entry perform allocate_all
    do_allocate release_all do_deallocate find insert_or_assign bytes_eq
accepted = (refl, (refl, tt))

recorded-AllFresh : AllFresh u4.recorded (λ k. none)
unfolding apply key_of bytes_eq new_value is_expired
recorded-AllFresh = (refl, (refl, tt))

later-AllFresh : AllFresh (retimed (times_of envs) 0 u4.recorded) (λ k. none)
unfolding apply key_of bytes_eq new_value is_expired
later-AllFresh = (refl, (refl, tt))

calm_recovery_example :
    untimed (contents (replay envs (taken u4.aof) fresh).router (codes "a"))
    ≡ untimed (contents u4.router (codes "a"))
unfolding new_router written start new_logger lines flush_buffer active_buffer begun
calm_recovery_example =
    calm_recovery 1024 4 512 1 server fresh envs swapped swapped_calm (omega arith) (omega arith)
      refl refl server-IsLogging refl refl recorded-AllParsed accepted recorded-AllFresh
      later-AllFresh (codes "a")

-- Two SETs of "a".
race_example :
    (t : Shared) × Reach (begun four_shards (some logger)) t
    × (t.unlogged ≡ [])
    × (contents t.router (codes "a") ≡ some (new_value 2_000_000_000 (string (codes "w")) (pos 10)))
    × (apply_all t.recorded (contents four_shards) (codes "a")
        ≡ some (new_value 1_000_000_000 (string (codes "v")) (pos 10)))
unfolding act Router.set on_shard shard_for_key shard_index murmur_hash3 Shard.set
    is_hard_limit_reached Shard.new_shard new_arena Shard.store_entry perform allocate_all
    do_allocate release_all do_deallocate find insert_or_assign bytes_eq
race_example =
    race four_shards (some logger) (codes "a") (codes "v") (codes "w") (pos 10) (pos 10)
      (at_second 1) (at_second 2) four_shards-IsRouted refl refl
