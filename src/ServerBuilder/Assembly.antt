-- ===== src/ServerBuilder/Assembly.antt =====
-- The settings of the builder of app/src/core/server_builder.cpp, what build_and_run assembles from
-- them before it starts the threads, and the settings of app/src/main.cpp.
pub mod Ready
use in_memory_db.Base.{ℕ, ◌*◌, ◌%◌, ◌^◌, Bool, not, Option, none, some, [], ◌++◌, if◌then◌else◌}
use in_memory_db.Text.{Bytes, codes}
use in_memory_db.Aof
use in_memory_db.Aof.{new_logger}
use in_memory_db.Shard.{Env}
use in_memory_db.Router.{ShardRouter, new_router}
use in_memory_db.Command.Execute.{Store}
use in_memory_db.WorkerPool.{new_pool}
use in_memory_db.Reactor.{Reactor, new_reactor}
use in_memory_db.TimingWheel
use in_memory_db.TimingWheel.{TimingWheel, new_wheel}
use in_memory_db.ServerBuilder.{replay}
use in_memory_db.ServerBuilder.MemoryLimit.{parse_memory_limit}

pub record ServerBuilder : Type 0 where
  pub port : ℕ
  pub worker_threads : ℕ
  pub max_memory : ℕ
  pub shard_count : ℕ
  pub aof_path : Bytes

-- ServerBuilder()
unfoldable pub new_builder : ServerBuilder
new_builder = record {
  port = 8080;
  worker_threads = 4;
  max_memory = 512 * 1024 * 1024;
  shard_count = 64;
  aof_path = codes "appendonly.aof";
}

unfoldable pub set_port : ℕ → ServerBuilder → ServerBuilder
set_port port b = record b { port = port }

unfoldable pub set_worker_threads : ℕ → ServerBuilder → ServerBuilder
set_worker_threads count b = record b { worker_threads = count }

-- `none` is the exception of parse_memory_limit.
unfoldable pub set_max_memory_limit : Bytes → ServerBuilder → Option ServerBuilder
set_max_memory_limit limit b = elim (parse_memory_limit limit) [
  | none ↦ none
  | some bytes ↦ some (record b { max_memory = bytes })
]

unfoldable pub set_shard_count : ℕ → ServerBuilder → ServerBuilder
set_shard_count count b = record b { shard_count = count }

unfoldable pub set_aof_path : Bytes → ServerBuilder → ServerBuilder
set_aof_path path b = record b { aof_path = path }

-- The settings that main makes, on a machine with so many hardware threads.
unfoldable pub main_settings : ℕ → Option ServerBuilder
main_settings hardware_concurrency =
    elim (set_max_memory_limit (codes "1GB")
      (set_worker_threads hardware_concurrency (set_port 8080 new_builder))) [
        | none ↦ none
        | some b ↦ some (set_aof_path (codes "appendonly.aof") (set_shard_count 64 b))
      ]

-- The parts that the threads work on.
pub record Assembled : Type 0 where
  pub store : Store
  pub wheel : TimingWheel
  pub reactor : Reactor

-- aof.start(), behind the opening of the file
start_logger : Store → Store
start_logger s = record s { aof = elim s.aof [ none ↦ none | some a ↦ some (Aof.start a) ] }

-- The replay, if the file can be opened; `none` is that it is not there.
replay_file : (ℕ → Env) → Option Bytes → ShardRouter → Store
replay_file envs none r = record { router = r; aof = some (new_logger []) }
replay_file envs (some file) r =
    replay envs file (record { router = r; aof = some (new_logger file) })

-- build_and_run up to the threads: the assertion on the shard count fails, std::bad_alloc, an
-- exception with its message, or the parts.
pub data Built : Type 0 where
  aborted out_of_memory : Built
  thrown : Bytes → Built
  assembled : Assembled → Built

pub assemble : (ℕ → Env) → ℕ → Option Bytes → ShardRouter → Assembled
unfolding start_logger replay_file
assemble envs now file router = record {
  store = start_logger (replay_file envs file router);
  wheel = TimingWheel.start now (new_wheel now);
  reactor = new_reactor (new_pool 10000);
}

-- `arenas` is whether there is memory for the arenas of the shards, which their constructor takes;
-- `opens` is whether the file can be opened for the log: if not, aof.start() throws.
pub build : (ℕ → Env) → ℕ → Option Bytes → Bool → Bool → ServerBuilder → Built
build envs now file arenas opens b = elim (new_router b.max_memory b.shard_count) [
  | none ↦ aborted
  | some router ↦
      if not arenas
      then out_of_memory
      else if opens
      then assembled (assemble envs now file router)
      else thrown (codes "Failed to open AOF file: " ++ b.aof_path)
]

-- main: the process is aborted, returns its result code, or serves with these parts.
pub data Main : Type 0 where
  aborts : Main
  returns : ℕ → Main
  serves : Assembled → Main

result : Built → Main
result aborted = aborts
result out_of_memory = returns 1
result (thrown message) = returns 1
result (assembled m) = serves m

-- The exceptions of the settings and of build_and_run end in the same `catch`.
unfoldable pub main : (ℕ → Env) → ℕ → Option Bytes → Bool → Bool → ℕ → Main
unfolding result
main envs now file arenas opens hardware_concurrency = elim (main_settings hardware_concurrency) [
  | none ↦ returns 1
  | some b ↦ result (build envs now file arenas opens b)
]
