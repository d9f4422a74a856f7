-- ===== src/ServerBuilder/Assembly/Ready.antt =====
-- What build_and_run assembles is what the theorems on its parts start from. Whether a thread can be
-- created, and how many workers there are, is not looked at.
use in_memory_db.Base.{
  ℕ, suc, ◌^◌, ◌<◌, ◌≡◌, refl, Bool, not, ◌&&◌, true, false, Option, if◌then◌else◌, ◌++◌, none,
  some, List, [], ◌∷◌, arith, is_some, Option-cases, Bool-cases, inl, inr, append-nil,
}
use mathlib.Core.Bool.{false≢true}
use in_memory_db.Text.{Bytes, codes, is_empty, bytes_eq, toupper}
use in_memory_db.Text.Tokens.{tokenize}
use in_memory_db.Aof
use in_memory_db.Aof.{AofLogger, new_logger, lines, flush_buffer, active_buffer}
use in_memory_db.Aof.Written.{written}
use in_memory_db.Shard.{Env}
use in_memory_db.Router.{ShardRouter, new_router}
use in_memory_db.Router.Index.{IsRouted, new_router_accepts, new_router-IsRouted}
use in_memory_db.Command.{Command, parse}
use in_memory_db.Command.Execute.{Store, execute, act, log_write}
use in_memory_db.Command.Refinement.{act-IsRouted}
use in_memory_db.Command.History.{IsLogging, taken, router-execute}
use in_memory_db.WorkerPool.{new_pool}
use in_memory_db.Reactor.{new_reactor}
use in_memory_db.Reactor.Poll.Table.{IsTabled}
use in_memory_db.ServerBuilder.{replay, replay_lines, replay_line, get_lines, set_replaying}
use in_memory_db.Text.Decimal.{stoull}
use in_memory_db.ServerBuilder.MemoryLimit.{parse_memory_limit, ends_with, scaled}
use in_memory_db.ServerBuilder.Assembly.{
  ServerBuilder, Assembled, assemble, assembled, thrown, out_of_memory, build, replay_file,
  start_logger, main_settings, set_max_memory_limit, set_worker_threads, set_port, set_aof_path,
  set_shard_count, new_builder, serves, returns, result, main,
}

-- A replay leaves the layout of the router, and nothing reaches the logger.
pub record IsReplaying (a : AofLogger) (s : Store) : Type 0 where
  pub routed : IsRouted s.router
  pub logger : s.aof ≡ some a

aof-execute :
    (a : AofLogger) (env : Env) (c : Command) (s : Store)
    → a.replaying ≡ true
    → s.aof ≡ some a
    → (execute env c s).0.aof ≡ some a
unfolding execute log_write
aof-execute a env c s h e = elim (Bool-cases (act env c s.router).1.0) [
  | inl f ↦ rw (f, e, log_write, h) refl
  | inr f ↦ rw (f, e) refl
]

replay_line-IsReplaying :
    (a : AofLogger) (env : Env) (line : Bytes) (s : Store)
    → a.replaying ≡ true
    → IsReplaying a s
    → IsReplaying a (replay_line env line s)
unfolding replay_line
replay_line-IsReplaying a env line s h w = elim (Bool-cases (is_empty line)) [
  | inl e ↦ rw (e, replay_line) w
  | inr e ↦ elim (Option-cases (parse (tokenize line))) [
    | inl p ↦ rw (e, replay_line, p) w
    | inr (c, p) ↦
        rw (e, replay_line, p)
          (record {
            routed = rw (router-execute env c s) (act-IsRouted env c s.router w.routed);
            logger = aof-execute a env c s h w.logger;
          })
  ]
]

replay_lines-IsReplaying :
    (a : AofLogger) (envs : ℕ → Env) (i : ℕ) (lines : List Bytes) (s : Store)
    → a.replaying ≡ true
    → IsReplaying a s
    → IsReplaying a (replay_lines envs i lines s)
unfolding replay_lines
replay_lines-IsReplaying a envs i [] s h w = w
replay_lines-IsReplaying a envs i (line ∷ rest) s h w =
    replay_lines-IsReplaying a envs (suc i) rest (replay_line (envs i) line s) h
      (replay_line-IsReplaying a (envs i) line s h w)

-- What the file holds, if it is there.
abbrev pub content : Option Bytes → Bytes
content none = []
content (some file) = file

replay_file-IsReplaying :
    (envs : ℕ → Env) (file : Option Bytes) (r : ShardRouter)
    → IsRouted r
    → IsReplaying (new_logger (content file)) (replay_file envs file r)
unfolding replay_file replay set_replaying Aof.set_replaying new_logger
replay_file-IsReplaying envs none r w = record { routed = w; logger = refl }
replay_file-IsReplaying envs (some file) r w =
    let a : AofLogger = Aof.set_replaying true (new_logger file) in
    let v =
      replay_lines-IsReplaying a envs 0 (get_lines file) (record { router = r; aof = some a }) refl
        (record { routed = w; logger = refl }) in
    record { routed = v.routed; logger = rw v.logger refl }

start_logger-IsLogging :
    (file : Bytes) (s : Store)
    → s.aof ≡ some (new_logger file)
    → IsLogging (start_logger s).aof × (taken (start_logger s).aof ≡ file)
unfolding start_logger Aof.start new_logger written lines flush_buffer active_buffer
start_logger-IsLogging file s e = rw (e, start_logger) ((refl, refl), append-nil file)

-- The parts of a server that are ready to be given their threads: its router is laid out as its constructor does it, its logger runs, is not
-- replaying, and holds what the file holds and no more, and its reactor has an empty table of
-- connections and an empty pool.
pub record IsReady (file : Option Bytes) (m : Assembled) : Type 0 where
  pub routed : IsRouted m.store.router
  pub logging : IsLogging m.store.aof
  pub logged : taken m.store.aof ≡ content file
  pub tabled : IsTabled m.reactor
  pub pool : m.reactor.pool ≡ new_pool 10000

assemble-IsReady :
    (envs : ℕ → Env) (now : ℕ) (file : Option Bytes) (r : ShardRouter)
    → IsRouted r
    → IsReady file (assemble envs now file r)
unfolding assemble new_reactor
assemble-IsReady envs now file r w =
    let v = replay_file-IsReplaying envs file r w in
    let (l, t) = start_logger-IsLogging (content file) (replay_file envs file r) v.logger in
    record {
      routed = v.routed;
      logging = l;
      logged = t;
      tabled = record { unique = tt; total = refl; few = omega arith };
      pool = refl;
    }

-- With a power of two of shards, whatever is in the file, build_and_run assembles a server that is
-- ready if there is memory for the arenas and the log can be opened, and else throws.
pub build-IsReady :
    (envs : ℕ → Env) (now : ℕ) (file : Option Bytes) (arenas opens : Bool) (b : ServerBuilder)
    (k : ℕ)
    → b.shard_count < 2 ^ 64
    → b.shard_count ≡ 2 ^ k
    → (m : Assembled) × (build envs now file arenas opens b ≡ (
        if not arenas
        then out_of_memory
        else if opens
        then assembled m
        else thrown (codes "Failed to open AOF file: " ++ b.aof_path)))
      × IsReady file m
unfolding build
build-IsReady envs now file arenas opens b k h e =
    elim (Option-cases (new_router b.max_memory b.shard_count)) [
      | inl n ↦
          let accepted : is_some (new_router b.max_memory b.shard_count) ≡ true =
            (new_router_accepts b.max_memory b.shard_count h).1 (k, e) in
          absurd (false≢true (rw n at accepted))
      | inr (r, n) ↦ (
        assemble envs now file r,
        rw (build, n) refl,
        assemble-IsReady envs now file r (new_router-IsRouted b.max_memory b.shard_count r h n),
      )
    ]

-- The settings of main.
abbrev pub settings : ℕ → ServerBuilder
settings hardware_concurrency = record {
  port = 8080;
  worker_threads = hardware_concurrency;
  max_memory = 2 ^ 30;
  shard_count = 64;
  aof_path = codes "appendonly.aof";
}

main_settings_lem : (n : ℕ) → main_settings n ≡ some (settings n)
unfolding main_settings set_max_memory_limit set_worker_threads set_port set_aof_path
    set_shard_count new_builder parse_memory_limit ends_with scaled stoull bytes_eq toupper
main_settings_lem n = refl

result_if :
    (arenas opens : Bool) (m : Assembled) (message : Bytes)
    → result (if not arenas then out_of_memory else if opens then assembled m else thrown message)
      ≡ (if arenas && opens then serves m else returns 1)
unfolding result
result_if false opens m message = refl
result_if true true m message = refl
result_if true false m message = refl

-- Whatever the file holds and whatever the number of hardware threads, main comes to the start of the
-- threads with parts that are ready, if there is memory for the arenas and the log can be opened, and
-- else returns 1.
pub main-IsReady :
    (envs : ℕ → Env) (now : ℕ) (file : Option Bytes) (arenas opens : Bool)
    (hardware_concurrency : ℕ)
    → (m : Assembled) × (main envs now file arenas opens hardware_concurrency
        ≡ (if arenas && opens then serves m else returns 1))
      × IsReady file m
unfolding main
main-IsReady envs now file arenas opens n =
    let (m, e, r) = build-IsReady envs now file arenas opens (settings n) 6 (omega arith) refl in
    (
      m,
      rw (main, main_settings_lem n, e)
          (result_if arenas opens m (codes "Failed to open AOF file: appendonly.aof")),
      r,
    )
