-- ===== src/TimingWheel.antt =====
-- app/include/daemons/timing_wheel.h, app/src/daemons/timing_wheel.cpp: the buckets of keys, one for
-- each second of a day, and the sweep of one.
pub mod Sweep
pub mod Collected
pub mod Logged
pub mod Sweeper
use in_memory_db.Base.{
  ℕ, zero, suc, ◌+◌, ◌-◌, ◌/◌, ◌%◌, ◌^◌, Bool, true, false, Option, none, some, List, [], ◌∷◌, ◌++◌,
  ◌==◌, if◌then◌else◌,
}
use in_memory_db.Text.{Bytes, codes}
use in_memory_db.Value.{second}
use in_memory_db.Aof
use in_memory_db.Aof.{AofLogger}
use in_memory_db.Shard.{Env, evict_expired}
use in_memory_db.Router.{ShardRouter, on_shard}
use in_memory_db.Command.Execute.{Store}

abbrev pub wheel_size : ℕ
wheel_size = 86400

-- An Entry is its key: nothing reads its shard_index.
pub record TimingWheel : Type 0 where
  pub buckets : ℕ → List Bytes
  pub start_time : ℕ
  pub current_tick : ℕ

-- TimingWheel(router, aof), at the time `now`
unfoldable pub new_wheel : ℕ → TimingWheel
new_wheel now = record { buckets = λ i. []; start_time = now; current_tick = 0 }

-- A time before the start gives bucket 0, as the subtraction does that stops at 0.
unfoldable pub time_to_bucket : ℕ → TimingWheel → ℕ
time_to_bucket expiry w = ((expiry - w.start_time) / second) % wheel_size

unfoldable pub schedule : Bytes → ℕ → TimingWheel → TimingWheel
schedule key expiry w =
    let bucket = time_to_bucket expiry w in
    record w { buckets = λ i. if bucket == i then w.buckets i ++ key ∷ [] else w.buckets i }

-- start(), at the time `now`
unfoldable pub start : ℕ → TimingWheel → TimingWheel
start now w = record w { start_time = now; current_tick = 0 }

-- if (evicted && aof_ && !aof_->is_replaying()) aof_->log("DEL " + entry.key);
unfoldable pub log_eviction : Bytes → Option AofLogger → Option AofLogger
log_eviction key none = none
log_eviction key (some a) = if a.replaying then some a else some (Aof.log (codes "DEL " ++ key) a)

-- One round of the loop over the entries of the bucket.
pub sweep_entry : Env → Bytes → Store → Store
sweep_entry env key s =
    let (r, evicted) = on_shard key false (evict_expired env key) s.router in
    record { router = r; aof = if evicted then log_eviction key s.aof else s.aof }

-- The loop; `envs i` is what the i-th eviction meets.
pub sweep : (ℕ → Env) → ℕ → List Bytes → Store → Store
sweep envs i [] s = s
sweep envs i (key ∷ keys) s = sweep envs (i + 1) keys (sweep_entry (envs i) key s)

pub advance_tick : (ℕ → Env) → TimingWheel × Store → TimingWheel × Store
advance_tick envs (w, s) =
    let idx = w.current_tick % wheel_size in
    (
      record w {
        buckets = λ i. if idx == i then [] else w.buckets i;
        current_tick = (w.current_tick + 1) % 2 ^ 64;
      },
      sweep envs 0 (w.buckets idx) s,
    )

-- `n` rounds of sweeper_loop, from round 0 on; `others i` is what the other threads do to the database
-- while the loop sleeps before round i.
pub sweeper_loop :
    (ℕ → Store → Store) → (ℕ → ℕ → Env) → ℕ → TimingWheel × Store → TimingWheel × Store
sweeper_loop others envs zero x = x
sweeper_loop others envs (suc n) x =
    let (w, s) = sweeper_loop others envs n x in advance_tick (envs n) (w, others n s)
