-- ===== src/TimingWheel/Logged.antt =====
-- What a tick of the wheel leaves in the log.
use in_memory_db.Base.{
  ℕ, ◌+◌, ◌%◌, ◌≡◌, refl, Bool, false, none, some, Option, List, [], ◌∷◌, ◌++◌, append-nil, sym,
  ◌∙◌, ap, subst, if◌then◌else◌,
}
use in_memory_db.Text.{Bytes, bytes_HasEq}
use in_memory_db.Dict.{find}
use in_memory_db.Shard.{Env, evict_expired}
use in_memory_db.Shard.Garbage.{is_garbage, reports-evict_expired}
use in_memory_db.Router.{ShardRouter, on_shard}
use in_memory_db.Router.Index.{IsRouted}
use in_memory_db.Router.Contract.{shard_exists, on_shard_result, on_shard-IsRouted}
use in_memory_db.Aof.{AofLogger, lines}
use in_memory_db.Command.{Command, del, serialize}
use in_memory_db.Command.Execute.{Store, log_write}
use in_memory_db.Command.History.{
  IsLogging, taken, logged, record_of, log_of, IsLogging-logged, taken-logged,
}
use in_memory_db.Command.Refinement.{contents}
use in_memory_db.TimingWheel.{
  TimingWheel, wheel_size, log_eviction, sweep_entry, sweep, advance_tick,
}

-- Whether the entry of a key is dead when its turn comes.
reports-evict :
    (env : Env) (key : Bytes) (r : ShardRouter)
    → IsRouted r
    → (on_shard key false (evict_expired env key) r).1 ≡ is_garbage env.now (contents r key)
unfolding contents
reports-evict env key r w =
    let (s, found) = shard_exists r key w in
    let there : contents r key ≡ find key s.entries = rw (contents, found) refl in
    on_shard_result key false (evict_expired env key) r s found
    ∙ (reports-evict_expired env key s ∙ ap (is_garbage env.now) (sym there))

-- The DEL commands of a sweep: one for each entry that is dead when its turn comes.
unfoldable pub evictions : (ℕ → Env) → ℕ → List Bytes → ShardRouter → List (ℕ × Command)
evictions envs i [] r = []
evictions envs i (key ∷ keys) r =
    record_of (is_garbage (envs i).now (contents r key)) (envs i).now (del key)
      (evictions envs (i + 1) keys (on_shard key false (evict_expired (envs i) key) r).0)

-- The record that an eviction logs is that of a DEL.
log_eviction-del : (key : Bytes) (o : Option AofLogger) → log_eviction key o ≡ log_write (del key) o
unfolding log_eviction log_write serialize
log_eviction-del key none = refl
log_eviction-del key (some a) = refl

aof-sweep_entry :
    (env : Env) (key : Bytes) (s : Store)
    → IsRouted s.router
    → (sweep_entry env key s).aof
      ≡ logged (is_garbage env.now (contents s.router key)) (del key) s.aof
unfolding sweep_entry
aof-sweep_entry env key s w =
    ap (λ b. if b then log_eviction key s.aof else s.aof) (reports-evict env key s.router w)
    ∙ ap (λ o. if is_garbage env.now (contents s.router key) then o else s.aof)
        (log_eviction-del key s.aof)

taken-sweep :
    (envs : ℕ → Env) (i : ℕ) (keys : List Bytes) (s : Store)
    → IsRouted s.router
    → IsLogging s.aof
    → taken (sweep envs i keys s).aof
      ≡ taken s.aof ++ lines (log_of (evictions envs i keys s.router))
unfolding sweep evictions sweep_entry
taken-sweep envs i [] s w l = unfold lines in sym (append-nil (taken s.aof))
taken-sweep envs i (key ∷ keys) s w l =
    let env : Env = envs i in
    let dead : Bool = is_garbage env.now (contents s.router key) in
    let e = aof-sweep_entry env key s w in
    let routed = on_shard-IsRouted key false (evict_expired env key) s.router w in
    let logging : IsLogging (sweep_entry env key s).aof =
      subst IsLogging (sym e) (IsLogging-logged dead (del key) s.aof l) in
    let rest = evictions envs (i + 1) keys (sweep_entry env key s).router in
    taken-sweep envs (i + 1) keys (sweep_entry env key s) routed logging
    ∙ (ap (λ o. taken o ++ lines (log_of rest)) e
        ∙ taken-logged dead env.now (del key) s.aof rest l)

-- On a router that is laid out as its constructor does it, with a logger that runs and is not
-- replaying, what the logger has taken grows in a tick by the record of a DEL for each entry of the
-- bucket that is dead when its turn comes, in the order of the bucket, and by nothing else.
pub taken-advance_tick :
    (envs : ℕ → Env) (w : TimingWheel) (s : Store)
    → IsRouted s.router
    → IsLogging s.aof
    → taken (advance_tick envs (w, s)).1.aof
      ≡ taken s.aof
        ++ lines (log_of (evictions envs 0 (w.buckets (w.current_tick % wheel_size)) s.router))
unfolding advance_tick
taken-advance_tick envs w s r l = taken-sweep envs 0 _ s r l
