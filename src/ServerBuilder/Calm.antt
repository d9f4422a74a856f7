-- ===== src/ServerBuilder/Calm.antt =====
-- A restart after commands that interleaved.
use in_memory_db.Base.{ℕ, ◌^◌, ◌<◌, ◌≡◌, none, some, List, [], ◌++◌, sym, ap, ◌∙◌}
use in_memory_db.Text.{Bytes}
use in_memory_db.Aof.{lines}
use in_memory_db.Shard.{Env}
use in_memory_db.Router.{new_router}
use in_memory_db.Router.Index.{new_router-IsRouted}
use in_memory_db.Command.{Command}
use in_memory_db.Command.Execute.{Store}
use in_memory_db.Command.Refinement.{contents}
use in_memory_db.Command.History.{apply_all, log_of, IsLogging, taken}
use in_memory_db.Command.Retiming.{untimed, AllFresh, retimed}
use in_memory_db.Command.Interleaved.{Shared, Reach, begun}
use in_memory_db.Command.Interleaved.Calm.{AllCalm, calm_log}
use in_memory_db.ServerBuilder.{replay}
use in_memory_db.ServerBuilder.Recovery.{
  Accepts, AllParsed, times_of, contents-new_router, replayed,
}

-- Recovery with several workers. Start a server with an empty log and a logger that runs and is not
-- replaying, and let its workers execute commands, each SET and DEL in two steps that others may come
-- between, but none while a change of its key is still to be logged. Once all changes are logged,
-- restart with any memory and any number of shards, and replay what the logger took. If the changes
-- are commands that the parser builds, the replay accepts each, and in the order of the log none meets
-- an entry that has expired without a tombstone, neither then nor in the replay: every key has again
-- the value, the ttl and the tombstone that it had.
pub calm_recovery :
    (total n total' n' : ℕ) (s fresh : Store) (envs : ℕ → Env) {t : Shared}
    (r : Reach (begun s.router s.aof) t)
    → AllCalm r
    → n < 2 ^ 64
    → n' < 2 ^ 64
    → new_router total n ≡ some s.router
    → new_router total' n' ≡ some fresh.router
    → IsLogging s.aof
    → taken s.aof ≡ []
    → t.unlogged ≡ []
    → AllParsed t.recorded
    → Accepts envs 0 t.recorded fresh.router
    → AllFresh t.recorded (λ k. none)
    → AllFresh (retimed (times_of envs) 0 t.recorded) (λ k. none)
    → (key : Bytes)
    → untimed (contents (replay envs (taken t.aof) fresh).router key)
      ≡ untimed (contents t.router key)
calm_recovery total n total' n' s fresh envs {t} r calm hn hn' e e' l z u p a f g key =
    let cs : List (ℕ × Command) = t.recorded in
    let (log, data_of) =
      calm_log s.router s.aof r calm (new_router-IsRouted total n s.router hn e) l u in
    let file : taken t.aof ≡ lines (log_of cs) = log ∙ ap (λ x. x ++ lines (log_of cs)) z in
    let before : contents t.router ≡ apply_all cs (λ k. none) =
      data_of ∙ ap (apply_all cs) (contents-new_router total n s.router e) in
    ap (λ x. untimed (contents (replay envs x fresh).router key)) file
    ∙ replayed total' n' fresh cs envs hn' e' p a f g key
    ∙ sym (ap (λ m. untimed (m key)) before)
