-- ===== src/ServerBuilder/Recovery.antt =====
-- A restart: the database that the replay builds from the file is the one that was lost.
use mathlib.Core.Path.{fun_ext}
use in_memory_db.Base.{
  ℕ, suc, ◌^◌, ◌<◌, ◌≡◌, refl, true, none, some, List, [], ◌∷◌, ◌++◌, ◌/◌, All, All-replicate,
  All-get_elem?, Option-cases, Bool-cases, inl, inr, arith, get_elem?, sym, ap, ◌∙◌,
}
use in_memory_db.Text.{Bytes, bytes_HasEq}
use in_memory_db.Dict.{find}
use in_memory_db.Aof.{lines}
use in_memory_db.Shard
use in_memory_db.Shard.{Shard, Env}
use in_memory_db.Router.{ShardRouter, new_router, shard_index, shard_for_key}
use in_memory_db.Router.Index.{IsRouted, new_router-IsRouted, shards-new_router}
use in_memory_db.Command.{Command}
use in_memory_db.Command.RoundTrip.{IsParsed}
use in_memory_db.Command.Execute.{Store, act, execute}
use in_memory_db.Command.Spec.{apply}
use in_memory_db.Command.Refinement.{contents, act-IsRouted}
use in_memory_db.Command.History.{
  run, changes, apply_all, log_of, taken, taken-run, contents-run, contents-act, router-execute,
  IsLogging,
}
use in_memory_db.Command.Retiming.{untimed, AllFresh, retimed, apply_all-retimed}
use in_memory_db.ServerBuilder.{replay, replay_lines, set_replaying}
use in_memory_db.ServerBuilder.Replay.{
  get_lines-lines, serialize-HasNoNewline, replay_line-serialize, HasNoNewline,
}

-- The replay has memory for each record, and no entry in its way is of the wrong type: each command
-- reports a change again.
abbrev pub Accepts : (ℕ → Env) → ℕ → List (ℕ × Command) → ShardRouter → Type 0
Accepts envs i [] r = Unit
Accepts envs i ((now, c) ∷ rest) r =
    ((act (envs i) c r).1.0 ≡ true) × Accepts envs (suc i) rest (act (envs i) c r).0

-- The times of the calls.
abbrev pub times_of : (ℕ → Env) → ℕ → ℕ
times_of envs i = (envs i).now

abbrev pub AllParsed : List (ℕ × Command) → Type 0
AllParsed = All (λ tc. IsParsed tc.1)

-- A replayed record does to the database what the contract says.
contents-accepted :
    (env : Env) (c : Command) (r : ShardRouter)
    → IsRouted r
    → (act env c r).1.0 ≡ true
    → contents (act env c r).0 ≡ apply env.now c (contents r)
contents-accepted env c r w e = contents-act env c r w ∙ rw e refl

contents-replay_lines :
    (envs : ℕ → Env) (i : ℕ) (cs : List (ℕ × Command)) (s : Store)
    → IsRouted s.router
    → AllParsed cs
    → Accepts envs i cs s.router
    → contents (replay_lines envs i (log_of cs) s).router
      ≡ apply_all (retimed (times_of envs) i cs) (contents s.router)
unfolding replay_lines apply_all
contents-replay_lines envs i [] s w p a = refl
contents-replay_lines envs i ((now, c) ∷ cs) s w p a =
    let s' : Store = (execute (envs i) c s).0 in
    let same : s'.router ≡ (act (envs i) c s.router).0 = router-execute (envs i) c s in
    let step : contents s'.router ≡ apply (envs i).now c (contents s.router) =
      ap contents same ∙ contents-accepted (envs i) c s.router w a.0 in
    ap (λ u. contents (replay_lines envs (suc i) (log_of cs) u).router)
      (replay_line-serialize (envs i) c s p.0)
    ∙ contents-replay_lines envs (suc i) cs s' (rw same (act-IsRouted (envs i) c s.router w)) p.1
        (rw same a.1)
    ∙ ap (apply_all (retimed (times_of envs) (suc i) cs)) step

pub log_of-HasNoNewline : (cs : List (ℕ × Command)) → AllParsed cs → All HasNoNewline (log_of cs)
log_of-HasNoNewline [] p = tt
log_of-HasNoNewline ((now, c) ∷ cs) p = (serialize-HasNoNewline c p.0, log_of-HasNoNewline cs p.1)

-- The file that holds the records of some changes, replayed on any router, repeats the changes.
pub contents-replay :
    (envs : ℕ → Env) (cs : List (ℕ × Command)) (s : Store)
    → IsRouted s.router
    → AllParsed cs
    → Accepts envs 0 cs s.router
    → contents (replay envs (lines (log_of cs)) s).router
      ≡ apply_all (retimed (times_of envs) 0 cs) (contents s.router)
unfolding replay
contents-replay envs cs s w p a =
    rw (get_lines-lines (log_of cs) (log_of-HasNoNewline cs p))
      (contents-replay_lines envs 0 cs (set_replaying true s) w p a)

abbrev AllEmpty : List Shard → Type 0
AllEmpty = All (λ s. s.entries ≡ [])

AllEmpty-new_router :
    (total n : ℕ) (r : ShardRouter) → new_router total n ≡ some r → AllEmpty r.shards
unfolding Shard.new_shard
AllEmpty-new_router total n r e =
    rw (shards-new_router total n r e)
      (All-replicate (λ s. s.entries ≡ []) n (Shard.new_shard (total / n)) refl)

contents_empty : (r : ShardRouter) (k : Bytes) → AllEmpty r.shards → contents r k ≡ none
unfolding contents shard_for_key find
contents_empty r k h = elim (Option-cases (get_elem? r.shards (shard_index r k))) [
  | inl e ↦ ground (arith, e)
  | inr (s, e) ↦
      ground (arith, e, All-get_elem? (λ s. s.entries ≡ []) r.shards (shard_index r k) s h e)
]

-- A new router holds nothing.
pub contents-new_router :
    (total n : ℕ) (r : ShardRouter) → new_router total n ≡ some r → contents r ≡ (λ k. none)
contents-new_router total n r e = fun_ext λ k. contents_empty r k (AllEmpty-new_router total n r e)

pub AllParsed-changes :
    (history : List (Env × Command)) (r : ShardRouter)
    → All (λ ec. IsParsed ec.1) history
    → AllParsed (changes history r)
unfolding changes
AllParsed-changes [] r p = tt
AllParsed-changes ((env, c) ∷ rest) r p = elim (Bool-cases (act env c r).1.0) [
  | inl e ↦ rw (e, changes) (p.0, AllParsed-changes rest (act env c r).0 p.1)
  | inr e ↦ rw (e, changes) (AllParsed-changes rest (act env c r).0 p.1)
]

-- The records of some changes, replayed on a new router, give what the contract makes of the changes,
-- but for the times.
pub replayed :
    (total n : ℕ) (fresh : Store) (cs : List (ℕ × Command)) (envs : ℕ → Env)
    → n < 2 ^ 64
    → new_router total n ≡ some fresh.router
    → AllParsed cs
    → Accepts envs 0 cs fresh.router
    → AllFresh cs (λ k. none)
    → AllFresh (retimed (times_of envs) 0 cs) (λ k. none)
    → (key : Bytes)
    → untimed (contents (replay envs (lines (log_of cs)) fresh).router key)
      ≡ untimed (apply_all cs (λ k. none) key)
replayed total n fresh cs envs h e p a f g key =
    let w : IsRouted fresh.router = new_router-IsRouted total n fresh.router h e in
    let now : contents (replay envs (lines (log_of cs)) fresh).router
        ≡ apply_all (retimed (times_of envs) 0 cs) (λ k. none) =
      contents-replay envs cs fresh w p a
      ∙ ap (apply_all (retimed (times_of envs) 0 cs))
          (contents-new_router total n fresh.router e) in
    ap (λ m. untimed (m key)) now
    ∙ sym (apply_all-retimed (times_of envs) 0 cs (λ k. none) (λ k. none) (λ j. refl) f g key)

-- Recovery. Start a server with an empty log and a logger that runs and is not replaying, and
-- execute any history of commands that the parser builds, some of them refused. Restart later with
-- any memory and any number of shards, and replay what the logger took. If the replay accepts each
-- record, and no command of the history or of the replay meets an entry that has expired without a
-- tombstone, then every key has again the value, the ttl and the tombstone that it had; only the
-- times of its entry may differ.
pub recovery :
    (total n total' n' : ℕ) (s fresh : Store) (history : List (Env × Command)) (envs : ℕ → Env)
    → n < 2 ^ 64
    → n' < 2 ^ 64
    → new_router total n ≡ some s.router
    → new_router total' n' ≡ some fresh.router
    → IsLogging s.aof
    → taken s.aof ≡ []
    → All (λ ec. IsParsed ec.1) history
    → Accepts envs 0 (changes history s.router) fresh.router
    → AllFresh (changes history s.router) (λ k. none)
    → AllFresh (retimed (times_of envs) 0 (changes history s.router)) (λ k. none)
    → (key : Bytes)
    → untimed (contents (replay envs (taken (run history s).aof) fresh).router key)
      ≡ untimed (contents (run history s).router key)
recovery total n total' n' s fresh history envs hn hn' e e' l z p a f g key =
    let cs : List (ℕ × Command) = changes history s.router in
    let file : taken (run history s).aof ≡ lines (log_of cs) =
      taken-run history s l ∙ ap (λ t. t ++ lines (log_of cs)) z in
    let before : contents (run history s).router ≡ apply_all cs (λ k. none) =
      contents-run history s (new_router-IsRouted total n s.router hn e)
      ∙ ap (apply_all cs) (contents-new_router total n s.router e) in
    ap (λ x. untimed (contents (replay envs x fresh).router key)) file
    ∙ replayed total' n' fresh cs envs hn' e' (AllParsed-changes history s.router p) a f g key
    ∙ sym (ap (λ m. untimed (m key)) before)
