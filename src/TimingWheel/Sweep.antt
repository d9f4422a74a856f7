-- ===== src/TimingWheel/Sweep.antt =====
-- What the sweep of a bucket does to the database.
use in_memory_db.Base.{
  ℕ, ◌+◌, ◌≤◌, ◌≡◌, refl, false, some, List, [], ◌∷◌, arith, ◌==◌, ==_iff, Bool-cases, inl, inr,
  ◌∙◌, sym,
}
use in_memory_db.Text.{Bytes, bytes_HasEq}
use in_memory_db.Shard.{Env, evict_expired}
use in_memory_db.Shard.View.{get-evict_expired}
use in_memory_db.Router.{ShardRouter, shard_index, shard_for_key, on_shard, get}
use in_memory_db.Router.Index.{IsRouted}
use in_memory_db.Router.Contract.{
  shard_exists, shard_for_key-on_shard, shard_for_key_same, on_shard-IsRouted,
}
use in_memory_db.Command.Execute.{Store}
use in_memory_db.TimingWheel.{TimingWheel, sweep_entry, sweep, advance_tick}

get-evict :
    (env : Env) (key j : Bytes) (r : ShardRouter) (later : ℕ)
    → IsRouted r
    → env.now ≤ later
    → get later j (on_shard key false (evict_expired env key) r).0 ≡ get later j r
unfolding get
get-evict env key j r later w h =
    let (s, found) = shard_exists r key w in
    let there = shard_for_key-on_shard key false (evict_expired env key) r s j w found in
    elim (Bool-cases (shard_index r key == shard_index r j)) [
      | inl e ↦
          let at_j : shard_for_key r j ≡ some s =
            sym (shard_for_key_same r key j ((==_iff _ _).0 e)) ∙ found in
          ground (arith, there, at_j, e, get-evict_expired env key j s later h)
      | inr e ↦ ground (arith, there, e)
    ]

-- Every eviction happens before a time.
abbrev pub AllBefore : (ℕ → Env) → ℕ → Type 0
AllBefore envs later = (i : ℕ) → (envs i).now ≤ later

sweep-get :
    (envs : ℕ → Env) (i : ℕ) (keys : List Bytes) (j : Bytes) (s : Store) (later : ℕ)
    → IsRouted s.router
    → AllBefore envs later
    → get later j (sweep envs i keys s).router ≡ get later j s.router
unfolding sweep sweep_entry
sweep-get envs i [] j s later w h = refl
sweep-get envs i (key ∷ keys) j s later w h =
    sweep-get envs (i + 1) keys j (sweep_entry (envs i) key s) later
      (on_shard-IsRouted key false (evict_expired (envs i) key) s.router w) h
    ∙ get-evict (envs i) key j s.router later w (h i)

-- On a router that is laid out as its constructor does it, a tick of the wheel changes no answer of
-- `get` from the last of its evictions on, whatever keys are in its bucket.
pub get-advance_tick :
    (envs : ℕ → Env) (w : TimingWheel) (s : Store) (j : Bytes) (later : ℕ)
    → IsRouted s.router
    → ((i : ℕ) → (envs i).now ≤ later)
    → get later j (advance_tick envs (w, s)).1.router ≡ get later j s.router
unfolding advance_tick
get-advance_tick envs w s j later r h = sweep-get envs 0 _ j s later r h
