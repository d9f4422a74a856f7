-- ===== src/TimingWheel/Collected.antt =====
-- What the wheel is for: a key that it was told of does not stay in memory once it is dead.
use in_memory_db.Base.{
  ◌≡◌, Bool, false, none, some, List, [], ◌∷◌, ◌&&◌, ◌||◌, arith, ◌==◌, ==_iff, if◌then◌else◌,
  Bool-cases, inl, inr, ◌∙◌, sym,
}
use in_memory_db.Text.{Bytes, bytes_eq, bytes_eq_iff, bytes_HasEq}
use in_memory_db.Shard.{Env, evict_expired}
use in_memory_db.Shard.Garbage.{is_garbage, find-evict_expired}
use in_memory_db.Router.{ShardRouter, shard_index, shard_for_key, on_shard}
use in_memory_db.Router.Index.{IsRouted}
use in_memory_db.Router.Contract.{shard_exists, shard_for_key-on_shard, shard_for_key_same}
use in_memory_db.Command.Refinement.{contents}
use in_memory_db.TimingWheel.{TimingWheel}

-- The eviction that a round of the sweep does, on the whole router.
pub contents-evict :
    (env : Env) (key j : Bytes) (r : ShardRouter)
    → IsRouted r
    → contents (on_shard key false (evict_expired env key) r).0 j
      ≡ (if bytes_eq key j && is_garbage env.now (contents r j) then none else contents r j)
unfolding contents
contents-evict env key j r w =
    let (s, found) = shard_exists r key w in
    let there = shard_for_key-on_shard key false (evict_expired env key) r s j w found in
    elim (Bool-cases (shard_index r key == shard_index r j)) [
      | inl e ↦
          let at_j : shard_for_key r j ≡ some s =
            sym (shard_for_key_same r key j ((==_iff _ _).0 e)) ∙ found in
          ground (arith, there, at_j, e, find-evict_expired env key j s)
      | inr e ↦
          let apart : bytes_eq key j ≡ false = ground (arith, e, bytes_eq_iff key j) in
          ground (arith, there, e, apart)
    ]

is_listed : Bytes → List Bytes → Bool
is_listed key [] = false
is_listed key (j ∷ js) = bytes_eq j key || is_listed key js
