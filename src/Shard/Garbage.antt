-- ===== src/Shard/Garbage.antt =====
-- The entries of a shard that no client can see any more, and what an eviction does to them.
use in_memory_db.Base.{
  ℕ, ◌≤◌, ◌≡◌, refl, Bool, false, Option, none, some, ◌&&◌, arith, if◌then◌else◌, Bool-cases,
  Option-cases, inl, inr,
}
use in_memory_db.Text.{Bytes, bytes_eq, bytes_eq_iff, bytes_HasEq}
use in_memory_db.Value.{CacheAlignedValue}
use in_memory_db.Value.Expiry.{is_expired_mono}
use in_memory_db.Dict.{find}
use in_memory_db.Dict.Laws.{find-erase}
use in_memory_db.Shard.{Shard, Env, evict_expired, is_dead}

-- Whether there is an entry, and it is dead at a time.
abbrev pub is_garbage : ℕ → Option CacheAlignedValue → Bool
is_garbage t none = false
is_garbage t (some v) = is_dead t v

pub is_garbage_mono :
    (t later : ℕ) (o : Option CacheAlignedValue)
    → t ≤ later
    → is_garbage later o ≡ false
    → is_garbage t o ≡ false
unfolding is_dead
is_garbage_mono t later none h e = refl
is_garbage_mono t later (some v) h e = ground (arith, is_expired_mono v t later h)

-- An eviction erases the entry of its key if that is dead, and no other.
pub find-evict_expired :
    (env : Env) (key j : Bytes) (s : Shard)
    → find j (evict_expired env key s).0.entries
      ≡ (if bytes_eq key j && is_garbage env.now (find j s.entries) then none else find j s.entries)
unfolding evict_expired
find-evict_expired env key j s = elim (Bool-cases (bytes_eq key j)) [
  | inl e ↦
      let same : key ≡ j = (bytes_eq_iff key j).0 e in
      elim (Option-cases (find key s.entries)) [
        | inl f ↦ ground (arith, e, f, same)
        | inr (v, f) ↦ ground (arith, e, f, same, find-erase key j s.entries)
      ]
  | inr e ↦ ground (arith, e, find-erase key j s.entries)
]

-- An eviction reports success exactly if the entry of its key is dead.
pub reports-evict_expired :
    (env : Env) (key : Bytes) (s : Shard)
    → (evict_expired env key s).1 ≡ is_garbage env.now (find key s.entries)
unfolding evict_expired
reports-evict_expired env key s = ground arith
