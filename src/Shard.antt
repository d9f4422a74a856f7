-- ===== src/Shard.antt =====
-- app/include/engine/shard.h, app/src/engine/shard.cpp: one shard. Its lock makes each call one
-- step; the clock and the allocator enter as an argument of the call.
pub mod View
pub mod Garbage
pub mod Contract
use in_memory_db.Base.{
  ℕ, Bool, true, false, not, ◌&&◌, ◌||◌, Option, none, some, [], length, if◌then◌else◌,
}
use in_memory_db.Base.Int.{ℤ}
use in_memory_db.Text.{Bytes, codes, bytes_HasEq}
use in_memory_db.Text.Decimal.{to_string}
use in_memory_db.Dict.{Dict, find, insert_or_assign, erase}
use in_memory_db.Memory.{Tracker, Traffic, new_arena, is_hard_limit_reached, perform, release_all}
use in_memory_db.Value.{
  ValueVariant, string, integer, list, hash, CacheAlignedValue, new_value, is_expired,
}

pub record Shard : Type 0 where
  pub arena : Tracker
  pub entries : Dict Bytes CacheAlignedValue

-- What a call meets: steady_clock::now(), and what the containers ask of the arena.
pub record Env : Type 0 where
  pub now : ℕ
  pub traffic : Traffic

-- Shard(arena_capacity)
unfoldable pub new_shard : ℕ → Shard
new_shard n = record { arena = new_arena n; entries = [] }

-- The `try` block that ends in `insert_or_assign`.
unfoldable pub store_entry : Env → Bytes → CacheAlignedValue → Shard → Shard × Bool
store_entry env key entry s =
    let (t, done) = perform env.traffic s.arena in
    if done
    then (record { arena = t; entries = insert_or_assign key entry s.entries }, true)
    else (record s { arena = t }, false)

unfoldable pub set : Env → Bytes → Bytes → ℤ → Shard → Shard × Bool
set env key value ttl s =
    if is_hard_limit_reached s.arena
    then (s, false)
    else store_entry env key (new_value env.now (string value) ttl) s

-- Whether a lookup passes over the entry.
unfoldable pub is_dead : ℕ → CacheAlignedValue → Bool
is_dead now v = v.tombstoned || is_expired now v

-- The visitor of `get`.
pub render : ValueVariant → Bytes
render (string s) = s
render (integer n) = to_string n
render (list l) = codes "(list)"
render (hash h) = codes "(hash)"

unfoldable pub get : ℕ → Bytes → Shard → Option Bytes
get now key s = elim (find key s.entries) [
  | none ↦ none
  | some v ↦ if is_dead now v then none else some (render v.value)
]

-- it->second.tombstoned = true
unfoldable pub bury : CacheAlignedValue → CacheAlignedValue
bury v = record v { tombstoned = true }

-- The entry stays where it is, with its tombstone.
unfoldable pub del : Bytes → Shard → Shard × Bool
unfolding bury
del key s = elim (find key s.entries) [
  | none ↦ (s, false)
  | some v ↦
      if v.tombstoned
      then (s, false)
      else (record s { entries = insert_or_assign key (bury v) s.entries }, true)
]

unfoldable pub exists : ℕ → Bytes → Shard → Bool
exists now key s = elim (find key s.entries) [
  | none ↦ false
  | some v ↦ not (is_expired now v) && not v.tombstoned
]

-- The erased node gives its blocks back to the arena.
pub evict_expired : Env → Bytes → Shard → Shard × Bool
evict_expired env key s = elim (find key s.entries) [
  | none ↦ (s, false)
  | some v ↦
      if is_dead env.now v
      then (
        record { arena = release_all env.traffic.released s.arena; entries = erase key s.entries },
        true,
      )
      else (s, false)
]

unfoldable pub memory_used : Shard → ℕ
memory_used s = s.arena.bytes_used

unfoldable pub memory_capacity : Shard → ℕ
memory_capacity s = s.arena.capacity

pub key_count : Shard → ℕ
key_count s = length s.entries
