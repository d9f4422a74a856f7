-- ===== src/Shard/View.antt =====
-- What a client can see of a shard at a time: the values whose entries are alive.
use in_memory_db.Base.{
  ℕ, ◌≤◌, ◌≡◌, true, Option, none, some, arith, if◌then◌else◌, is_some, inl, inr, Option-cases,
}
use in_memory_db.Text.{Bytes, bytes_eq, bytes_eq_iff, bytes_HasEq}
use in_memory_db.Dict.{find}
use in_memory_db.Dict.Laws.{find-insert_or_assign, find-erase}
use in_memory_db.Value.{CacheAlignedValue}
use in_memory_db.Value.Expiry.{is_expired_mono}
use in_memory_db.Shard.{Shard, Env, get, exists, evict_expired, store_entry, is_dead, render}

-- The entry of a lookup that finds one alive.
abbrev pub alive : ℕ → Option CacheAlignedValue → Option CacheAlignedValue
alive now none = none
alive now (some v) = if is_dead now v then none else some v

unfoldable pub live : ℕ → Bytes → Shard → Option CacheAlignedValue
live now key s = alive now (find key s.entries)

pub get-live :
    (now : ℕ) (key : Bytes) (s : Shard)
    → get now key s ≡ (elim (live now key s) [ none ↦ none | some v ↦ some (render v.value) ])
unfolding get live
get-live now key s = ground arith

-- `exists` answers true exactly when `get` finds a value at the same time.
pub exists-get : (now : ℕ) (key : Bytes) (s : Shard) → exists now key s ≡ is_some (get now key s)
unfolding exists get is_dead
exists-get now key s = ground arith

-- A stored entry is what later lookups of its key find, and no other key changes.
pub live-store_entry :
    (env : Env) (key j : Bytes) (v : CacheAlignedValue) (s : Shard) (later : ℕ)
    → (store_entry env key v s).1 ≡ true
    → live later j (store_entry env key v s).0
      ≡ (if bytes_eq key j then alive later (some v) else live later j s)
unfolding store_entry live
live-store_entry env key j v s later e = ground (arith, find-insert_or_assign key j v s.entries)

-- An eviction changes nothing that a client can see then or later.
pub live-evict_expired :
    (env : Env) (key j : Bytes) (s : Shard) (later : ℕ)
    → env.now ≤ later
    → live later j (evict_expired env key s).0 ≡ live later j s
unfolding live evict_expired is_dead
live-evict_expired env key j s later h = elim (Option-cases (find key s.entries)) [
  | inl e ↦ rw (e, evict_expired)
  | inr (v, e) ↦
      ground (
        arith,
        e,
        bytes_eq_iff key j,
        find-erase key j s.entries,
        is_expired_mono v env.now later h,
      )
]

-- An eviction, whatever its key, changes no answer of `get` from its time on.
pub get-evict_expired :
    (env : Env) (key j : Bytes) (s : Shard) (later : ℕ)
    → env.now ≤ later
    → get later j (evict_expired env key s).0 ≡ get later j s
get-evict_expired env key j s later h = cc (
  get-live later j (evict_expired env key s).0,
  get-live later j s,
  live-evict_expired env key j s later h,
)
