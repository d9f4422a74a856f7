-- ===== src/Shard/Contract.antt =====
-- What the operations of a shard promise: what a client reads after each, and what stays the same.
use in_memory_db.Base.{
  ℕ, suc, ◌≡◌, refl, true, false, not, ◌⊎◌, none, some, arith, if◌then◌else◌, Bool-cases, inl, inr,
  Option-cases,
}
use in_memory_db.Base.Int.{ℤ}
use in_memory_db.Text.{Bytes, bytes_eq, bytes_eq_iff, bytes_HasEq}
use in_memory_db.Dict.{find, HasUniqueKeys}
use in_memory_db.Dict.Laws.{
  find-insert_or_assign, find-erase, HasUniqueKeys-insert_or_assign, HasUniqueKeys-erase,
  length-erase, contains→pos,
}
use in_memory_db.Memory.Accounting.{
  IsWithin, HasSmallRequests, perform-IsWithin, perform_failed, release_all-IsWithin,
}
use in_memory_db.Value.{CacheAlignedValue, string, new_value, is_expired, expired_at}
use in_memory_db.Shard.{
  Shard, Env, set, get, del, exists, evict_expired, store_entry, is_dead, render, key_count, bury,
}

-- After a SET that succeeds, the key reads as the new value until the ttl has passed, and every
-- other key reads as before.
pub get-set :
    (env : Env) (key j value : Bytes) (ttl : ℤ) (s : Shard) (later : ℕ)
    → (set env key value ttl s).1 ≡ true
    → get later j (set env key value ttl s).0 ≡ (
        if bytes_eq key j
        then (if expired_at ttl env.now later then none else some value)
        else get later j s)
unfolding set store_entry get is_dead is_expired new_value render
get-set env key j value ttl s later e =
    ground (arith, find-insert_or_assign key j (new_value env.now (string value) ttl) s.entries)

-- A SET that is refused, by the hard limit or by an OomException on the way, leaves the shard as
-- it was, its memory account included.
pub set_failed :
    (env : Env) (key value : Bytes) (ttl : ℤ) (s : Shard)
    → IsWithin s.arena
    → HasSmallRequests env.traffic
    → (set env key value ttl s).1 ≡ false
    → (set env key value ttl s).0 ≡ s
unfolding set store_entry
set_failed env key value ttl s w h e = ground (arith, perform_failed env.traffic s.arena w h)

-- After a DEL the key is gone at every later time, and every other key reads as before.
pub get-del :
    (key j : Bytes) (s : Shard) (later : ℕ)
    → get later j (del key s).0 ≡ (if bytes_eq key j then none else get later j s)
unfolding del get is_dead
get-del key j s later = elim (Option-cases (find key s.entries)) [
  | inl e ↦ ground (arith, e, bytes_eq_iff key j)
  | inr (v, e) ↦
      ground (arith, e, bytes_eq_iff key j, find-insert_or_assign key j (bury v) s.entries)
]

-- DEL reports a removal exactly if the map holds an entry without a tombstone, and whether or not
-- that entry has expired.
pub del_reports :
    (key : Bytes) (s : Shard) (v : CacheAlignedValue)
    → find key s.entries ≡ some v
    → (del key s).1 ≡ not v.tombstoned
unfolding del
del_reports key s v e = ground arith

-- A key whose entry has expired and has no tombstone is absent for EXISTS and GET, and yet DEL
-- reports its removal.
pub del_expired :
    (now : ℕ) (key : Bytes) (s : Shard) (v : CacheAlignedValue)
    → find key s.entries ≡ some v
    → v.tombstoned ≡ false
    → is_expired now v ≡ true
    → (exists now key s ≡ false) × (get now key s ≡ none) × ((del key s).1 ≡ true)
unfolding del exists get is_dead
del_expired now key s v e t x = (ground arith, ground arith, ground arith)

-- What holds of every shard: a key stands once, and the arena is within its capacity.
pub record IsWellFormed (s : Shard) : Type 0 where
  pub unique : HasUniqueKeys s.entries
  pub within : IsWithin s.arena

pub store_entry-IsWellFormed :
    (env : Env) (key : Bytes) (v : CacheAlignedValue) (s : Shard)
    → IsWellFormed s
    → IsWellFormed (store_entry env key v s).0
unfolding store_entry
store_entry-IsWellFormed env key v s w = ground (
  arith,
  HasUniqueKeys-insert_or_assign key v s.entries w.unique,
  perform-IsWithin env.traffic s.arena w.within,
)

-- A SET, whether it succeeds or is refused, leaves a well-formed shard well formed: each key stands
-- once, and the arena is within its capacity.
pub set-IsWellFormed :
    (env : Env) (key value : Bytes) (ttl : ℤ) (s : Shard)
    → IsWellFormed s
    → IsWellFormed (set env key value ttl s).0
unfolding set
set-IsWellFormed env key value ttl s w =
    ground (arith, store_entry-IsWellFormed env key (new_value env.now (string value) ttl) s w)

pub del-IsWellFormed : (key : Bytes) (s : Shard) → IsWellFormed s → IsWellFormed (del key s).0
unfolding del
del-IsWellFormed key s w = elim (Option-cases (find key s.entries)) [
  | inl e ↦ rw (e, del) w
  | inr (v, e) ↦ ground (arith, e, HasUniqueKeys-insert_or_assign key (bury v) s.entries w.unique)
]

pub evict_expired-IsWellFormed :
    (env : Env) (key : Bytes) (s : Shard)
    → IsWellFormed s
    → IsWellFormed (evict_expired env key s).0
unfolding evict_expired
evict_expired-IsWellFormed env key s w = ground (
  arith,
  HasUniqueKeys-erase key s.entries w.unique,
  release_all-IsWithin env.traffic.released s.arena w.within,
)

-- An eviction on a well-formed shard either reports success, and then has erased one entry, that of
-- its key, or reports none, and has changed nothing.
pub evict_expired_effect :
    (env : Env) (key : Bytes) (s : Shard)
    → IsWellFormed s
    → (((evict_expired env key s).1 ≡ true)
        × (find key (evict_expired env key s).0.entries ≡ none)
        × (suc (key_count (evict_expired env key s).0) ≡ key_count s))
      ⊎ (((evict_expired env key s).1 ≡ false) × ((evict_expired env key s).0 ≡ s))
unfolding evict_expired key_count
evict_expired_effect env key s w = elim (Option-cases (find key s.entries)) [
  | inl e ↦ rw (e, evict_expired) (inr (refl, refl))
  | inr (v, e) ↦ elim (Bool-cases (is_dead env.now v)) [
    | inl d ↦
        rw (e, evict_expired, d)
          (inl (
            refl,
            ground (arith, find-erase key key s.entries, bytes_eq_iff key key),
            unfold key_count in
                ground (arith, e, length-erase key s.entries w.unique, contains→pos key s.entries),
          ))
    | inr d ↦ rw (e, evict_expired, d) (inr (refl, refl))
  ]
]
