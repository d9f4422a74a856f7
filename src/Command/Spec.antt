-- ===== src/Command/Spec.antt =====
-- The contract of the write commands: the database as one map from keys to entries, with no shards,
-- no arenas and no replies.
use in_memory_db.Base.{
  ℕ, Option, none, some, List, [], ◌∷◌, ◌++◌, ◌≡◌, refl, false, arith, ap, Option-cases, inl, inr,
  if◌then◌else◌,
}
use in_memory_db.Text.{Bytes, bytes_eq, bytes_HasEq}
use in_memory_db.Dict.{Dict, insert_or_assign}
use in_memory_db.Value.{CacheAlignedValue, string, list, hash, new_value}
use in_memory_db.Shard.{bury}
use in_memory_db.Shard.View.{alive}
use in_memory_db.Command.{Command, set, get, del, exists, ping, lpush, lrange, hset, hget}
use in_memory_db.Command.Execute.Lists.{as_list}
use in_memory_db.Command.Execute.Hashes.{as_hash}

abbrev pub Contents : Type 0
Contents = Bytes → Option CacheAlignedValue

abbrev pub update : Contents → Bytes → CacheAlignedValue → Contents
update m k v j = if bytes_eq k j then some v else m j

-- DEL marks the entry of its key.
abbrev pub mark : Contents → Bytes → Option CacheAlignedValue → Contents
mark m k none = m
mark m k (some v) = update m k (bury v)

-- LPUSH starts a list, or adds to the end of the one that is alive.
abbrev pub append_to : Contents → Bytes → Bytes → CacheAlignedValue → Option (List Bytes) → Contents
append_to m k v e none = m
append_to m k v e (some l) = update m k (record e { value = list (l ++ v ∷ []) })

-- HSET starts a hash, or sets a field of the one that is alive.
abbrev pub put_in :
    Contents → Bytes → Bytes → Bytes → CacheAlignedValue → Option (Dict Bytes Bytes) → Contents
put_in m k f v e none = m
put_in m k f v e (some h) = update m k (record e { value = hash (insert_or_assign f v h) })

-- What a command does to the database at a time.
unfoldable pub apply : ℕ → Command → Contents → Contents
apply now (set k v t) m = update m k (new_value now (string v) t)
apply now (del k) m = mark m k (m k)
apply now (lpush k v t) m = elim (alive now (m k)) [
  | none ↦ update m k (new_value now (list (v ∷ [])) t)
  | some e ↦ append_to m k v e (as_list e.value)
]
apply now (hset k f v t) m = elim (alive now (m k)) [
  | none ↦ update m k (new_value now (hash (insert_or_assign f v [])) t)
  | some e ↦ put_in m k f v e (as_hash e.value)
]
apply now c m = m

-- The key that a command names.
unfoldable pub key_of : Command → Bytes
key_of (set k v t) = k
key_of (get k) = k
key_of (del k) = k
key_of (exists k) = k
key_of ping = []
key_of (lpush k v t) = k
key_of (lrange k s e) = k
key_of (hset k f v t) = k
key_of (hget k f) = k

-- In the contract, a command changes the entry of its own key only.
pub apply_frame :
    (now : ℕ) (c : Command) (m : Contents) (j : Bytes)
    → bytes_eq (key_of c) j ≡ false
    → apply now c m j ≡ m j
unfolding apply key_of
apply_frame now (set k v t) m j h = ground arith
apply_frame now (del k) m j h = ground arith
apply_frame now (lpush k v t) m j h = elim (Option-cases (alive now (m k))) [
  | inl e ↦ ground (arith, e)
  | inr (x, e) ↦ ground (arith, e)
]
apply_frame now (hset k f v t) m j h = elim (Option-cases (alive now (m k))) [
  | inl e ↦ ground (arith, e)
  | inr (x, e) ↦ ground (arith, e)
]
apply_frame now c m j h = refl

-- What it makes of an entry depends on that entry and on the one of its key.
pub apply_local :
    (now : ℕ) (c : Command) (m n : Contents) (j : Bytes)
    → m (key_of c) ≡ n (key_of c)
    → m j ≡ n j
    → apply now c m j ≡ apply now c n j
unfolding apply key_of
apply_local now (set k v t) m n j h e = ground arith
apply_local now (del k) m n j h e = ground arith
apply_local now (lpush k v t) m n j h e = elim (Option-cases (alive now (m k))) [
  | inl x ↦ ground (arith, x, ap (alive now) h)
  | inr (y, x) ↦ ground (arith, x, ap (alive now) h)
]
apply_local now (hset k f v t) m n j h e = elim (Option-cases (alive now (m k))) [
  | inl x ↦ ground (arith, x, ap (alive now) h)
  | inr (y, x) ↦ ground (arith, x, ap (alive now) h)
]
apply_local now c m n j h e = e
