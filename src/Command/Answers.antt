-- ===== src/Command/Answers.antt =====
-- The replies of the commands, against those that the contract gives.
use in_memory_db.Base.{
  ℕ, suc, ◌≡◌, refl, Bool, true, false, ◌⊎◌, inl, inr, Option, none, some, List, [], ◌∷◌, ◌++◌,
  arith, map, length, length-append, if◌then◌else◌, Option-cases, Bool-cases,
}
use in_memory_db.Base.Int.{ℤ}
use in_memory_db.Text.{Bytes, bytes_HasEq}
use in_memory_db.Dict.{find, contains}
use in_memory_db.Memory.{perform, is_hard_limit_reached}
use in_memory_db.Value.{CacheAlignedValue}
use in_memory_db.Shard
use in_memory_db.Shard.{Shard, Env, render, is_dead}
use in_memory_db.Shard.View.{alive}
use in_memory_db.Router
use in_memory_db.Router.{ShardRouter, on_shard, shard_for_key}
use in_memory_db.Router.Index.{IsRouted}
use in_memory_db.Router.Contract.{shard_exists, on_shard_result}
use in_memory_db.Command.{Command, set, get, del, exists, ping, lpush, lrange, hset, hget}
use in_memory_db.Command.Reply.{
  ok_reply, pong_reply, nil_reply, oom_reply, wrong_type_reply, integer_reply, bulk_reply,
  array_header,
}
use in_memory_db.Command.Execute.{act, read_shard}
use in_memory_db.Command.Execute.Lists.{as_list, find_live, lpush_entry, lpush_shard, lrange_shard}
use in_memory_db.Command.Execute.Lists.Ranges.{slice, concat, range_reply-slice}
use in_memory_db.Command.Execute.Hashes.{as_hash, hset_entry, hset_shard, hget_shard}
use in_memory_db.Command.Spec.{key_of}
use in_memory_db.Command.Refinement.{contents}

-- An array of bulk strings.
abbrev pub array_reply : List Bytes → Bytes
array_reply l = array_header (length l) ++ concat (map bulk_reply l)

-- What a command answers at a time, by the entry of its key.
pub answer : ℕ → Command → Option CacheAlignedValue → Bytes
answer now (set k v t) o = ok_reply
answer now (get k) o = elim (alive now o) [
  | none ↦ nil_reply
  | some e ↦ bulk_reply (render e.value)
]
answer now (del k) o = elim o [
  | none ↦ integer_reply 0
  | some e ↦ if e.tombstoned then integer_reply 0 else integer_reply 1
]
answer now (exists k) o = elim (alive now o) [ none ↦ integer_reply 0 | some e ↦ integer_reply 1 ]
answer now ping o = pong_reply
answer now (lpush k v t) o = elim (alive now o) [
  | none ↦ integer_reply 1
  | some e ↦ elim (as_list e.value) [
    | none ↦ wrong_type_reply
    | some l ↦ integer_reply (suc (length l))
  ]
]
answer now (lrange k i j) o = elim (alive now o) [
  | none ↦ array_header 0
  | some e ↦ elim (as_list e.value) [ none ↦ wrong_type_reply | some l ↦ array_reply (slice l i j) ]
]
answer now (hset k f v t) o = elim (alive now o) [
  | none ↦ integer_reply 1
  | some e ↦ elim (as_hash e.value) [
    | none ↦ wrong_type_reply
    | some h ↦ integer_reply (if contains f h then 0 else 1)
  ]
]
answer now (hget k f) o = elim (alive now o) [
  | none ↦ nil_reply
  | some e ↦ elim (as_hash e.value) [
    | none ↦ wrong_type_reply
    | some h ↦ elim (find f h) [ none ↦ nil_reply | some v ↦ bulk_reply v ]
  ]
]

-- The commands that ask for memory.
pub can_be_refused : Command → Bool
can_be_refused (set k v t) = true
can_be_refused (lpush k v t) = true
can_be_refused (hset k f v t) = true
can_be_refused c = false

lpush_entry_reply :
    (now : ℕ) (k v : Bytes) (t : ℤ) (s : Shard)
    → (lpush_entry now k v t s).1.1 ≡ answer now (lpush k v t) (find k s.entries)
unfolding lpush_entry answer find_live
lpush_entry_reply now k v t s = elim (Option-cases (alive now (find k s.entries))) [
  | inl e ↦ ground (arith, e)
  | inr (x, e) ↦ elim (Option-cases (as_list x.value)) [
    | inl w ↦ ground (arith, e, w)
    | inr (l, w) ↦ ground (arith, e, w, length-append l (v ∷ []))
  ]
]

hset_entry_reply :
    (now : ℕ) (k f v : Bytes) (t : ℤ) (s : Shard)
    → (hset_entry now k f v t s).1.1 ≡ answer now (hset k f v t) (find k s.entries)
unfolding hset_entry answer find_live
hset_entry_reply now k f v t s = elim (Option-cases (alive now (find k s.entries))) [
  | inl e ↦ ground (arith, e)
  | inr (x, e) ↦ elim (Option-cases (as_hash x.value)) [
    | inl w ↦ ground (arith, e, w)
    | inr (h, w) ↦ ground (arith, e, w)
  ]
]

lrange_shard_reply :
    (now : ℕ) (k : Bytes) (i j : ℤ) (s : Shard)
    → lrange_shard now k i j s ≡ answer now (lrange k i j) (find k s.entries)
unfolding lrange_shard answer find_live
lrange_shard_reply now k i j s = elim (Option-cases (alive now (find k s.entries))) [
  | inl e ↦ ground (arith, e)
  | inr (x, e) ↦ elim (Option-cases (as_list x.value)) [
    | inl w ↦ ground (arith, e, w)
    | inr (l, w) ↦ rw (e, lrange_shard, answer, w) (range_reply-slice l i j)
  ]
]

hget_shard_reply :
    (now : ℕ) (k f : Bytes) (s : Shard)
    → hget_shard now k f s ≡ answer now (hget k f) (find k s.entries)
unfolding hget_shard answer find_live
hget_shard_reply now k f s = ground arith

-- The reply of the contract, or a refusal that changes nothing in the map of entries.
abbrev pub IsAnswer : ℕ → Command → Option CacheAlignedValue → Bool × Bytes → Type 0
IsAnswer now c o (changed, reply) =
    (reply ≡ answer now c o) ⊎ ((can_be_refused c ≡ true) × (changed ≡ false) × (reply ≡ oom_reply))

lpush_shard_reply :
    (env : Env) (k v : Bytes) (t : ℤ) (s : Shard)
    → IsAnswer env.now (lpush k v t) (find k s.entries) (lpush_shard env k v t s).1
unfolding lpush_shard can_be_refused
lpush_shard_reply env k v t s = elim (Bool-cases (is_hard_limit_reached s.arena)) [
  | inl e ↦ rw (e, lpush_shard) (inr (refl, refl, refl))
  | inr e ↦ elim (Bool-cases (perform env.traffic s.arena).1) [
    | inl d ↦
        rw (e, lpush_shard, d)
          (inl (
            lpush_entry_reply env.now k v t (record s { arena = (perform env.traffic s.arena).0 })))
    | inr d ↦ rw (e, lpush_shard, d) (inr (refl, refl, refl))
  ]
]

hset_shard_reply :
    (env : Env) (k f v : Bytes) (t : ℤ) (s : Shard)
    → IsAnswer env.now (hset k f v t) (find k s.entries) (hset_shard env k f v t s).1
unfolding hset_shard can_be_refused
hset_shard_reply env k f v t s = elim (Bool-cases (is_hard_limit_reached s.arena)) [
  | inl e ↦ rw (e, hset_shard) (inr (refl, refl, refl))
  | inr e ↦ elim (Bool-cases (perform env.traffic s.arena).1) [
    | inl d ↦
        rw (e, hset_shard, d)
          (inl (
            hset_entry_reply env.now k f v t
              (record s { arena = (perform env.traffic s.arena).0 })))
    | inr d ↦ rw (e, hset_shard, d) (inr (refl, refl, refl))
  ]
]

get_reply_lem :
    (now : ℕ) (k : Bytes) (s : Shard)
    → (elim (Shard.get now k s) [ none ↦ nil_reply | some x ↦ bulk_reply x ])
      ≡ answer now (get k) (find k s.entries)
unfolding Shard.get answer
get_reply_lem now k s = ground arith

del_reply_lem :
    (now : ℕ) (k : Bytes) (s : Shard)
    → integer_reply (if (Shard.del k s).1 then 1 else 0) ≡ answer now (del k) (find k s.entries)
unfolding Shard.del answer
del_reply_lem now k s = ground arith

exists_reply_lem :
    (now : ℕ) (k : Bytes) (s : Shard)
    → integer_reply (if Shard.exists now k s then 1 else 0)
      ≡ answer now (exists k) (find k s.entries)
unfolding Shard.exists answer is_dead
exists_reply_lem now k s = ground arith

-- On a router that is laid out as its constructor does it, each command answers what the contract
-- gives by the entry of its key: the value, the elements of the list from one index to another, the
-- field, the new length, whether something was removed, is there or is new, or the error for a value
-- of another kind. Only SET, LPUSH and HSET may instead answer that there is no memory, and then
-- report no change.
pub act-IsAnswer :
    (env : Env) (c : Command) (r : ShardRouter)
    → IsRouted r
    → IsAnswer env.now c (contents r (key_of c)) (act env c r).1
unfolding act answer key_of contents Router.set Router.del Router.get Router.exists can_be_refused
    read_shard
act-IsAnswer env (set k v t) r w = elim (Bool-cases (Router.set env k v t r).1) [
  | inl e ↦ rw (act, Router.set, e) (inl refl)
  | inr e ↦ rw (act, Router.set, e) (inr (refl, refl, refl))
]
act-IsAnswer env (get k) r w =
    let (s, found) = shard_exists r k w in
    rw (act, Router.get, found, contents) (inl (get_reply_lem env.now k s))
act-IsAnswer env (del k) r w =
    let (s, found) = shard_exists r k w in
    rw (on_shard_result k false (Shard.del k) r s found, found, contents)
      (inl (del_reply_lem env.now k s))
act-IsAnswer env (exists k) r w =
    let (s, found) = shard_exists r k w in
    rw (act, Router.exists, found, contents) (inl (exists_reply_lem env.now k s))
act-IsAnswer env ping r w = inl refl
act-IsAnswer env (lpush k v t) r w =
    let (s, found) = shard_exists r k w in
    rw (on_shard_result k (false, []) (lpush_shard env k v t) r s found, found, contents)
      (lpush_shard_reply env k v t s)
act-IsAnswer env (lrange k i j) r w =
    let (s, found) = shard_exists r k w in
    rw (act, read_shard, found, contents) (inl (lrange_shard_reply env.now k i j s))
act-IsAnswer env (hset k f v t) r w =
    let (s, found) = shard_exists r k w in
    rw (on_shard_result k (false, []) (hset_shard env k f v t) r s found, found, contents)
      (hset_shard_reply env k f v t s)
act-IsAnswer env (hget k f) r w =
    let (s, found) = shard_exists r k w in
    rw (act, read_shard, found, contents) (inl (hget_shard_reply env.now k f s))
