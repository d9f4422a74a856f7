-- ===== src/Command/Refinement.antt =====
-- The shards implement the map of the contract.
use in_memory_db.Base.{
  ℕ, ◌≡◌, refl, Bool, false, none, some, [], ◌∷◌, ◌++◌, arith, ◌==◌, if◌then◌else◌, Option-cases,
  Bool-cases, ==_iff, inl, inr, sym, ap, ◌∙◌,
}
use mathlib.Core.Bool.{false≢true}
use in_memory_db.Base.Int.{ℤ}
use in_memory_db.Text.{Bytes, bytes_eq, bytes_eq_iff, bytes_HasEq}
use in_memory_db.Dict.{find, insert_or_assign}
use in_memory_db.Dict.Laws.{find-insert_or_assign}
use in_memory_db.Memory.{perform}
use in_memory_db.Value.{new_value, string, list, hash}
use in_memory_db.Shard
use in_memory_db.Shard.{Shard, Env, bury, is_dead}
use in_memory_db.Shard.View.{alive}
use in_memory_db.Router
use in_memory_db.Router.{ShardRouter, on_shard, shard_for_key, shard_index}
use in_memory_db.Router.Index.{IsRouted}
use in_memory_db.Router.Contract.{
  shard_exists, shard_for_key_same, shard_for_key-on_shard, on_shard_result, on_shard-IsRouted,
}
use in_memory_db.Command.{Command, set, del, lpush, hset}
use in_memory_db.Command.Execute.{act}
use in_memory_db.Command.Execute.Lists.{lpush_shard, lpush_entry, as_list, find_live}
use in_memory_db.Command.Execute.Hashes.{hset_shard, hset_entry, as_hash}
use in_memory_db.Command.Spec.{Contents, apply, key_of, apply_frame, apply_local}

-- The entry that the router holds for a key.
unfoldable pub contents : ShardRouter → Contents
contents r key = elim (shard_for_key r key) [ none ↦ none | some s ↦ find key s.entries ]

-- Each write, on the shard of its key: it gives the key of the contract, or changes no entry.
pub shard_contents : Shard → Contents
shard_contents s j = find j s.entries

set-refines :
    (env : Env) (k v : Bytes) (t : ℤ) (s : Shard) (j : Bytes)
    → shard_contents (Shard.set env k v t s).0 j ≡ (
        if (Shard.set env k v t s).1
        then apply env.now (set k v t) (shard_contents s) j
        else shard_contents s j)
unfolding shard_contents Shard.set Shard.store_entry apply
set-refines env k v t s j =
    ground (arith, find-insert_or_assign k j (new_value env.now (string v) t) s.entries)

lpush_entry-refines :
    (now : ℕ) (k v : Bytes) (t : ℤ) (s : Shard) (j : Bytes)
    → shard_contents (lpush_entry now k v t s).0 j ≡ (
        if (lpush_entry now k v t s).1.0
        then apply now (lpush k v t) (shard_contents s) j
        else shard_contents s j)
unfolding shard_contents lpush_entry apply
lpush_entry-refines now k v t s j = elim (Option-cases (alive now (find k s.entries))) [
  | inl e ↦ ground (arith, e, find-insert_or_assign k j (new_value now (list (v ∷ [])) t) s.entries)
  | inr (x, e) ↦ elim (Option-cases (as_list x.value)) [
    | inl w ↦ ground (arith, e, w)
    | inr (l, w) ↦
        ground (
          arith,
          e,
          w,
          find-insert_or_assign k j (record x { value = list (l ++ v ∷ []) }) s.entries,
        )
  ]
]

lpush-refines :
    (env : Env) (k v : Bytes) (t : ℤ) (s : Shard) (j : Bytes)
    → shard_contents (lpush_shard env k v t s).0 j ≡ (
        if (lpush_shard env k v t s).1.0
        then apply env.now (lpush k v t) (shard_contents s) j
        else shard_contents s j)
unfolding shard_contents lpush_shard
lpush-refines env k v t s j = ground (
  arith,
  lpush_entry-refines env.now k v t (record s { arena = (perform env.traffic s.arena).0 }) j,
)

hset_entry-refines :
    (now : ℕ) (k f v : Bytes) (t : ℤ) (s : Shard) (j : Bytes)
    → shard_contents (hset_entry now k f v t s).0 j ≡ (
        if (hset_entry now k f v t s).1.0
        then apply now (hset k f v t) (shard_contents s) j
        else shard_contents s j)
unfolding shard_contents hset_entry apply find_live
hset_entry-refines now k f v t s j = elim (Option-cases (alive now (find k s.entries))) [
  | inl e ↦ ground (
    arith,
    e,
    find-insert_or_assign k j (new_value now (hash (insert_or_assign f v [])) t) s.entries,
  )
  | inr (x, e) ↦ elim (Option-cases (as_hash x.value)) [
    | inl w ↦ ground (arith, e, w)
    | inr (h, w) ↦ ground (
      arith,
      e,
      w,
      find-insert_or_assign k j (record x { value = hash (insert_or_assign f v h) }) s.entries,
    )
  ]
]

hset-refines :
    (env : Env) (k f v : Bytes) (t : ℤ) (s : Shard) (j : Bytes)
    → shard_contents (hset_shard env k f v t s).0 j ≡ (
        if (hset_shard env k f v t s).1.0
        then apply env.now (hset k f v t) (shard_contents s) j
        else shard_contents s j)
unfolding shard_contents hset_shard
hset-refines env k f v t s j = ground (
  arith,
  hset_entry-refines env.now k f v t (record s { arena = (perform env.traffic s.arena).0 }) j,
)

del-refines :
    (now : ℕ) (k : Bytes) (s : Shard) (j : Bytes)
    → shard_contents (Shard.del k s).0 j
      ≡ (if (Shard.del k s).1 then apply now (del k) (shard_contents s) j else shard_contents s j)
unfolding shard_contents Shard.del apply
del-refines now k s j = elim (Option-cases (find k s.entries)) [
  | inl e ↦ ground (arith, e)
  | inr (v, e) ↦ ground (arith, e, find-insert_or_assign k j (bury v) s.entries)
]

pub contents_at :
    (r : ShardRouter) (s : Shard) (j : Bytes)
    → shard_for_key r j ≡ some s
    → contents r j ≡ shard_contents s j
unfolding contents shard_contents
contents_at r s j e = rw (e, contents)

contents_same :
    (r r' : ShardRouter) (j : Bytes)
    → shard_for_key r' j ≡ shard_for_key r j
    → contents r' j ≡ contents r j
unfolding contents
contents_same r r' j e = rw (e, contents)

-- Keys of different shards are different.
index_apart :
    (r : ShardRouter) (k j : Bytes)
    → (shard_index r k == shard_index r j) ≡ false
    → bytes_eq k j ≡ false
index_apart r k j h = elim (Bool-cases (bytes_eq k j)) [
  | inl same ↦
      absurd (false≢true (sym h ∙ (==_iff _ _).1 (ap (shard_index r) ((bytes_eq_iff k j).0 same))))
  | inr other ↦ other
]

-- From the shard of the key to the router.
module _ (now : ℕ) (c : Command) {A : Type 0} (flag : A → Bool) (missing : A) where
  on_shard-refines :
      (call : Shard → Shard × A) (r : ShardRouter) (j : Bytes)
      → IsRouted r
      → ((s : Shard)
          → shard_contents (call s).0 j
            ≡ (if flag (call s).1 then apply now c (shard_contents s) j else shard_contents s j))
      → contents (on_shard (key_of c) missing call r).0 j ≡ (
          if flag (on_shard (key_of c) missing call r).1
          then apply now c (contents r) j
          else contents r j)
  on_shard-refines call r j w h =
      let (s, found) = shard_exists r (key_of c) w in
      let after = shard_for_key-on_shard (key_of c) missing call r s j w found in
      let result = on_shard_result (key_of c) missing call r s found in
      let r' : ShardRouter = (on_shard (key_of c) missing call r).0 in
      elim (Bool-cases (shard_index r (key_of c) == shard_index r j)) [
        | inl same ↦
            let here : shard_for_key r j ≡ some s =
              sym (shard_for_key_same r (key_of c) j ((==_iff _ _).0 same)) ∙ found in
            let moved : contents r' j ≡ shard_contents (call s).0 j =
              contents_at r' (call s).0 j (rw same at after) in
            ground (
              arith,
              moved,
              result,
              h s,
              contents_at r s j here,
              apply_local now c (shard_contents s) (contents r) j
                  (sym (contents_at r s (key_of c) found)) (sym (contents_at r s j here)),
            )
        | inr other ↦
            let kept : contents r' j ≡ contents r j = contents_same r r' j (rw other at after) in
            ground
              (arith, kept, apply_frame now c (contents r) j (index_apart r (key_of c) j other))
      ]

-- On a router that is laid out as its constructor does it, the part of a command under the lock
-- does to the map of entries what the contract says, if it reports a change, and otherwise nothing.
pub act-refines :
    (env : Env) (c : Command) (r : ShardRouter) (j : Bytes)
    → IsRouted r
    → contents (act env c r).0 j
      ≡ (if (act env c r).1.0 then apply env.now c (contents r) j else contents r j)
unfolding act key_of Router.set Router.del
act-refines env (set k v t) r j w = ground (
  arith,
  on_shard-refines env.now (set k v t) (λ b. b) false (Shard.set env k v t) r j w
      (λ s. set-refines env k v t s j),
)
act-refines env (del k) r j w = ground (
  arith,
  on_shard-refines env.now (del k) (λ b. b) false (Shard.del k) r j w
      (λ s. del-refines env.now k s j),
)
act-refines env (lpush k v t) r j w =
    on_shard-refines env.now (lpush k v t) (λ o. o.0) (false, []) (lpush_shard env k v t) r j w
      (λ s. lpush-refines env k v t s j)
act-refines env (hset k f v t) r j w =
    on_shard-refines env.now (hset k f v t) (λ o. o.0) (false, []) (hset_shard env k f v t) r j w
      (λ s. hset-refines env k f v t s j)
act-refines env c r j w = refl

-- No command changes how the router is laid out.
pub act-IsRouted :
    (env : Env) (c : Command) (r : ShardRouter) → IsRouted r → IsRouted (act env c r).0
unfolding act Router.set Router.del
act-IsRouted env (set k v t) r w = on_shard-IsRouted k false (Shard.set env k v t) r w
act-IsRouted env (del k) r w = on_shard-IsRouted k false (Shard.del k) r w
act-IsRouted env (lpush k v t) r w = on_shard-IsRouted k (false, []) (lpush_shard env k v t) r w
act-IsRouted env (hset k f v t) r w = on_shard-IsRouted k (false, []) (hset_shard env k f v t) r w
act-IsRouted env c r w = w

-- On a router that is laid out as its constructor does it, a command leaves the entry of every key
-- but its own as it was, in its shard and in all others.
pub act_frame :
    (env : Env) (c : Command) (r : ShardRouter) (j : Bytes)
    → IsRouted r
    → bytes_eq (key_of c) j ≡ false
    → contents (act env c r).0 j ≡ contents r j
act_frame env c r j w h = elim (Bool-cases (act env c r).1.0) [
  | inl e ↦ act-refines env c r j w ∙ rw e (apply_frame env.now c (contents r) j h)
  | inr e ↦ act-refines env c r j w ∙ rw e refl
]
