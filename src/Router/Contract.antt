-- ===== src/Router/Contract.antt =====
-- The router as one map over all shards: what a call on the shard of a key does to every key.
use in_memory_db.Base.{
  ℕ, zero, suc, ◌≡◌, refl, ◌<◌, Bool, true, false, Option, none, some, List, [], ◌∷◌, arith, length,
  length-set, set as set_elem, get_elem?, get_elem?-set_self, get_elem?-set_ne, set_same, ◌==◌,
  ==_iff, if◌then◌else◌, Bool-cases, Option-cases, inl, inr, ap, ◌∙◌, sym, All, All-set,
  All-get_elem?,
}
use in_memory_db.Base.Int.{ℤ}
use in_memory_db.Text.{Bytes, bytes_eq, bytes_eq_iff}
use in_memory_db.Memory.Accounting.{HasSmallRequests}
use in_memory_db.Value.{expired_at}
use in_memory_db.Shard
use in_memory_db.Shard.{Shard, Env}
use in_memory_db.Shard.Contract as Contract
use in_memory_db.Router.{ShardRouter, shard_index, shard_for_key, on_shard, set, get, del}
use in_memory_db.Router.Index.{IsRouted, shard_index-mod}

-- There is a shard for every key.
pub shard_exists :
    (r : ShardRouter) (key : Bytes) → IsRouted r → (s : Shard) × (shard_for_key r key ≡ some s)
unfolding shard_for_key
shard_exists r key w = elem r.shards (shard_index r key) (shard_index-mod r key w).1
  where
    elem : (xs : List Shard) (i : ℕ) → i < length xs → (s : Shard) × (get_elem? xs i ≡ some s)
    elem [] i h = elim h [ ]
    elem (x ∷ xs) zero h = (x, refl)
    elem (x ∷ xs) (suc i) h = elem xs i (omega arith)

pub shard_for_key_same :
    (r : ShardRouter) (i j : Bytes)
    → shard_index r i ≡ shard_index r j
    → shard_for_key r i ≡ shard_for_key r j
unfolding shard_for_key
shard_for_key_same r i j e = ap (get_elem? r.shards) e

-- Every shard is well formed, and there is one for every key.
pub record IsWellFormed (r : ShardRouter) : Type 0 where
  pub routed : IsRouted r
  pub shards : All Contract.IsWellFormed r.shards

pub IsWellFormed-shard_for_key :
    (r : ShardRouter) (key : Bytes) (s : Shard)
    → IsWellFormed r
    → shard_for_key r key ≡ some s
    → Contract.IsWellFormed s
unfolding shard_for_key
IsWellFormed-shard_for_key r key s w e =
    All-get_elem? Contract.IsWellFormed r.shards (shard_index r key) s w.shards e

module _ {A : Type 0} (key : Bytes) (missing : A) (call : Shard → Shard × A) where
  -- A call on a shard changes no other field of the router.
  pub on_shard-IsRouted : (r : ShardRouter) → IsRouted r → IsRouted (on_shard key missing call r).0
  unfolding on_shard
  on_shard-IsRouted r w = elim (Option-cases (shard_for_key r key)) [
    | inl e ↦ rw (e, on_shard) w
    | inr (s, e) ↦
        rw (e, on_shard)
          (record {
            bits = w.bits;
            count = w.count;
            mask = w.mask;
            shards = length-set r.shards (shard_index r key) (call s).0 ∙ w.shards;
          })
  ]

  pub on_shard_result :
      (r : ShardRouter) (s : Shard)
      → shard_for_key r key ≡ some s
      → (on_shard key missing call r).1 ≡ (call s).1
  unfolding on_shard
  on_shard_result r s e = rw (e, on_shard)

  -- A call that leaves its shard as it was leaves the router as it was.
  pub on_shard_same :
      (r : ShardRouter) (s : Shard)
      → shard_for_key r key ≡ some s
      → (call s).0 ≡ s
      → (on_shard key missing call r).0 ≡ r
  unfolding on_shard
  on_shard_same r s e h =
      rw (e, on_shard, h)
        (ap {B = ShardRouter} (λ xs. record r { shards = xs })
          (set_same r.shards (shard_index r key) s (unfold shard_for_key in e)))

  pub on_shard-IsWellFormed :
      (r : ShardRouter)
      → ((s : Shard) → Contract.IsWellFormed s → Contract.IsWellFormed (call s).0)
      → IsWellFormed r
      → IsWellFormed (on_shard key missing call r).0
  on_shard-IsWellFormed r keep w = record {
    routed = on_shard-IsRouted r w.routed;
    shards = elim (Option-cases (shard_for_key r key)) [
      | inl e ↦ unfold on_shard in rw (e, on_shard) w.shards
      | inr (s, e) ↦
          unfold on_shard in
          rw (e, on_shard)
            (All-set Contract.IsWellFormed r.shards (shard_index r key) (call s).0 w.shards
              (keep s (IsWellFormed-shard_for_key r key s w e)))
    ];
  }

  moved : ShardRouter → Shard → ShardRouter
  moved r s = record r { shards = set_elem r.shards (shard_index r key) (call s).0 }

  shard_for_key-moved :
      (r : ShardRouter) (s : Shard) (j : Bytes)
      → IsRouted r
      → shard_for_key (moved r s) j
        ≡ (if shard_index r key == shard_index r j then some (call s).0 else shard_for_key r j)
  unfolding shard_for_key moved shard_index
  shard_for_key-moved r s j w = elim (Bool-cases (shard_index r key == shard_index r j)) [
    | inl e ↦
        let same : shard_index r key ≡ shard_index r j = (==_iff _ _).0 e in
        let here : get_elem? (set_elem r.shards (shard_index r key) (call s).0) (shard_index r key)
            ≡ some (call s).0 =
          get_elem?-set_self r.shards (shard_index r key) (call s).0 (shard_index-mod r key w).1 in
        ground (arith, e, here, same)
    | inr e ↦
        ground
          (arith, e, get_elem?-set_ne r.shards (shard_index r key) (shard_index r j) (call s).0)
  ]

  pub shard_for_key-on_shard :
      (r : ShardRouter) (s : Shard) (j : Bytes)
      → IsRouted r
      → shard_for_key r key ≡ some s
      → shard_for_key (on_shard key missing call r).0 j
        ≡ (if shard_index r key == shard_index r j then some (call s).0 else shard_for_key r j)
  unfolding on_shard moved
  shard_for_key-on_shard r s j w e = rw (e, on_shard) (shard_for_key-moved r s j w)

  -- If a call changes what its shard answers for its own key alone, it does so for the router.
  get-on_shard :
      (r : ShardRouter) (s : Shard) (j : Bytes) (later : ℕ) (x : Option Bytes)
      → IsRouted r
      → shard_for_key r key ≡ some s
      → Shard.get later j (call s).0 ≡ (if bytes_eq key j then x else Shard.get later j s)
      → get later j (on_shard key missing call r).0 ≡ (if bytes_eq key j then x else get later j r)
  unfolding on_shard get moved
  get-on_shard r s j later x w e h =
      rw (e, on_shard)
        (elim (Bool-cases (bytes_eq key j)) [
          | inl same ↦ ground (
            arith,
            same,
            shard_for_key-moved r s j w,
            ap (shard_index r) ((bytes_eq_iff key j).0 same),
          )
          | inr other ↦
              ground (arith, other, shard_for_key-moved r s j w, shard_for_key_same r key j, e)
        ])

-- On a router that is laid out as its constructor does it, after a SET that succeeds, and whatever
-- shards the keys are in, the key reads as the new value until the ttl has passed, and every other
-- key reads as before.
pub router_get-set :
    (env : Env) (key j value : Bytes) (ttl : ℤ) (r : ShardRouter) (later : ℕ)
    → IsRouted r
    → (set env key value ttl r).1 ≡ true
    → get later j (set env key value ttl r).0 ≡ (
        if bytes_eq key j
        then (if expired_at ttl env.now later then none else some value)
        else get later j r)
unfolding set
router_get-set env key j value ttl r later w e =
    let (s, found) = shard_exists r key w in
    get-on_shard key false (Shard.set env key value ttl) r s j later _ w found (
      Contract.get-set env key j value ttl s later
        (sym (on_shard_result key false (Shard.set env key value ttl) r s found) ∙ e))

-- On a router that is laid out as its constructor does it, after a DEL the key reads as absent at
-- any time, and every other key reads as before.
pub router_get-del :
    (key j : Bytes) (r : ShardRouter) (later : ℕ)
    → IsRouted r
    → get later j (del key r).0 ≡ (if bytes_eq key j then none else get later j r)
unfolding del
router_get-del key j r later w =
    let (s, found) = shard_exists r key w in
    get-on_shard key false (Shard.del key) r s j later none w found (Contract.get-del key j s later)

-- A SET that is refused leaves a well-formed router as it was, if no request of the containers
-- exceeds the size of an object.
pub router_set_failed :
    (env : Env) (key value : Bytes) (ttl : ℤ) (r : ShardRouter)
    → IsWellFormed r
    → HasSmallRequests env.traffic
    → (set env key value ttl r).1 ≡ false
    → (set env key value ttl r).0 ≡ r
unfolding set
router_set_failed env key value ttl r w h e =
    let (s, found) = shard_exists r key w.routed in
    let call : Shard → Shard × Bool = Shard.set env key value ttl in
    let ws : Contract.IsWellFormed s = IsWellFormed-shard_for_key r key s w found in
    on_shard_same key false call r s found (
      Contract.set_failed env key value ttl s ws.within h
        (sym (on_shard_result key false call r s found) ∙ e))

pub set-IsWellFormed :
    (env : Env) (key value : Bytes) (ttl : ℤ) (r : ShardRouter)
    → IsWellFormed r
    → IsWellFormed (set env key value ttl r).0
unfolding set
set-IsWellFormed env key value ttl r =
    on_shard-IsWellFormed key false (Shard.set env key value ttl) r
      (λ s. Contract.set-IsWellFormed env key value ttl s)

pub del-IsWellFormed : (key : Bytes) (r : ShardRouter) → IsWellFormed r → IsWellFormed (del key r).0
unfolding del
del-IsWellFormed key r =
    on_shard-IsWellFormed key false (Shard.del key) r (λ s. Contract.del-IsWellFormed key s)
