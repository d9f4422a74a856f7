-- ===== src/Router/Index.antt =====
-- Which shard counts are accepted, and where keys go.
use Prim.Native.Nat.{bit_and}
use native.Mathlib.Nat.{pow-suc, mod_self, mod-lt}
use in_memory_db.Base.{
  ℕ, zero, suc, ◌+◌, ◌-◌, ◌/◌, ◌%◌, ◌^◌, ◌≤◌, ◌<◌, ◌≡◌, refl, ◌↔◌, true, false, some, arith, length,
  length-replicate, replicate, ◌==◌, ==_iff, is_some, Bool-cases, inl, inr, sym, ap, ◌∙◌,
}
use in_memory_db.Base.Bits.{bit_and_step, bit_and_mask, pow_pos}
use in_memory_db.Text.{Bytes}
use in_memory_db.Hasher.{murmur_hash3}
use in_memory_db.Shard
use in_memory_db.Router.{ShardRouter, new_router, shard_index}

bit_and_self_fuel : (n a : ℕ) → a ≤ n → bit_and a a ≡ a
bit_and_self_fuel n zero h = refl
bit_and_self_fuel zero (suc a) h = absurd (omega arith)
bit_and_self_fuel (suc n) (suc a) h =
    omega (arith, bit_and_step (suc a) (suc a), bit_and_self_fuel n (suc a / 2) (omega arith))

odd_power : (n : ℕ) → n % 2 ≡ 1 → bit_and n (n - 1) ≡ 0 → n ≡ 1
odd_power n o e =
    let down : (n - 1) / 2 ≡ n / 2 = omega arith in
    omega (
      arith,
      bit_and_step n (n - 1),
      ap (bit_and (n / 2)) down,
      bit_and_self_fuel (n / 2) (n / 2) (omega arith),
    )

even_power : (n : ℕ) → n % 2 ≡ 0 → 0 < n → bit_and n (n - 1) ≡ 0 → bit_and (n / 2) (n / 2 - 1) ≡ 0
even_power n o p e =
    let down : (n - 1) / 2 ≡ n / 2 - 1 = omega arith in
    omega (arith, bit_and_step n (n - 1), ap (bit_and (n / 2)) down)

double_power : (n : ℕ) → n % 2 ≡ 0 → (k : ℕ) × (n / 2 ≡ 2 ^ k) → (k : ℕ) × (n ≡ 2 ^ k)
double_power n o (k, e) = (suc k, omega (arith, pow-suc 2 k))

odd_of : (n : ℕ) → (n % 2 == 0) ≡ false → n % 2 ≡ 1
odd_of n h = ground arith

-- n & (n - 1) is 0 for a power of two only.
power_of_two_fuel : (f n : ℕ) → n ≤ f → 0 < n → bit_and n (n - 1) ≡ 0 → (k : ℕ) × (n ≡ 2 ^ k)
power_of_two_fuel zero n h p e = absurd (omega arith)
power_of_two_fuel (suc f) n h p e = elim (Bool-cases (n % 2 == 0)) [
  | inl even ↦
      let o : n % 2 ≡ 0 = (==_iff _ _).0 even in
      double_power n o
        (power_of_two_fuel f (n / 2) (omega arith) (omega arith) (even_power n o p e))
  | inr odd ↦ (0, odd_power n (odd_of n odd) e)
]

wrapped_pred : (n : ℕ) → 0 < n → n < 2 ^ 64 → (n + 2 ^ 64 - 1) % 2 ^ 64 ≡ n - 1
wrapped_pred n p h = omega arith

only_powers :
    (total n : ℕ) → n < 2 ^ 64 → is_some (new_router total n) ≡ true → (k : ℕ) × (n ≡ 2 ^ k)
unfolding new_router
only_powers total n h e =
    let pos : 0 < n = ground arith in
    let zero_and : bit_and n ((n + 2 ^ 64 - 1) % 2 ^ 64) ≡ 0 = ground arith in
    power_of_two_fuel n n (omega arith) pos (rw (wrapped_pred n pos h) at zero_and)

powers : (total n k : ℕ) → n < 2 ^ 64 → n ≡ 2 ^ k → is_some (new_router total n) ≡ true
unfolding new_router
powers total n k h e =
    let pos : 0 < n = omega (arith, pow_pos k) in
    let masked : bit_and n (n - 1) ≡ 0 =
      ap (λ (t : ℕ). bit_and n (t - 1)) e ∙ bit_and_mask k n ∙ rw e (mod_self (2 ^ k)) in
    ground (arith, masked, ap (bit_and n) (wrapped_pred n pos h))

-- The constructor accepts a shard count that a size_t holds exactly if it is a power of two.
pub new_router_accepts :
    (total n : ℕ) → n < 2 ^ 64 → (is_some (new_router total n) ≡ true) ↔ ((k : ℕ) × (n ≡ 2 ^ k))
new_router_accepts total n h = (only_powers total n h, λ (k, e). powers total n k h e)

-- How a router is laid out: a power of two of shards, and the mask that selects one.
pub record IsRouted (r : ShardRouter) : Type 0 where
  pub bits : ℕ
  pub count : r.shard_count ≡ 2 ^ bits
  pub mask : r.shard_mask ≡ 2 ^ bits - 1
  pub shards : length r.shards ≡ 2 ^ bits

pub new_router-IsRouted :
    (total n : ℕ) (r : ShardRouter) → n < 2 ^ 64 → new_router total n ≡ some r → IsRouted r
unfolding new_router
new_router-IsRouted total n r h e =
    let accepted : is_some (new_router total n) ≡ true = rw e in
    let (k, n_eq) = only_powers total n h accepted in
    let pos : 0 < n = omega (arith, pow_pos k) in
    record {
      bits = k;
      count = ground (arith, n_eq);
      mask = ground (arith, n_eq, wrapped_pred n pos h);
      shards = ground (arith, n_eq, length-replicate n (Shard.new_shard (total / n)));
    }

pub shards-new_router :
    (total n : ℕ) (r : ShardRouter)
    → new_router total n ≡ some r
    → r.shards ≡ replicate n (Shard.new_shard (total / n))
unfolding new_router
shards-new_router total n r e = ground arith

-- On a router that is laid out as its constructor does it, the mask selects what the remainder by
-- the number of shards would, and there is a shard at that index.
pub shard_index-mod :
    (r : ShardRouter) (key : Bytes)
    → IsRouted r
    → (shard_index r key ≡ murmur_hash3 key 0 % r.shard_count)
      × (shard_index r key < length r.shards)
unfolding shard_index
shard_index-mod r key w =
    let low : shard_index r key ≡ murmur_hash3 key 0 % 2 ^ w.bits =
      ap (bit_and (murmur_hash3 key 0)) w.mask ∙ bit_and_mask w.bits (murmur_hash3 key 0) in
    (
      low ∙ ap (λ (t : ℕ). murmur_hash3 key 0 % t) (sym w.count),
      omega (arith, low, mod-lt (murmur_hash3 key 0) (pow_pos w.bits), w.shards),
    )
