-- ===== src/Value/Usage.antt =====
-- CacheAlignedValue::estimated_memory_usage: what the containers of the standard library report of
-- themselves is a parameter.
use in_memory_db.Base.{ℕ, ◌+◌, ◌*◌, ◌%◌, ◌^◌, ◌≤◌, ◌<◌, List, [], ◌∷◌, arith, length}
use in_memory_db.Text.{Bytes}
use in_memory_db.Dict.{Dict}
use in_memory_db.Value.{ValueVariant, string, integer, list, hash, CacheAlignedValue}

-- sizeof of the types, and capacity() and bucket_count() of the objects.
pub record Layout : Type 0 where
  pub sizeof_value : ℕ
  pub sizeof_string : ℕ
  pub sizeof_pointer : ℕ
  pub sizeof_pair : ℕ
  pub string_capacity : Bytes → ℕ
  pub vector_capacity : List Bytes → ℕ
  pub bucket_count : Dict Bytes Bytes → ℕ

module _ (y : Layout) where
  -- for (const auto& s : val) total += s.capacity();
  string_capacities : List Bytes → ℕ
  string_capacities [] = 0
  string_capacities (s ∷ ss) = y.string_capacity s + string_capacities ss

  -- for (const auto& [k, v] : val) total += …
  pair_capacities : Dict Bytes Bytes → ℕ
  pair_capacities [] = 0
  pair_capacities ((k, v) ∷ m) =
      y.string_capacity k + y.string_capacity v + y.sizeof_pair + pair_capacities m

  pub dynamic_usage : ValueVariant → ℕ
  dynamic_usage (string s) = y.string_capacity s
  dynamic_usage (integer n) = 0
  dynamic_usage (list l) = y.vector_capacity l * y.sizeof_string + string_capacities l
  dynamic_usage (hash h) = y.bucket_count h * y.sizeof_pointer + pair_capacities h

  pub estimated_memory_usage : CacheAlignedValue → ℕ
  estimated_memory_usage v = (y.sizeof_value + dynamic_usage v.value) % 2 ^ 64

-- The bytes that a value holds.
lengths : List Bytes → ℕ
lengths [] = 0
lengths (s ∷ ss) = length s + lengths ss

pair_lengths : Dict Bytes Bytes → ℕ
pair_lengths [] = 0
pair_lengths ((k, v) ∷ m) = length k + length v + pair_lengths m

pub payload : ValueVariant → ℕ
payload (string s) = length s
payload (integer n) = 0
payload (list l) = lengths l
payload (hash h) = pair_lengths h

module _ (y : Layout) (holds : (s : Bytes) → length s ≤ y.string_capacity s) where
  lengths-le : (l : List Bytes) → lengths l ≤ string_capacities y l
  unfolding lengths string_capacities
  lengths-le [] = omega arith
  lengths-le (s ∷ ss) = omega (arith, holds s, lengths-le ss)

  pair_lengths-le : (m : Dict Bytes Bytes) → pair_lengths m ≤ pair_capacities y m
  unfolding pair_lengths pair_capacities
  pair_lengths-le [] = omega arith
  pair_lengths-le ((k, v) ∷ m) = omega (arith, holds k, holds v, pair_lengths-le m)

  payload-le : (v : ValueVariant) → payload v ≤ dynamic_usage y v
  unfolding payload dynamic_usage
  payload-le (string s) = holds s
  payload-le (integer n) = omega arith
  payload-le (list l) = omega (arith, lengths-le l)
  payload-le (hash h) = omega (arith, pair_lengths-le h)

  -- If a string has room for what it holds, then the estimate is at least the size of a value and
  -- the bytes in it, provided the sum stays below 2 ^ 64.
  pub estimated_memory_usage-payload :
      (v : CacheAlignedValue)
      → y.sizeof_value + dynamic_usage y v.value < 2 ^ 64
      → y.sizeof_value + payload v.value ≤ estimated_memory_usage y v
  unfolding estimated_memory_usage
  estimated_memory_usage-payload v h = omega (arith, payload-le v.value)
