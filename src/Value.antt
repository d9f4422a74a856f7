-- ===== src/Value.antt =====
-- app/include/memory/variant_type.h, app/src/memory/variant_type.cpp: the stored values. A point of
-- steady_clock is its count of nanoseconds, and a duration between two points is not negative.
pub mod Expiry
pub mod Usage
use in_memory_db.Base.{
  ℕ, ◌+◌, ◌-◌, ◌*◌, ◌/◌, Bool, true, false, Option, none, some, List, leb, if◌then◌else◌,
}
use in_memory_db.Base.Int.{ℤ, pos, negsuc}
use in_memory_db.Text.{Bytes}
use in_memory_db.Dict.{Dict}

pub data ValueVariant : Type 0 where
  string : Bytes → ValueVariant
  integer : ℤ → ValueVariant
  list : List Bytes → ValueVariant
  hash : Dict Bytes Bytes → ValueVariant

pub data ValueType : Type 0 where
  string_type integer_type list_type hash_type : ValueType

pub record CacheAlignedValue : Type 0 where
  pub value : ValueVariant
  pub created_at : ℕ
  pub last_accessed : ℕ
  pub ttl_seconds : ℤ
  pub tombstoned : Bool

-- The constructor, at the time `now`.
unfoldable pub new_value : ℕ → ValueVariant → ℤ → CacheAlignedValue
new_value now value ttl = record {
  value = value;
  created_at = now;
  last_accessed = now;
  ttl_seconds = ttl;
  tombstoned = false;
}

-- ValueType(data.index())
unfoldable pub type : CacheAlignedValue → ValueType
type v = elim v.value [
  | string s ↦ string_type
  | integer n ↦ integer_type
  | list l ↦ list_type
  | hash h ↦ hash_type
]

abbrev pub second : ℕ
second = 1_000_000_000

unfoldable pub expired_at : ℤ → ℕ → ℕ → Bool
expired_at (negsuc n) created now = false
expired_at (pos ttl) created now = leb ttl ((now - created) / second)

unfoldable pub is_expired : ℕ → CacheAlignedValue → Bool
unfolding expired_at
is_expired now v = expired_at v.ttl_seconds v.created_at now

pub touch : ℕ → CacheAlignedValue → CacheAlignedValue
touch now v = record v { last_accessed = now }

-- The sum in nanoseconds has to stay below 2 ^ 63: behind that the one of std::chrono is undefined.
deadline : ℤ → ℕ → Option ℕ
deadline (negsuc n) created = none
deadline (pos ttl) created = some (created + ttl * second)

-- `none` is time_point::max().
pub expiration_time : CacheAlignedValue → Option ℕ
unfolding deadline
expiration_time v = deadline v.ttl_seconds v.created_at
