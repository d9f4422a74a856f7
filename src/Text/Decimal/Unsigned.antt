-- ===== src/Text/Decimal/Unsigned.antt =====
-- The decimal text of an unsigned number, as std::stoull and std::toupper see it.
use in_memory_db.Base.{ℕ, zero, suc, ◌+◌, ◌/◌, ◌%◌, ◌^◌, ◌<◌, ◌≡◌, refl, some, [], ◌∷◌, map, arith}
use in_memory_db.Text.{Bytes, toupper}
use in_memory_db.Text.Decimal.{
  emit, decimal, stoull, signed-skip_space, starts_digit-decimal, magnitude-decimal, in_uint64,
}

pub stoull-decimal : (n : ℕ) → n < 2 ^ 64 → stoull (decimal n) ≡ some n
unfolding stoull in_uint64
stoull-decimal n h =
    ground (arith, signed-skip_space (decimal n) n (starts_digit-decimal n) (magnitude-decimal n))

map-emit :
    (fuel n : ℕ) (out : Bytes)
    → map toupper out ≡ out
    → map toupper (emit fuel n out) ≡ emit fuel n out
unfolding emit toupper
map-emit zero n out h = h
map-emit (suc fuel) n out h = ground (arith, map-emit fuel (n / 10) ((b'0' + n % 10) ∷ out), h)

-- Digits are in upper case.
pub map-toupper-decimal : (n : ℕ) → map toupper (decimal n) ≡ decimal n
unfolding decimal
map-toupper-decimal n = map-emit (suc n) n [] refl
