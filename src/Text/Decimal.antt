-- ===== src/Text/Decimal.antt =====
-- Numbers as text: std::to_string, std::stoll and std::stoull (base 10).
pub mod Token
pub mod Unsigned
use in_memory_db.Base.{
  ℕ, zero, suc, ◌+◌, ◌-◌, ◌*◌, ◌/◌, ◌%◌, ◌^◌, ◌≤◌, ◌<◌, ◌≡◌, refl, Bool, true, false, Option, none,
  some, [], ◌∷◌, arith, ltb, leb, ◌==◌, if◌then◌else◌, Option-cases, inl, inr,
}
use in_memory_db.Base.Int.{ℤ, pos, negsuc, pos_part, neg_part}
use in_memory_db.Text.{Bytes, codes, is_digit, is_space}

-- The digits of a number, the last first; a number has fewer digits than its successor.
emit : ℕ → ℕ → Bytes → Bytes
emit zero n out = out
emit (suc fuel) n out =
    let rest = emit fuel (n / 10) ((b'0' + n % 10) ∷ out) in
    if ltb n 10 then (b'0' + n) ∷ out else rest

unfoldable pub decimal : ℕ → Bytes
unfolding emit
decimal n = emit (suc n) n []

-- std::to_string of a size_t or of an int64_t
unfoldable pub to_string : ℤ → Bytes
to_string (pos n) = decimal n
to_string (negsuc n) = b'-' ∷ decimal (suc n)

-- The value of the longest prefix of digits.
scan : ℕ → Bytes → ℕ
unfolding is_digit
scan acc [] = acc
scan acc (c ∷ s) = let rest = scan (acc * 10 + (c - b'0')) s in if is_digit c then rest else acc

starts_digit : Bytes → Bool
unfolding is_digit
starts_digit [] = false
starts_digit (c ∷ s) = is_digit c

magnitude : Bytes → Option ℕ
unfolding scan starts_digit
magnitude s = if starts_digit s then some (scan 0 s) else none

skip_space : Bytes → Bytes
unfolding is_space
skip_space [] = []
skip_space (c ∷ s) = let rest = skip_space s in if is_space c then rest else c ∷ s

-- A sign and the number behind it: whether it is negative, and how large.
signed : Bytes → Option (Bool × ℕ)
unfolding magnitude
signed [] = none
signed (c ∷ s) =
    if c == b'-'
    then (elim (magnitude s) [ none ↦ none | some n ↦ some (true, n) ])
    else if c == b'+'
    then (elim (magnitude s) [ none ↦ none | some n ↦ some (false, n) ])
    else (elim (magnitude (c ∷ s)) [ none ↦ none | some n ↦ some (false, n) ])

negate : ℕ → ℤ
negate zero = pos 0
negate (suc n) = negsuc n

in_int64 : Bool → ℕ → Option ℤ
unfolding negate
in_int64 true n = if leb n (2 ^ 63) then some (negate n) else none
in_int64 false n = if ltb n (2 ^ 63) then some (pos n) else none

-- `none` stands for the exceptions std::invalid_argument and std::out_of_range.
unfoldable pub stoll : Bytes → Option ℤ
unfolding skip_space signed in_int64
stoll s = elim (signed (skip_space s)) [ none ↦ none | some (sign, n) ↦ in_int64 sign n ]

-- A negative number is taken modulo 2 ^ 64, as strtoull does.
in_uint64 : Bool → ℕ → Option ℕ
in_uint64 sign n = if ltb n (2 ^ 64) then some (if sign then (2 ^ 64 - n) % 2 ^ 64 else n) else none

unfoldable pub stoull : Bytes → Option ℕ
unfolding skip_space signed in_uint64
stoull s = elim (signed (skip_space s)) [ none ↦ none | some (sign, n) ↦ in_uint64 sign n ]

-- The range of int64_t.
abbrev pub IsInt64 : ℤ → Type 0
IsInt64 z = (pos_part z < 2 ^ 63) × (neg_part z ≤ 2 ^ 63)

scan-emit : (fuel n : ℕ) (out : Bytes) → n < fuel → scan 0 (emit fuel n out) ≡ scan n out
unfolding emit scan
scan-emit zero n out h = absurd (omega arith)
scan-emit (suc fuel) n out h = ground (arith, scan-emit fuel (n / 10) ((b'0' + n % 10) ∷ out))

starts_digit-emit : (fuel n : ℕ) (out : Bytes) → n < fuel → starts_digit (emit fuel n out) ≡ true
unfolding emit starts_digit
starts_digit-emit zero n out h = absurd (omega arith)
starts_digit-emit (suc fuel) n out h =
    ground (arith, starts_digit-emit fuel (n / 10) ((b'0' + n % 10) ∷ out))

starts_digit-decimal : (n : ℕ) → starts_digit (decimal n) ≡ true
unfolding decimal
starts_digit-decimal n = starts_digit-emit (suc n) n [] (omega arith)

magnitude-decimal : (n : ℕ) → magnitude (decimal n) ≡ some n
unfolding magnitude
magnitude-decimal n =
    rw (starts_digit-decimal n) (unfold decimal in rw (scan-emit (suc n) n [] (omega arith)))

-- A text that starts with a digit has no blank and no sign to skip.
signed-skip_space :
    (s : Bytes) (n : ℕ)
    → starts_digit s ≡ true
    → magnitude s ≡ some n
    → signed (skip_space s) ≡ some (false, n)
unfolding starts_digit skip_space signed is_digit is_space
signed-skip_space [] n h e = cc
signed-skip_space (c ∷ s) n h e = ground arith

-- Every int64_t is read back from its text.
pub stoll-to_string : (z : ℤ) → IsInt64 z → stoll (to_string z) ≡ some z
unfolding stoll to_string
stoll-to_string (pos n) h =
    ground (arith, signed-skip_space (decimal n) n (starts_digit-decimal n) (magnitude-decimal n))
stoll-to_string (negsuc n) h = ground (arith, magnitude-decimal (suc n))

in_int64-IsInt64 : (sign : Bool) (n : ℕ) (z : ℤ) → in_int64 sign n ≡ some z → IsInt64 z
unfolding in_int64 negate
in_int64-IsInt64 true zero z h = ground arith
in_int64-IsInt64 true (suc n) z h = ground arith
in_int64-IsInt64 false n z h = ground arith

-- Whatever stoll returns is an int64_t.
pub stoll-IsInt64 : (s : Bytes) (z : ℤ) → stoll s ≡ some z → IsInt64 z
unfolding stoll
stoll-IsInt64 s z h = elim (Option-cases (signed (skip_space s))) [
  | inl e ↦ cc (h, e)
  | inr ((sign, n), e) ↦ in_int64-IsInt64 sign n z (rw (e, stoll) at h)
]

samples :
    (stoll (codes " -42x") ≡ some (negsuc 41))
    × (stoll (codes "9223372036854775808") ≡ none)
    × (stoll (codes "-9223372036854775808") ≡ some (negsuc (2 ^ 63 - 1)))
    × (stoll (codes "x1") ≡ none)
    × (stoull (codes "-1") ≡ some (2 ^ 64 - 1))
    × (to_string (negsuc 86399) ≡ codes "-86400")
unfolding stoll stoull to_string decimal
samples = (refl, refl, refl, refl, refl, refl)
