-- ===== src/Text/Decimal/Token.antt =====
-- The text of a number is one token.
use in_memory_db.Base.{
  ℕ, zero, suc, ◌+◌, ◌/◌, ◌%◌, ◌≡◌, refl, true, false, [], ◌∷◌, arith, ltb, Bool-cases, inl, inr,
}
use in_memory_db.Base.Int.{ℤ, pos, negsuc}
use in_memory_db.Text.{Bytes, is_space, is_empty}
use in_memory_db.Text.Tokens.{HasNoSpace, IsToken}
use in_memory_db.Text.Decimal.{emit, decimal, to_string, starts_digit, starts_digit-decimal}

digit_no_space : (d : ℕ) → ltb d 10 ≡ true → is_space (b'0' + d) ≡ false
unfolding is_space
digit_no_space d h = ground arith

emit-HasNoSpace : (fuel n : ℕ) (out : Bytes) → HasNoSpace out → HasNoSpace (emit fuel n out)
unfolding emit
emit-HasNoSpace zero n out h = h
emit-HasNoSpace (suc fuel) n out h = elim (Bool-cases (ltb n 10)) [
  | inl small ↦ rw small (digit_no_space n small, h)
  | inr large ↦ rw large (
      emit-HasNoSpace fuel (n / 10) ((b'0' + n % 10) ∷ out)
        (digit_no_space (n % 10) (ground arith), h))
]

starts_digit→not_empty : (s : Bytes) → starts_digit s ≡ true → is_empty s ≡ false
unfolding starts_digit is_empty
starts_digit→not_empty [] h = cc
starts_digit→not_empty (c ∷ s) h = refl

decimal-HasNoSpace : (n : ℕ) → HasNoSpace (decimal n)
unfolding decimal
decimal-HasNoSpace n = emit-HasNoSpace (suc n) n [] tt

pub to_string-IsToken : (z : ℤ) → IsToken (to_string z)
unfolding to_string
to_string-IsToken (pos n) =
    (starts_digit→not_empty (decimal n) (starts_digit-decimal n), decimal-HasNoSpace n)
to_string-IsToken (negsuc n) =
    unfold is_empty is_space in (refl, (refl, decimal-HasNoSpace (suc n)))
