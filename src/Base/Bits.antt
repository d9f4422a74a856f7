-- ===== src/Base/Bits.antt =====
-- Facts about `bit_and` and `bit_xor` at variables, from the digit recursion that they stand for.
use Prim.Native.Nat.{
  ℕ, zero, suc, ◌+◌, ◌-◌, ◌*◌, ◌/◌, ◌%◌, ◌^◌, ◌≤◌, ◌<◌, min, bit_and, bit_xor, digits, differ,
  bit_and-bitwise, bit_xor-bitwise,
}
use mathlib.Core.Path.{◌≡◌, refl, sym, ap, ◌∙◌}
use native.Mathlib.Omega.{arith}
use native.Mathlib.Nat.{pow-suc, mul_comm, div-div-eq-div-mul, div-add-mod}

-- The recursion over binary digits, whatever it does to a pair of digits and at the end.
module _ (end : ℕ → ℕ) (f : ℕ → ℕ → ℕ) where
  -- Rounds beyond the size of the number change nothing.
  more_rounds :
      (few many x y : ℕ) → x ≤ few → few ≤ many → digits end f many x y ≡ digits end f few x y
  more_rounds zero zero x y h le = refl
  more_rounds (suc few) zero x y h le = absurd (omega arith)
  more_rounds zero (suc many) zero y h le = refl
  more_rounds zero (suc many) (suc x) y h le = absurd (omega arith)
  more_rounds (suc few) (suc many) zero y h le = refl
  more_rounds (suc few) (suc many) (suc x) y h le =
      let half : suc x / 2 ≤ few = omega arith in
      omega (arith, more_rounds few many (suc x / 2) (y / 2) half (omega arith))

  -- A round takes off the lowest digits.
  first_round :
      (x y : ℕ)
      → digits end f (suc x) (suc x) y
        ≡ digits end f (suc x / 2) (suc x / 2) (y / 2) * 2 + f (suc x % 2) (y % 2)
  first_round x y =
      let h : suc x / 2 ≤ x = omega arith in
      omega (arith, more_rounds (suc x / 2) x (suc x / 2) (y / 2) (omega arith) h)

pub bit_and_step : (x y : ℕ) → bit_and x y ≡ bit_and (x / 2) (y / 2) * 2 + min (x % 2) (y % 2)
bit_and_step zero y = omega (arith, bit_and-bitwise 0 y, bit_and-bitwise 0 (y / 2))
bit_and_step (suc x) y =
    bit_and-bitwise (suc x) y
    ∙ first_round (λ t. zero) min x y
    ∙ ap (λ (t : ℕ). t * 2 + min (suc x % 2) (y % 2)) (sym (bit_and-bitwise (suc x / 2) (y / 2)))

pub bit_xor_step : (x y : ℕ) → bit_xor x y ≡ bit_xor (x / 2) (y / 2) * 2 + differ (x % 2) (y % 2)
bit_xor_step zero y = omega (arith, bit_xor-bitwise 0 y, bit_xor-bitwise 0 (y / 2))
bit_xor_step (suc x) y =
    bit_xor-bitwise (suc x) y
    ∙ first_round (λ t. t) differ x y
    ∙ ap (λ (t : ℕ). t * 2 + differ (suc x % 2) (y % 2)) (sym (bit_xor-bitwise (suc x / 2) (y / 2)))

-- By strong induction, with a bound on the number.
bit_and-no_bits : (bound x : ℕ) → x ≤ bound → bit_and x 0 ≡ 0
bit_and-no_bits bound zero h = bit_and-bitwise 0 0
bit_and-no_bits zero (suc x) h = absurd (omega arith)
bit_and-no_bits (suc bound) (suc x) h =
    let half : suc x / 2 ≤ bound = omega arith in
    omega (arith, bit_and_step (suc x) 0, bit_and-no_bits bound (suc x / 2) half)

pub pow_pos : (k : ℕ) → 0 < 2 ^ k
pow_pos zero = omega arith
pow_pos (suc k) = omega (arith, pow_pos k, pow-suc 2 k)

-- The lowest digit of a remainder by twice a number, and the others.
mod_double : (a m : ℕ) → 0 < m → a % (m * 2) ≡ (a / 2) % m * 2 + a % 2
mod_double a m h =
    let e : a / (m * 2) ≡ a / 2 / m = rw (mul_comm m 2) (sym (div-div-eq-div-mul a 2 m)) in
    let whole : m * 2 * (a / 2 / m) + a % (m * 2) ≡ a = rw (← e) (div-add-mod a (m * 2)) in
    omega (arith, whole, div-add-mod (a / 2) m)

half_mask : (k : ℕ) → (2 ^ suc k - 1) / 2 ≡ 2 ^ k - 1
half_mask k = omega (arith, pow_pos k, pow-suc 2 k)

-- A mask of k ones keeps the low k bits.
pub bit_and_mask : (k a : ℕ) → bit_and a (2 ^ k - 1) ≡ a % 2 ^ k
bit_and_mask zero a = omega (arith, bit_and-no_bits a a)
bit_and_mask (suc k) a = omega (
  arith,
  pow_pos k,
  pow-suc 2 k,
  bit_and_step a (2 ^ suc k - 1),
  half_mask k,
  ap (λ (t : ℕ). bit_and (a / 2) t) (half_mask k),
  ap (λ (t : ℕ). a % t) (pow-suc 2 k),
  bit_and_mask k (a / 2),
  mod_double a (2 ^ k) (pow_pos k),
)

differ-lt : (x y : ℕ) → differ (x % 2) (y % 2) < 2
differ-lt x y = go (x % 2) (y % 2) (omega arith) (omega arith)
  where
    go : (a b : ℕ) → a < 2 → b < 2 → differ a b < 2
    go zero b p q = q
    go (suc a) zero p q = p
    go (suc zero) (suc b) p q = omega arith
    go (suc (suc a)) (suc b) p q = absurd (omega arith)

pub bit_xor-lt : (k a b : ℕ) → a < 2 ^ k → b < 2 ^ k → bit_xor a b < 2 ^ k
bit_xor-lt zero zero b p q = omega (arith, bit_xor-bitwise 0 b)
bit_xor-lt zero (suc a) b p q = absurd (omega arith)
bit_xor-lt (suc k) a b p q = omega (
  arith,
  pow-suc 2 k,
  bit_xor_step a b,
  bit_xor-lt k (a / 2) (b / 2) (omega (arith, pow-suc 2 k)) (omega (arith, pow-suc 2 k)),
  differ-lt a b,
)
