-- ===== src/Hasher.antt =====
-- murmur_hash3 of app/src/engine/hasher.cpp, for keys of less than 2 ^ 31 bytes, as the cast of the
-- size to int has it. uint32_t arithmetic wraps modulo 2 ^ 32; blocks are read
-- little-endian, as on the platform that the program is written for.
use Prim.Native.Nat.{bit_or, bit_xor}
use in_memory_db.Base.{ℕ, ◌+◌, ◌*◌, ◌/◌, ◌%◌, ◌^◌, ◌<◌, ◌≡◌, refl, [], ◌∷◌, arith, length}
use in_memory_db.Base.Bits.{bit_xor-lt}
use in_memory_db.Text.{Bytes, codes}

abbrev u32_mod : ℕ
u32_mod = 2 ^ 32

abbrev c1 : ℕ
c1 = 0xcc9e2d51

abbrev c2 : ℕ
c2 = 0x1b873593

mul32 : ℕ → ℕ → ℕ
mul32 a b = (a * b) % u32_mod

-- (k << r) | (k >> (32 - r)), by the two shifts
rotate : ℕ → ℕ → ℕ → ℕ
rotate left right k = bit_or ((k * 2 ^ left) % u32_mod) (k / 2 ^ right)

-- k1 *= c1; k1 = (k1 << 15) | (k1 >> 17); k1 *= c2
scramble : ℕ → ℕ
unfolding mul32 rotate
scramble k1 = mul32 (rotate 15 17 (mul32 k1 c1)) c2

-- One round over a block.
mix_block : ℕ → ℕ → ℕ
unfolding scramble
mix_block h1 k1 = (rotate 13 19 (bit_xor h1 (scramble k1)) * 5 + 0xe6546b64) % u32_mod

-- The blocks of four bytes, then the tail by the cases of `switch (len & 3)`.
absorb : ℕ → Bytes → ℕ
unfolding mix_block
absorb h1 [] = h1
absorb h1 (a ∷ []) = bit_xor h1 (scramble (bit_xor 0 a))
absorb h1 (a ∷ b ∷ []) = bit_xor h1 (scramble (bit_xor (bit_xor 0 (b * 2 ^ 8)) a))
absorb h1 (a ∷ b ∷ c ∷ []) =
    bit_xor h1 (scramble (bit_xor (bit_xor (bit_xor 0 (c * 2 ^ 16)) (b * 2 ^ 8)) a))
absorb h1 (a ∷ b ∷ c ∷ d ∷ rest) =
    absorb (mix_block h1 (a + b * 2 ^ 8 + c * 2 ^ 16 + d * 2 ^ 24)) rest

-- h1 ^= h1 >> n
xor_shift : ℕ → ℕ → ℕ
xor_shift n h1 = bit_xor h1 (h1 / 2 ^ n)

-- The finalization mix, behind the length.
finalize : ℕ → ℕ
unfolding xor_shift mul32
finalize h1 = xor_shift 16 (mul32 (xor_shift 13 (mul32 (xor_shift 16 h1) 0x85ebca6b)) 0xc2b2ae35)

unfoldable pub murmur_hash3 : Bytes → ℕ → ℕ
unfolding absorb finalize
murmur_hash3 key seed = finalize (bit_xor (absorb seed key) (length key % u32_mod))

xor_shift-lt : (n h1 : ℕ) → h1 < 2 ^ 32 → xor_shift n h1 < 2 ^ 32
unfolding xor_shift
xor_shift-lt n h1 p = bit_xor-lt 32 h1 (h1 / 2 ^ n) p (omega arith)

-- The hash of any key is below 2 ^ 32.
pub murmur_hash3-lt : (key : Bytes) (seed : ℕ) → murmur_hash3 key seed < 2 ^ 32
unfolding murmur_hash3 finalize mul32
murmur_hash3-lt key seed = xor_shift-lt 16 _ (omega arith)

-- Vectors that other implementations of MurmurHash3_x86_32 give.
vectors :
    (murmur_hash3 (codes "") 0 ≡ 0)
    × (murmur_hash3 (codes "") 1 ≡ 0x514e28b7)
    × (murmur_hash3 (codes "test") 0 ≡ 0xba6bd213)
    × (murmur_hash3 (codes "Hello, world!") 0 ≡ 0xc0363e43)
    × (murmur_hash3 (codes "The quick brown fox jumps over the lazy dog") 0 ≡ 0x2e4ff723)
unfolding murmur_hash3
vectors = (refl, refl, refl, refl, refl)
