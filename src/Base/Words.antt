-- ===== src/Base/Words.antt =====
-- Laws of `^` and `|` on words, from the digit recursion that the native operations stand for, and
-- the little-endian bytes of a 32-bit word.
use Prim.Native.Nat.{
  ℕ, zero, suc, ◌+◌, ◌*◌, ◌/◌, ◌%◌, ◌^◌, ◌≤◌, ◌<◌, max, bit_or, bit_xor, differ, digits, bitwise,
  bit_or-bitwise, bit_xor-bitwise,
}
use mathlib.Core.Path.{◌≡◌, refl, ap, ◌∙◌}
use mathlib.Core.List.{List, [], ◌∷◌}
use native.Mathlib.Nat.{pow-suc}
use native.Mathlib.Decide.{ℕ_discrete}
use native.Mathlib.Omega.{arith}
use initra_os.Base.Tests.{u32}

module _ (z : ℕ → ℕ) (f : ℕ → ℕ → ℕ) where
  -- One more round than the first number has no effect, so any number of them has none.
  digits_spare : (n a b : ℕ) → a ≤ n → digits z f (suc n) a b ≡ digits z f n a b
  digits_spare zero zero b h = refl
  digits_spare zero (suc a) b h = absurd (omega arith)
  digits_spare (suc n) zero b h = refl
  digits_spare (suc n) (suc a) b h =
      ap (λ t. t * 2 + f (suc a % 2) (b % 2)) (digits_spare n (suc a / 2) (b / 2) (omega arith))

  digits_settled : (n a b : ℕ) → a ≤ n → digits z f n a b ≡ bitwise z f a b
  digits_settled zero zero b h = refl
  digits_settled zero (suc a) b h = absurd (omega arith)
  digits_settled (suc n) a b h = elim (ℕ_discrete a (suc n)) [
    | yes e ↦ rw (e) refl
    | no ne ↦ digits_spare n a b (omega arith) ∙ digits_settled n a b (omega arith)
  ]

  pub bitwise_halves :
      (a b : ℕ)
      → bitwise z f (suc a) b ≡ f (suc a % 2) (b % 2) + 2 * bitwise z f (suc a / 2) (b / 2)
  bitwise_halves a b = omega (arith, digits_settled a (suc a / 2) (b / 2) (omega arith))

zero-bit_xor : (b : ℕ) → bit_xor 0 b ≡ b
zero-bit_xor b = simp bit_xor-bitwise

zero-bit_or : (b : ℕ) → bit_or 0 b ≡ b
zero-bit_or b = simp bit_or-bitwise

-- The lowest digit of `a ^ b` and of `a | b`.
bit_xor_step : (a b : ℕ) → bit_xor a b ≡ differ (a % 2) (b % 2) + 2 * bit_xor (a / 2) (b / 2)
bit_xor_step zero b = omega (arith, zero-bit_xor b, zero-bit_xor (b / 2))
bit_xor_step (suc a) b = simp bit_xor-bitwise (bitwise_halves (λ y. y) differ a b)

bit_or_step : (a b : ℕ) → bit_or a b ≡ max (a % 2) (b % 2) + 2 * bit_or (a / 2) (b / 2)
bit_or_step zero b = omega (arith, zero-bit_or b, zero-bit_or (b / 2))
bit_or_step (suc a) b = simp bit_or-bitwise (bitwise_halves (λ y. y) max a b)

differ_bits : (x y : ℕ) → x < 2 → y < 2 → differ x y ≡ (x + y) % 2
differ_bits zero y h k = omega arith
differ_bits (suc zero) zero h k = refl
differ_bits (suc zero) (suc zero) h k = refl
differ_bits (suc zero) (suc (suc y)) h k = absurd (omega arith)
differ_bits (suc (suc x)) y h k = absurd (omega arith)

-- The upper digits and the lowest digit of `a ^ b`.
bit_xor_parts :
    (a b : ℕ)
    → (bit_xor a b / 2 ≡ bit_xor (a / 2) (b / 2)) × (bit_xor a b % 2 ≡ (a % 2 + b % 2) % 2)
bit_xor_parts a b =
    let low = differ_bits (a % 2) (b % 2) (omega arith) (omega arith) in
    (omega (arith, bit_xor_step a b, low), omega (arith, bit_xor_step a b, low))

bit_xor_cancel_fuel : (n a b : ℕ) → a ≤ n → b ≤ n → bit_xor (bit_xor a b) b ≡ a
bit_xor_cancel_fuel zero a b h k =
    let ea : a ≡ 0 = omega arith in let eb : b ≡ 0 = omega arith in rw (ea, eb)
bit_xor_cancel_fuel (suc n) a b h k = omega (
  arith,
  bit_xor_parts a b,
  bit_xor_parts (bit_xor a b) b,
  ap (λ t. bit_xor t (b / 2)) (bit_xor_parts a b).0,
  bit_xor_cancel_fuel n (a / 2) (b / 2) (omega arith) (omega arith),
)

-- `x ^ b ^ b` is `x`, so `^ b` loses nothing.
pub bit_xor_cancel : (a b : ℕ) → bit_xor (bit_xor a b) b ≡ a
bit_xor_cancel a b = bit_xor_cancel_fuel (a + b) a b (omega arith) (omega arith)

bit_xor_comm_fuel : (n a b : ℕ) → a ≤ n → b ≤ n → bit_xor a b ≡ bit_xor b a
bit_xor_comm_fuel zero a b h k =
    let ea : a ≡ 0 = omega arith in let eb : b ≡ 0 = omega arith in rw (ea, eb)
bit_xor_comm_fuel (suc n) a b h k = omega (
  arith,
  bit_xor_parts a b,
  bit_xor_parts b a,
  bit_xor_comm_fuel n (a / 2) (b / 2) (omega arith) (omega arith),
)

pub bit_xor_comm : (a b : ℕ) → bit_xor a b ≡ bit_xor b a
bit_xor_comm a b = bit_xor_comm_fuel (a + b) a b (omega arith) (omega arith)

bit_xor_bound : (k a b : ℕ) → a < 2 ^ k → b < 2 ^ k → bit_xor a b < 2 ^ k
bit_xor_bound zero a b h g =
    let ea : a ≡ 0 = omega arith in let eb : b ≡ 0 = omega arith in rw (ea, eb) (omega arith)
bit_xor_bound (suc k) a b h g = omega (
  arith,
  pow-suc 2 k,
  bit_xor_parts a b,
  bit_xor_bound k (a / 2) (b / 2) (omega (arith, pow-suc 2 k)) (omega (arith, pow-suc 2 k)),
)

pub bit_xor-lt_word : (a b : ℕ) → a < 2 ^ 32 → b < 2 ^ 32 → bit_xor a b < 2 ^ 32
bit_xor-lt_word a b h g = bit_xor_bound 32 a b h g

bit_or-zero_fuel : (n a : ℕ) → a ≤ n → bit_or a 0 ≡ a
bit_or-zero_fuel zero a h = let e : a ≡ 0 = omega arith in rw e
bit_or-zero_fuel (suc n) a h =
    omega (arith, bit_or_step a 0, bit_or-zero_fuel n (a / 2) (omega arith))

-- Or with bits above those of the first number is addition.
pub bit_or_add : (k a q : ℕ) → a < 2 ^ k → bit_or a (q * 2 ^ k) ≡ a + q * 2 ^ k
bit_or_add zero a q h = let e : a ≡ 0 = omega arith in rw e (omega (arith, zero-bit_or (q * 2 ^ 0)))
bit_or_add (suc k) a q h =
    let double : q * 2 ^ suc k ≡ 2 * (q * 2 ^ k) =
      omega (arith, ap (λ (t : ℕ). q * t) (pow-suc 2 k)) in
    let half : 2 * (q * 2 ^ k) / 2 ≡ q * 2 ^ k = omega arith in
    rw double (
      omega (
        arith,
        bit_or_step a (2 * (q * 2 ^ k)),
        ap (λ t. bit_or (a / 2) t) half,
        bit_or_add k (a / 2) q (omega (arith, pow-suc 2 k)),
      ))

-- The little-endian bytes of an `unsigned int`.
abbrev pub le_bytes : ℕ → List ℕ
le_bytes n = n % 256 ∷ n / 256 % 256 ∷ n / 65536 % 256 ∷ n / 16777216 % 256 ∷ []

-- `b0 | (b1 << 8) | (b2 << 16) | (b3 << 24)` on bytes.
pub word_of : ℕ → ℕ → ℕ → ℕ → ℕ
word_of b0 b1 b2 b3 =
    bit_or (bit_or (bit_or b0 (u32 (b1 * 2 ^ 8))) (u32 (b2 * 2 ^ 16))) (u32 (b3 * 2 ^ 24))

pub word_of_sum :
    (b0 b1 b2 b3 : ℕ)
    → b0 < 256
    → b1 < 256
    → b2 < 256
    → b3 < 256
    → word_of b0 b1 b2 b3 ≡ b0 + b1 * 256 + b2 * 65536 + b3 * 16777216
unfolding word_of
word_of_sum b0 b1 b2 b3 h0 h1 h2 h3 =
    let e1 : u32 (b1 * 2 ^ 8) ≡ b1 * 2 ^ 8 = omega arith in
    let e2 : u32 (b2 * 2 ^ 16) ≡ b2 * 2 ^ 16 = omega arith in
    let e3 : u32 (b3 * 2 ^ 24) ≡ b3 * 2 ^ 24 = omega arith in
    rw
      (
        e1,
        e2,
        e3,
        bit_or_add 8 b0 b1 h0,
        bit_or_add 16 (b0 + b1 * 2 ^ 8) b2 (omega arith),
        bit_or_add 24 (b0 + b1 * 2 ^ 8 + b2 * 2 ^ 16) b3 (omega arith),
      )
      (omega arith)
