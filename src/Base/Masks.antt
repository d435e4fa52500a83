-- ===== src/Base/Masks.antt =====
-- `&` with a mask of one bit, or of all the bits below one.
use Prim.Native.Nat.{
  ℕ, zero, suc, ◌-◌, ◌*◌, ◌+◌, ◌/◌, ◌%◌, ◌^◌, ◌<◌, ◌≤◌, min, bit_and, bit_and-bitwise,
}
use mathlib.Core.Path.{◌≡◌, ap}
use mathlib.Core.Logic.{◌↔◌}
use native.Mathlib.Nat.{pow-suc}
use native.Mathlib.Decide.{ℕ_discrete}
use native.Mathlib.Omega.{arith}
use initra_os.Base.Words.{bitwise_halves}

zero-bit_and : (b : ℕ) → bit_and 0 b ≡ 0
zero-bit_and b = simp bit_and-bitwise

bit_and_step : (a b : ℕ) → bit_and a b ≡ min (a % 2) (b % 2) + 2 * bit_and (a / 2) (b / 2)
bit_and_step zero b = omega (arith, zero-bit_and b, zero-bit_and (b / 2))
bit_and_step (suc a) b = simp bit_and-bitwise (bitwise_halves (λ y. 0) min a b)

no_bits_within : (bound a : ℕ) → a ≤ bound → bit_and a 0 ≡ 0
no_bits_within zero a h = rw (ap (λ t. bit_and t 0) (le-zero a h)) (zero-bit_and 0)
  where
    le-zero : (a : ℕ) → a ≤ 0 → a ≡ 0
    le-zero a h = omega arith
no_bits_within (suc bound) a h = elim (ℕ_discrete a 0) [
  | yes e ↦ rw (e) (zero-bit_and 0)
  | no ne ↦ omega (arith, bit_and_step a 0, no_bits_within bound (a / 2) (omega arith))
]

no_bits : (a : ℕ) → bit_and a 0 ≡ 0
no_bits a = no_bits_within a a (omega arith)

-- A mask of all the bits below `k` keeps a number below `2 ^ k`.
pub bit_and_low : (k a : ℕ) → a < 2 ^ k → bit_and a (2 ^ k - 1) ≡ a
bit_and_low zero a h = omega (arith, no_bits a)
bit_and_low (suc k) a h =
    let half : (2 ^ suc k - 1) / 2 ≡ 2 ^ k - 1 = omega (arith, pow-suc 2 k) in
    omega (
      arith,
      bit_and_step a (2 ^ suc k - 1),
      ap (bit_and (a / 2)) half,
      pow-suc 2 k,
      bit_and_low k (a / 2) (omega (arith, pow-suc 2 k)),
    )

abbrev pub halves : ℕ → ℕ → ℕ
halves zero a = a
halves (suc k) a = halves k (a / 2)

-- A mask of the single bit `k` tests that digit.
pub bit_and_bit : (k a : ℕ) → (bit_and a (2 ^ k) ≡ 0) ↔ (halves k a % 2 ≡ 0)
bit_and_bit zero a =
    let eq = no_bits (a / 2) in
    (λ h. omega (arith, bit_and_step a 1, eq), λ h. omega (arith, bit_and_step a 1, eq))
bit_and_bit (suc k) a =
    let half : 2 ^ suc k / 2 ≡ 2 ^ k = omega (arith, pow-suc 2 k) in
    let step = bit_and_step a (2 ^ suc k) in
    let rest = ap (bit_and (a / 2)) half in
    let even : 2 ^ suc k % 2 ≡ 0 = omega (arith, pow-suc 2 k) in
    (
      λ h. (bit_and_bit k (a / 2)).0 (omega (arith, step, rest, even)),
      λ h. omega (arith, step, rest, even, (bit_and_bit k (a / 2)).1 h),
    )

-- All bits of a 32-bit word but the low three.
pub bit_and_upper : (a : ℕ) → a < 2 ^ 32 → bit_and a (2 ^ 32 - 1 - 7) ≡ 8 * (a / 8)
bit_and_upper a h = omega (
  arith,
  bit_and_step a (2 ^ 32 - 1 - 7),
  bit_and_step (a / 2) (2 ^ 31 - 1 - 3),
  bit_and_step (a / 2 / 2) (2 ^ 30 - 1 - 1),
  bit_and_low 29 (a / 2 / 2 / 2) (omega arith),
)
