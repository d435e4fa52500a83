-- ===== src/Base/Search.antt =====
-- Linear scans over a range of numbers: the first that passes a test, and how many do.
use Prim.Native.Nat.{ℕ, zero, suc, ◌+◌, ◌≤◌, ◌<◌}
use mathlib.Core.Path.{◌≡◌, refl}
use mathlib.Core.Logic.{inl, inr}
use mathlib.Core.Bool.{Bool, true, false}
use mathlib.Core.Option.{Option, none, some}
use native.Mathlib.Omega.{arith}
use native.Mathlib.Decide.{ℕ_discrete}
use initra_os.Base.Tests.{◌==◌, if◌then◌else◌, Bool-cases, Option-cases}

-- `for (i = from; i < from + n; i++) if (p(i)) return i;` with `none` after the last round.
unfoldable pub first_from : (ℕ → Bool) → ℕ → ℕ → Option ℕ
first_from p zero i = none
first_from p (suc n) i = let rest = first_from p n (i + 1) in if p i then some i else rest

-- How many numbers of `i .. i + n - 1` pass the test.
unfoldable pub count_from : (ℕ → Bool) → ℕ → ℕ → ℕ
count_from p zero i = 0
count_from p (suc n) i = (if p i then 1 else 0) + count_from p n (i + 1)

-- `k` is the least number of the range that passes.
pub record IsFirst (p : ℕ → Bool) (n i k : ℕ) : Type 0 where
  pub from_start : i ≤ k
  pub before_end : k < i + n
  pub passes : p k ≡ true
  pub least : (j : ℕ) → i ≤ j → j < k → p j ≡ false

pub first_from-some : (p : ℕ → Bool) (n i k : ℕ) → first_from p n i ≡ some k → IsFirst p n i k
unfolding first_from
first_from-some p zero i k h = cc
first_from-some p (suc n) i k h = elim (Bool-cases (p i)) [
  | inl t ↦
      let e : i ≡ k = ground arith in
      record {
        from_start = omega arith;
        before_end = omega arith;
        passes = rw (← e) t;
        least = λ j a b. absurd (omega arith);
      }
  | inr f ↦
      let rest : IsFirst p n (i + 1) k = first_from-some p n (i + 1) k (ground arith) in
      record {
        from_start = omega (arith, rest.from_start);
        before_end = omega (arith, rest.before_end);
        passes = rest.passes;
        least = λ j a b. ground (arith, rest.least j);
      }
]

pub first_from-none :
    (p : ℕ → Bool) (n i j : ℕ) → first_from p n i ≡ none → i ≤ j → j < i + n → p j ≡ false
unfolding first_from
first_from-none p zero i j h a b = absurd (omega arith)
first_from-none p (suc n) i j h a b = ground (arith, first_from-none p n (i + 1) j)

pub first_from-found :
    (p : ℕ → Bool) (n i j : ℕ)
    → i ≤ j
    → j < i + n
    → p j ≡ true
    → (k : ℕ) × (first_from p n i ≡ some k)
first_from-found p n i j a b t = elim (Option-cases (first_from p n i)) [
  | inl e ↦ absurd (ground (arith, first_from-none p n i j e a b))
  | inr found ↦ found
]

pub count_from-le : (p : ℕ → Bool) (n i : ℕ) → count_from p n i ≤ n
unfolding count_from
count_from-le p zero i = omega arith
count_from-le p (suc n) i = ground (arith, count_from-le p n (i + 1))

-- Two tests that agree on the range count the same.
pub count_from_congr :
    (p q : ℕ → Bool) (n i : ℕ)
    → ((j : ℕ) → i ≤ j → j < i + n → p j ≡ q j)
    → count_from p n i ≡ count_from q n i
unfolding count_from
count_from_congr p q zero i h = refl
count_from_congr p q (suc n) i h =
    ground (arith, h i, count_from_congr p q n (i + 1) (λ j a b. h j (omega arith) (omega arith)))

-- Turning the test off at one number of the range that passed takes one off the count.
pub count_from_drop :
    (p q : ℕ → Bool) (n i k : ℕ)
    → i ≤ k
    → k < i + n
    → p k ≡ true
    → ((j : ℕ) → i ≤ j → j < i + n → q j ≡ (if k == j then false else p j))
    → count_from p n i ≡ count_from q n i + 1
unfolding count_from
count_from_drop p q zero i k a b t h = absurd (omega arith)
count_from_drop p q (suc n) i k a b t h = elim (ℕ_discrete k i) [
  | yes e ↦ ground (arith, h i, count_from_congr p q n (i + 1) (λ j c d. ground (arith, h j)))
  | no e ↦ ground (
    arith,
    h i,
    count_from_drop p q n (i + 1) k (omega arith) (omega arith) t
        (λ j c d. h j (omega arith) (omega arith)),
  )
]

pub count_from_zero :
    (p : ℕ → Bool) (n i : ℕ) → ((j : ℕ) → i ≤ j → j < i + n → p j ≡ false) → count_from p n i ≡ 0
unfolding count_from
count_from_zero p zero i h = refl
count_from_zero p (suc n) i h =
    ground (arith, h i, count_from_zero p n (i + 1) (λ j a b. h j (omega arith) (omega arith)))

pub count_from_all :
    (p : ℕ → Bool) (n i : ℕ) → ((j : ℕ) → i ≤ j → j < i + n → p j ≡ true) → count_from p n i ≡ n
unfolding count_from
count_from_all p zero i h = refl
count_from_all p (suc n) i h =
    ground (arith, h i, count_from_all p n (i + 1) (λ j a b. h j (omega arith) (omega arith)))
