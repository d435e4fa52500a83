-- ===== src/Base/Pool.antt =====
-- Counting the clear bits of a range of a bitmap.
use Prim.Native.Nat.{ℕ, ◌+◌, ◌/◌, ◌≤◌, ◌<◌}
use mathlib.Core.Path.{◌≡◌}
use mathlib.Core.Bool.{Bool, true, false, not}
use mathlib.Core.List.{List}
use native.Mathlib.Omega.{arith}
use initra_os.Base.Lists.{length}
use initra_os.Base.Bits.{IsBytes, bit_at, set_bit, clear_bit, bit_at-set_bit, bit_at-clear_bit}
use initra_os.Base.Search.{count_from, count_from_drop}

abbrev pub is_clear : List ℕ → ℕ → Bool
is_clear m k = not (bit_at m k)

abbrev pub clear_count : List ℕ → ℕ → ℕ → ℕ
clear_count m n i = count_from (is_clear m) n i

module _ (m : List ℕ) (n i k : ℕ) (bytes : IsBytes m) (inside : k / 8 < length m) (lo : i ≤ k)
    (hi : k < i + n) where
  pub clear_count-set_bit :
      bit_at m k ≡ false → clear_count m n i ≡ clear_count (set_bit m k) n i + 1
  clear_count-set_bit clear =
      count_from_drop (is_clear m) (is_clear (set_bit m k)) n i k lo hi (ground arith)
        (λ j _ _. ground (arith, bit_at-set_bit m k bytes inside j))

  pub clear_count-clear_bit :
      bit_at m k ≡ true → clear_count (clear_bit m k) n i ≡ clear_count m n i + 1
  clear_count-clear_bit used =
      count_from_drop (is_clear (clear_bit m k)) (is_clear m) n i k lo hi
        (ground (arith, bit_at-clear_bit m k bytes inside k))
        (λ j _ _. ground (arith, bit_at-clear_bit m k bytes inside j))
