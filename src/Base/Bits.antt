-- ===== src/Base/Bits.antt =====
-- Single bits of a byte array: `map[i] & m`, `map[i] |= m` and `map[i] &= (unsigned char)~m`, where
-- `m` is `(unsigned char)(1U << k)` for a bit `k` below 8. The laws on one byte are checked over
-- all bytes and bits.
use Prim.Native.Nat.{ℕ, zero, suc, ◌-◌, ◌/◌, ◌%◌, ◌^◌, ◌<◌, bit_and, bit_or, bit_and-bitwise}
use mathlib.Core.Path.{◌≡◌, refl}
use mathlib.Core.Bool.{Bool, true, false, not, ◌&&◌}
use mathlib.Core.List.{List}
use native.Mathlib.Decide.{ℕ_discrete}
use native.Mathlib.Omega.{arith}
use initra_os.Base.Tests.{◌==◌, ◌!=◌, ltb, if◌then◌else◌, u8}
use initra_os.Base.Lists.{
  length, get_or, set, replicate, length-set, get_or-set_self, get_or-set_ne, get_or-replicate,
  zero_bytes, get_or-zero_bytes,
}

-- `(unsigned char)(1U << k)`.
abbrev pub byte_mask : ℕ → ℕ
byte_mask k = u8 (2 ^ k)

unfoldable pub test_mask : ℕ → ℕ → Bool
test_mask byte mask = bit_and byte mask != 0

unfoldable pub set_mask : ℕ → ℕ → ℕ
set_mask byte mask = bit_or byte mask

unfoldable pub clear_mask : ℕ → ℕ → ℕ
clear_mask byte mask = bit_and byte (u8 (255 - mask))

-- Whether a test passes at each number below a bound.
unfoldable pub passes_below : (ℕ → Bool) → ℕ → Bool
passes_below test zero = true
passes_below test (suc bound) = if test bound then passes_below test bound else false

pub passes_below_sound :
    (test : ℕ → Bool) (bound : ℕ) {k : ℕ}
    → passes_below test bound ≡ true
    → k < bound
    → test k ≡ true
unfolding passes_below
passes_below_sound test zero pass inside = absurd (omega arith)
passes_below_sound test (suc bound) {k = k} pass inside = elim (ℕ_discrete k bound) [
  | yes last ↦ rw (last) (ground arith)
  | no earlier ↦ passes_below_sound test bound (ground arith) (omega arith)
]

unfoldable pub same_bool : Bool → Bool → Bool
same_bool true b = b
same_bool false b = not b

pub same_bool-eq : (a b : Bool) → same_bool a b ≡ true → a ≡ b
unfolding same_bool
same_bool-eq a b h = ground arith

-- What one byte `b` must satisfy when bit `i` is set or cleared and bit `j` is read.
byte_laws : ℕ → ℕ → ℕ → Bool
byte_laws i j b =
    same_bool (test_mask (set_mask b (byte_mask i)) (byte_mask j))
      (if i == j then true else test_mask b (byte_mask j))
    && same_bool (test_mask (clear_mask b (byte_mask i)) (byte_mask j))
        (if i == j then false else test_mask b (byte_mask j))
    && ltb (set_mask b (byte_mask i)) 256
    && ltb (clear_mask b (byte_mask i)) 256

abbrev laws_at : ℕ → ℕ → Bool
laws_at i j = passes_below (byte_laws i j) 256

byte_table : passes_below (λ i. passes_below (laws_at i) 8) 8 ≡ true
unfolding passes_below byte_laws same_bool test_mask set_mask clear_mask
byte_table = refl

byte_laws_hold : (i j b : ℕ) → i < 8 → j < 8 → b < 256 → byte_laws i j b ≡ true
byte_laws_hold i j b hi hj hb =
    let row = passes_below_sound (λ i. passes_below (laws_at i) 8) 8 byte_table hi in
    passes_below_sound (byte_laws i j) 256 (passes_below_sound (laws_at i) 8 row hj) hb

test-set_mask :
    (i j b : ℕ)
    → i < 8
    → j < 8
    → b < 256
    → (test_mask (set_mask b (byte_mask i)) (byte_mask j)
        ≡ (if i == j then true else test_mask b (byte_mask j)))
      × (test_mask (clear_mask b (byte_mask i)) (byte_mask j)
          ≡ (if i == j then false else test_mask b (byte_mask j)))
      × (set_mask b (byte_mask i) < 256)
      × (clear_mask b (byte_mask i) < 256)
unfolding byte_laws same_bool
test-set_mask i j b hi hj hb = ground (arith, byte_laws_hold i j b hi hj hb)

-- The bit `k` of the array: bit `k & 7` of byte `k >> 3`.
unfoldable pub bit_at : List ℕ → ℕ → Bool
bit_at map k = test_mask (get_or map (k / 8) 0) (byte_mask (k % 8))

unfoldable pub set_bit : List ℕ → ℕ → List ℕ
set_bit map k = set map (k / 8) (set_mask (get_or map (k / 8) 0) (byte_mask (k % 8)))

unfoldable pub clear_bit : List ℕ → ℕ → List ℕ
clear_bit map k = set map (k / 8) (clear_mask (get_or map (k / 8) 0) (byte_mask (k % 8)))

abbrev pub IsBytes : List ℕ → Type 0
IsBytes map = (i : ℕ) → get_or map i 0 < 256

pub length-set_bit : (map : List ℕ) (k : ℕ) → length (set_bit map k) ≡ length map
unfolding set_bit
length-set_bit map k = length-set map (k / 8) _

pub length-clear_bit : (map : List ℕ) (k : ℕ) → length (clear_bit map k) ≡ length map
unfolding clear_bit
length-clear_bit map k = length-set map (k / 8) _

split_index : (k j : ℕ) → k / 8 ≡ j / 8 → k % 8 ≡ j % 8 → k ≡ j
split_index k j p q = omega arith

module _ (map : List ℕ) (k : ℕ) (bytes : IsBytes map) (inside : k / 8 < length map) where
  -- Setting one bit sets that bit and leaves every other as it was.
  pub bit_at-set_bit : (j : ℕ) → bit_at (set_bit map k) j ≡ (if k == j then true else bit_at map j)
  unfolding bit_at set_bit
  bit_at-set_bit j = ground (
    arith,
    get_or-set_self map (k / 8) (set_mask (get_or map (k / 8) 0) (byte_mask (k % 8))) 0 inside,
    get_or-set_ne map (k / 8) (j / 8) (set_mask (get_or map (k / 8) 0) (byte_mask (k % 8))) 0,
    test-set_mask (k % 8) (j % 8) (get_or map (k / 8) 0) (omega arith) (omega arith)
        (bytes (k / 8)),
  )

  pub bit_at-clear_bit :
      (j : ℕ) → bit_at (clear_bit map k) j ≡ (if k == j then false else bit_at map j)
  unfolding bit_at clear_bit
  bit_at-clear_bit j = ground (
    arith,
    get_or-set_self map (k / 8) (clear_mask (get_or map (k / 8) 0) (byte_mask (k % 8))) 0 inside,
    get_or-set_ne map (k / 8) (j / 8) (clear_mask (get_or map (k / 8) 0) (byte_mask (k % 8))) 0,
    test-set_mask (k % 8) (j % 8) (get_or map (k / 8) 0) (omega arith) (omega arith)
        (bytes (k / 8)),
  )

  pub set_bit-IsBytes : IsBytes (set_bit map k)
  unfolding set_bit
  set_bit-IsBytes i = ground (
    arith,
    get_or-set_self map (k / 8) (set_mask (get_or map (k / 8) 0) (byte_mask (k % 8))) 0 inside,
    get_or-set_ne map (k / 8) i (set_mask (get_or map (k / 8) 0) (byte_mask (k % 8))) 0,
    test-set_mask (k % 8) 0 (get_or map (k / 8) 0) (omega arith) (omega arith) (bytes (k / 8)),
    bytes i,
  )

  pub clear_bit-IsBytes : IsBytes (clear_bit map k)
  unfolding clear_bit
  clear_bit-IsBytes i = ground (
    arith,
    get_or-set_self map (k / 8) (clear_mask (get_or map (k / 8) 0) (byte_mask (k % 8))) 0 inside,
    get_or-set_ne map (k / 8) i (clear_mask (get_or map (k / 8) 0) (byte_mask (k % 8))) 0,
    test-set_mask (k % 8) 0 (get_or map (k / 8) 0) (omega arith) (omega arith) (bytes (k / 8)),
    bytes i,
  )

zero-test_mask : (mask : ℕ) → test_mask 0 mask ≡ false
unfolding test_mask
zero-test_mask mask = rw (bit_and-bitwise 0 mask)

-- After `zero_bytes` no bit of the cleared bytes is set.
pub bit_at-zero_bytes :
    (n : ℕ) (map : List ℕ) (k : ℕ) → k / 8 < n → bit_at (zero_bytes n map) k ≡ false
unfolding bit_at
bit_at-zero_bytes n map k h =
    ground (arith, get_or-zero_bytes n map (k / 8), zero-test_mask (byte_mask (k % 8)))

pub zero_bytes-IsBytes : (n : ℕ) (map : List ℕ) → IsBytes map → IsBytes (zero_bytes n map)
zero_bytes-IsBytes n map h i = ground (arith, get_or-zero_bytes n map i, h i)

pub bit_at-zeros : (n k : ℕ) → bit_at (replicate n 0) k ≡ false
unfolding bit_at test_mask
bit_at-zeros n k =
    rw (get_or-replicate {A = ℕ} n (k / 8) 0) (rw (bit_and-bitwise 0 (byte_mask (k % 8))))

pub zeros-IsBytes : (n : ℕ) → IsBytes (replicate n 0)
zeros-IsBytes n i = omega (arith, get_or-replicate {A = ℕ} n i 0)
