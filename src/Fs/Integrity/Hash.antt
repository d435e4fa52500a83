-- ===== src/Fs/Integrity/Hash.antt =====
-- FNV-1a of `initrafs_inode_integrity_checksum`, round by round.
use initra_os.Base.{
  ℕ, ◌*◌, ◌^◌, ◌<◌, ◌≡◌, ◌≢◌, sym, ap, ◌∙◌, List, [], ◌∷◌, arith, u32, All, bit_xor, bit_xor_cancel,
  bit_xor_comm, bit_xor-lt_word,
}
use initra_os.Fs.Integrity.{fnv_prime, hash_step, hash_bytes}

unprime : (z : ℕ) → z < 2 ^ 32 → u32 (u32 (z * fnv_prime) * 899433627) ≡ z
unprime z h = omega arith

-- The inverse of the prime modulo 2 ^ 32 undoes the multiplication.
times_prime-injective :
    (x y : ℕ) → x < 2 ^ 32 → y < 2 ^ 32 → u32 (x * fnv_prime) ≡ u32 (y * fnv_prime) → x ≡ y
times_prime-injective x y hx hy e =
    sym (unprime x hx) ∙ ap (λ t. u32 (t * 899433627)) e ∙ unprime y hy

hash_step-lt : (h b : ℕ) → hash_step h b < 2 ^ 32
unfolding hash_step
hash_step-lt h b = omega arith

pub hash_bytes-lt : (h : ℕ) (xs : List ℕ) → h < 2 ^ 32 → hash_bytes h xs < 2 ^ 32
unfolding hash_bytes
hash_bytes-lt h [] k = k
hash_bytes-lt h (x ∷ xs) k = hash_bytes-lt (hash_step h x) xs (hash_step-lt h x)

step-xor :
    (h k a b : ℕ)
    → h < 2 ^ 32
    → k < 2 ^ 32
    → a < 256
    → b < 256
    → hash_step h a ≡ hash_step k b
    → bit_xor h a ≡ bit_xor k b
unfolding hash_step
step-xor h k a b hh hk ha hb e =
    times_prime-injective (bit_xor h a) (bit_xor k b) (bit_xor-lt_word h a hh (omega arith))
      (bit_xor-lt_word k b hk (omega arith)) e

-- Different running hashes stay different whatever bytes follow.
hash_bytes-injective :
    (h k : ℕ) (xs : List ℕ)
    → h < 2 ^ 32
    → k < 2 ^ 32
    → All (λ x. x < 256) xs
    → hash_bytes h xs ≡ hash_bytes k xs
    → h ≡ k
unfolding hash_bytes
hash_bytes-injective h k [] hh hk bs e = e
hash_bytes-injective h k (x ∷ xs) hh hk bs e =
    let same = step-xor h k x x hh hk bs.0 bs.0 (
      hash_bytes-injective (hash_step h x) (hash_step k x) xs (hash_step-lt h x) (hash_step-lt k x)
        bs.1 e) in
    sym (bit_xor_cancel h x) ∙ ap (λ t. bit_xor t x) same ∙ bit_xor_cancel k x

-- Two byte strings of one length that differ in exactly one place.
pub data OneByteApart : List ℕ → List ℕ → Type 0 where
  here : {x y : ℕ} (zs : List ℕ) → x ≢ y → OneByteApart (x ∷ zs) (y ∷ zs)
  there : (x : ℕ) {xs ys : List ℕ} → OneByteApart xs ys → OneByteApart (x ∷ xs) (x ∷ ys)

xor_byte-injective : (h a b : ℕ) → bit_xor h a ≡ bit_xor h b → a ≡ b
xor_byte-injective h a b e =
    sym (bit_xor_cancel a h)
    ∙ ap (λ t. bit_xor t h) (bit_xor_comm a h ∙ e ∙ bit_xor_comm h b)
    ∙ bit_xor_cancel b h

-- One changed byte changes the hash.
pub hash_bytes-OneByteApart :
    (h : ℕ) {xs ys : List ℕ}
    → h < 2 ^ 32
    → All (λ x. x < 256) xs
    → All (λ x. x < 256) ys
    → OneByteApart xs ys
    → hash_bytes h xs ≢ hash_bytes h ys
unfolding hash_bytes
hash_bytes-OneByteApart h hh bx by (here {x = x} {y = y} zs ne) e = ne (
    xor_byte-injective h x y (
      step-xor h h x y hh hh bx.0 by.0 (
        hash_bytes-injective (hash_step h x) (hash_step h y) zs (hash_step-lt h x)
          (hash_step-lt h y) bx.1 e)))
hash_bytes-OneByteApart h hh bx by (there x apart) e =
    hash_bytes-OneByteApart (hash_step h x) (hash_step-lt h x) bx.1 by.1 apart e
