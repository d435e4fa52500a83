-- ===== src/Fs/Write/Chunk.antt =====
-- One block of the second phase of `initrafs_file_write`.
use native.Mathlib.Decide.{dec_lt}
use initra_os.Base.{
  ℕ, ◌+◌, ◌-◌, ◌≤◌, ◌<◌, ◌≡◌, ◌⊎◌, ◌∙◌, inl, inr, ap, refl, Bool, true, false, ◌&&◌, none, some,
  List, arith, leb, ◌==◌, length, get_or, replicate, length-replicate, Option-cases, Bool-cases,
}
use initra_os.Fs.Format.{DiskInode}
use initra_os.Fs.Device.{Device, IsStorage}
use initra_os.Fs.Mapping.{get_live}
use initra_os.Fs.File.{copy_bytes}
use initra_os.Fs.File.Copy.{length-copy_bytes, get_or-copy_bytes}
use initra_os.Fs.Write.{is_new, write_chunk}

-- A block with a part of the buffer copied into it.
pub record Filled (old : List ℕ) (from : ℕ) (buffer : List ℕ) (done n : ℕ) (bytes : List ℕ)
    : Type 0 where
  pub full_block : length bytes ≡ 512
  pub inside : (k : ℕ) → k < n → get_or bytes (from + k) 0 ≡ get_or buffer (done + k) 0
  pub outside : (j : ℕ) → (j < from) ⊎ (from + n ≤ j) → get_or bytes j 0 ≡ get_or old j 0

copied-Filled :
    (old : List ℕ) (from : ℕ) (buffer : List ℕ) (done n : ℕ)
    → length old ≡ 512
    → from + n ≤ 512
    → Filled old from buffer done n (copy_bytes old from buffer done n)
copied-Filled old from buffer done n full fits = record {
  full_block = length-copy_bytes old from buffer done n ∙ full;
  inside = λ k lt.
      get_or-copy_bytes old from buffer done n (from + k) (omega arith)
      ∙ ground (arith, ap (λ t. get_or buffer t 0) (same k));
  outside = λ j away. get_or-copy_bytes old from buffer done n j (omega arith) ∙ ground arith;
}
  where
    same : (k : ℕ) → done + (from + k - from) ≡ done + k
    same k = omega arith

module _ (device : Device) (storage : IsStorage device) where
  -- The two outcomes: a filled block is written to where the logical block is mapped, or the block is
  -- not mapped, outside the device or cannot be read, and nothing is written.
  pub data Chunk (d : device.State) (i : DiskInode) (news : List (ℕ × ℕ)) (l from : ℕ)
      (buffer : List ℕ) (done n : ℕ) (r : Bool × device.State) : Type 0 where
    sent :
        (b : ℕ) (old bytes : List ℕ)
        → r ≡ device.write d b bytes
        → get_live i l ≡ some b
        → b < device.block_count
        → Filled old from buffer done n bytes
        → ((is_new news l ≡ true) ⊎ (((from ≡ 0) × (n ≡ 512)) ⊎ (device.read d b ≡ some old)))
        → Chunk d i news l from buffer done n r
    unable :
        r ≡ (false, d)
        → ((b : ℕ) → get_live i l ≡ some b → b < device.block_count → device.read d b ≡ none)
        → Chunk d i news l from buffer done n r

  module _ (d : device.State) (i : DiskInode) (news : List (ℕ × ℕ)) (l from : ℕ) (buffer : List ℕ)
      (done n : ℕ) (fits : from + n ≤ 512) where
    blank : length {A = ℕ} (replicate 512 0) ≡ 512
    blank = length-replicate {A = ℕ} 512 0

    mapped-Chunk :
        (b : ℕ)
        → get_live i l ≡ some b
        → b < device.block_count
        → leb device.block_count b ≡ false
        → Chunk d i news l from buffer done n (write_chunk device d i news l from buffer done n)
    unfolding write_chunk
    mapped-Chunk b e h out = elim (Bool-cases (from == 0 && n == 512)) [
      | inl whole ↦
          let z : from ≡ 0 = ground arith in
          let w : n ≡ 512 = ground arith in
          sent b (replicate 512 0) (copy_bytes (replicate 512 0) 0 buffer done 512)
            (rw (write_chunk, e, out, whole) refl) e h
            (rw (z, w) (copied-Filled (replicate 512 0) 0 buffer done 512 blank (omega arith)))
            (inr (inl (z, w)))
      | inr part ↦ elim (Bool-cases (is_new news l)) [
        | inl fresh ↦
            sent b (replicate 512 0) (copy_bytes (replicate 512 0) from buffer done n)
              (rw (write_chunk, e, out, part, fresh) refl) e h
              (copied-Filled (replicate 512 0) from buffer done n blank fits) (inl fresh)
        | inr old_block ↦ elim (Option-cases (device.read d b)) [
          | inl gone ↦
              unable (rw (write_chunk, e, out, part, old_block, gone) refl)
                (λ c f lt. ground (arith, e, f, gone, ap (device.read d)))
          | inr (old, q) ↦
              sent b old (copy_bytes old from buffer done n)
                (rw (write_chunk, e, out, part, old_block, q) refl) e h
                (copied-Filled old from buffer done n (storage.full_block d b old q) fits)
                (inr (inr q))
        ]
      ]
    ]

    pub write_chunk-Chunk :
        Chunk d i news l from buffer done n (write_chunk device d i news l from buffer done n)
    unfolding write_chunk
    write_chunk-Chunk = elim (Option-cases (get_live i l)) [
      | inl e ↦ unable (rw (write_chunk, e) refl) (λ c f lt. ground arith)
      | inr (b, e) ↦ elim (dec_lt b device.block_count) [
        | yes h ↦ mapped-Chunk b e h (ground arith)
        | no h ↦
            let out : leb device.block_count b ≡ true = ground arith in
            unable (rw (write_chunk, e, out) refl) (λ c f lt. ground arith)
      ]
    ]
