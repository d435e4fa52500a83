-- ===== src/Fs/File/Laws.antt =====
-- `initrafs_file_read` against the bytes that the inode's blocks hold.
use native.Mathlib.Decide.{dec_lt, ℕ_discrete}
use initra_os.Base.{
  ℕ, zero, suc, ◌+◌, ◌-◌, ◌/◌, ◌%◌, ◌≤◌, ◌<◌, ◌≡◌, ◌⊎◌, inl, inr, refl, sym, ap, ap₂, subst, ◌∙◌,
  ◌&&◌, Option, none, some, List, arith, ltb, leb, lt→ltb, if◌then◌else◌, length, get_or, u32,
  Option-cases, ◌^◌,
}
use initra_os.Fs.Format.{DiskInode}
use initra_os.Fs.File.Content.{block_at, content}
use initra_os.Fs.File.Copy.{length-copy_bytes, get_or-copy_bytes}
use initra_os.Fs.File.{copy_bytes, chunk_of, read_chunk, read_loop, read_live}

module _ (block_count : ℕ) (read : ℕ → Option (List ℕ)) where
  -- The outcome of reading the positions from `done` on, below `size`, of the file from `offset`.
  pub data Outcome (i : DiskInode) (offset size : ℕ) (buffer : List ℕ) (done : ℕ)
      (r : Option ℕ × List ℕ) : Type 0 where
    complete :
        (filled : List ℕ)
        → r ≡ (some size, filled)
        → length filled ≡ length buffer
        → ((k : ℕ)
            → done ≤ k
            → k < size
            → content block_count read i (offset + k) ≡ some (get_or filled k 0))
        → ((k : ℕ) → (k < done) ⊎ (size ≤ k) → get_or filled k 0 ≡ get_or buffer k 0)
        → Outcome i offset size buffer done r
    broken :
        (k : ℕ)
        → done ≤ k
        → k < size
        → content block_count read i (offset + k) ≡ none
        → r.0 ≡ none
        → Outcome i offset size buffer done r

  read_chunk_lem :
      (i : DiskInode) (l from : ℕ) (buffer : List ℕ) (done n : ℕ)
      → read_chunk block_count read i l from buffer done n
        ≡ elim (block_at block_count read i l) as (λ _. Option (List ℕ)) [
          | none ↦ none
          | some block ↦ some (copy_bytes buffer done block from n)
        ]
  unfolding read_chunk block_at
  read_chunk_lem i l from buffer done n = ground (arith, whole)
    where
      whole :
          (block : List ℕ)
          → from ≡ 0
          → n ≡ 512
          → copy_bytes buffer done block 0 512 ≡ copy_bytes buffer done block from n
      whole block e f = rw (e, f) refl

  -- One chunk: all its bytes are read, or none of them is there.
  chunk_cases :
      (i : DiskInode) (o : ℕ) (buffer : List ℕ) (done n : ℕ)
      → o % 512 + n ≤ 512
      → ((read_chunk block_count read i (o / 512) (o % 512) buffer done n ≡ none)
          × (content block_count read i o ≡ none))
        ⊎ ((block : List ℕ) × (read_chunk block_count read i (o / 512) (o % 512) buffer done n
              ≡ some (copy_bytes buffer done block (o % 512) n))
            × ((k : ℕ)
                → k < n
                → content block_count read i (o + k) ≡ some (get_or block (o % 512 + k) 0)))
  unfolding content
  chunk_cases i o buffer done n h = elim (Option-cases (block_at block_count read i (o / 512))) [
    | inl e ↦
        inl (read_chunk_lem i (o / 512) (o % 512) buffer done n ∙ rw (e) refl, rw (content, e) refl)
    | inr (block, e) ↦ inr (
      block,
      read_chunk_lem i (o / 512) (o % 512) buffer done n ∙ rw (e) refl,
      λ k lt.
          let q : (o + k) / 512 ≡ o / 512 = omega arith in
          let m : (o + k) % 512 ≡ o % 512 + k = omega arith in
          rw (content, q, e) (ap (λ t. some (get_or block t 0)) m),
    )
  ]

  read_loop_step :
      (fuel : ℕ) (i : DiskInode) (offset size : ℕ) (buffer : List ℕ) (done : ℕ)
      → offset + size < 2 ^ 32
      → done < size
      → let o = offset + done in
        let n = chunk_of (o % 512) (size - done) in
        read_loop block_count read (suc fuel) i offset size buffer done
        ≡ elim (read_chunk block_count read i (o / 512) (o % 512) buffer done n)
            as (λ _. Option ℕ × List ℕ) [
              | none ↦ (none, buffer)
              | some filled ↦ read_loop block_count read fuel i offset size filled (done + n)
            ]
  unfolding read_loop
  read_loop_step fuel i offset size buffer done b more =
      ap₂ body wrap_offset wrap_done ∙ rw (lt→ltb done size more) refl
    where
      body : ℕ → ℕ → Option ℕ × List ℕ
      body o d =
          if ltb done size
          then elim (read_chunk block_count read i (o / 512) (o % 512) buffer done
                (chunk_of (o % 512) (size - done)))
              as (λ _. Option ℕ × List ℕ) [
                | none ↦ (none, buffer)
                | some filled ↦ read_loop block_count read fuel i offset size filled d
              ]
          else (some done, buffer)

      wrap_offset : u32 (offset + done) ≡ offset + done
      wrap_offset = omega arith

      wrap_done :
          u32 (done + chunk_of (u32 (offset + done) % 512) (size - done))
          ≡ done + chunk_of ((offset + done) % 512) (size - done)
      wrap_done = ground arith

  -- The outcome from the end of a chunk is the outcome from its beginning.
  extend :
      (i : DiskInode) (offset size : ℕ) (buffer : List ℕ) (done : ℕ) (block : List ℕ) (from n : ℕ)
      (r : Option ℕ × List ℕ)
      → done + n ≤ size
      → size ≤ length buffer
      → ((k : ℕ)
          → k < n
          → content block_count read i (offset + done + k) ≡ some (get_or block (from + k) 0))
      → Outcome i offset size (copy_bytes buffer done block from n) (done + n) r
      → Outcome i offset size buffer done r
  extend i offset size buffer done block from n r d b c (broken k lo hi gone bad) =
      broken k (omega arith) hi gone bad
  extend i offset size buffer done block from n r d b c (complete filled q same here there) =
      complete filled q (same ∙ length-copy_bytes buffer done block from n) inside outside
    where
      copied :
          (k : ℕ)
          → get_or (copy_bytes buffer done block from n) k 0 ≡ (
              if leb done k && ltb k (done + n)
              then get_or block (from + (k - done)) 0
              else get_or buffer k 0)
      copied k = get_or-copy_bytes buffer done block from n k (omega arith)

      inside :
          (k : ℕ)
          → done ≤ k
          → k < size
          → content block_count read i (offset + k) ≡ some (get_or filled k 0)
      inside k lo hi = elim (dec_lt k (done + n)) [
        | no past ↦ here k (omega arith) hi
        | yes near ↦
            let copy : get_or filled k 0 ≡ get_or block (from + (k - done)) 0 =
              there k (inl near) ∙ (copied k ∙ ground arith) in
            ap (content block_count read i) (omega arith)
            ∙ (c (k - done) (omega arith) ∙ ap some (sym copy))
      ]

      outside : (k : ℕ) → (k < done) ⊎ (size ≤ k) → get_or filled k 0 ≡ get_or buffer k 0
      outside k away = there k (ground arith) ∙ (copied k ∙ ground arith)

  read_loop-Outcome :
      (fuel : ℕ) (i : DiskInode) (offset size : ℕ) (buffer : List ℕ) (done : ℕ)
      → offset + size < 2 ^ 32
      → size ≤ length buffer
      → done ≤ size
      → size - done < fuel
      → Outcome i offset size buffer done
          (read_loop block_count read fuel i offset size buffer done)
  read_loop-Outcome zero i offset size buffer done o b d f = absurd (omega arith)
  read_loop-Outcome (suc fuel) i offset size buffer done o b d f = elim (dec_lt done size) [
    | no stop ↦
        complete buffer (unfold read_loop in ground arith) refl (λ k lo hi. absurd (omega arith))
          (λ _ _. refl)
    | yes more ↦
        let n = chunk_of ((offset + done) % 512) (size - done) in
        let fits : (0 < n) × (done + n ≤ size) × ((offset + done) % 512 + n ≤ 512) = ground arith in
        elim (chunk_cases i (offset + done) buffer done n fits.2) [
          | inl (e, gone) ↦
              broken done (omega arith) more gone
                (rw (read_loop_step fuel i offset size buffer done o more, e) refl)
          | inr (block, e, there) ↦
              subst (Outcome i offset size buffer done)
                (sym (read_loop_step fuel i offset size buffer done o more ∙ rw (e) refl))
                (extend i offset size buffer done block ((offset + done) % 512) n _ fits.1 b there (
                  read_loop-Outcome fuel i offset size
                    (copy_bytes buffer done block ((offset + done) % 512) n) (done + n) o
                    (omega (arith, length-copy_bytes buffer done block ((offset + done) % 512) n))
                    fits.1 (omega (arith, fits.0))))
        ]
  ]

  -- What `initrafs_file_read` reads at most: up to the end of the file.
  abbrev pub wanted : DiskInode → ℕ → ℕ → ℕ
  wanted i offset size = if ltb (i.size - offset) size then i.size - offset else size

  -- With a file of fewer than 2 ^ 32 bytes and a buffer of at least the size asked for,
  -- `initrafs_file_read`, past its first guards, has one of two results: the buffer receives the
  -- file's bytes from the offset on, up to the file's end or the size asked for, their number is
  -- returned and the rest of the buffer is as it was; or one of these bytes is in no block that is
  -- mapped, on the device and readable, and then the call fails.
  pub read_live-Outcome :
      (i : DiskInode) (offset : ℕ) (buffer : List ℕ) (size : ℕ)
      → i.size < 2 ^ 32
      → size ≤ length buffer
      → Outcome i offset
          (wanted i offset size)
          buffer
          0
          (read_live block_count read i offset buffer size)
  unfolding read_live
  read_live-Outcome i offset buffer size b l = elim (ℕ_discrete (wanted i offset size) 0) [
    | yes none_wanted ↦
        complete buffer (ground arith) refl (λ k lo hi. absurd (omega arith)) (λ _ _. refl)
    | no some_wanted ↦
        let w = wanted i offset size in
        subst (Outcome i offset w buffer 0) (ground arith) (
          read_loop-Outcome (w + 1) i offset w buffer 0 (ground arith) (ground arith) (omega arith)
            (omega arith))
  ]
