-- ===== src/Fs/Write/Data.antt =====
-- The second phase of `initrafs_file_write`: what the loop leaves on the device.
use native.Mathlib.Decide.{dec_lt}
use initra_os.Base.{
  ℕ, zero, suc, ◌+◌, ◌-◌, ◌/◌, ◌%◌, ◌^◌, ◌≤◌, ◌<◌, ◌≡◌, ◌⊎◌, ◌∙◌, inl, inr, sym, ap, ap₂, subst,
  refl, Bool, true, false, Option, none, some, List, arith, ltb, lt→ltb, u32, if◌then◌else◌,
  Bool-cases,
}
use initra_os.Fs.Format.{DiskInode}
use initra_os.Fs.Device.{Device}
use initra_os.Fs.File.{chunk_of}
use initra_os.Fs.Write.{write_chunk, write_loop}

module _ (device : Device) (i : DiskInode) (news : List (ℕ × ℕ)) (offset size : ℕ) (buffer : List ℕ)
    (bounded : offset + size < 2 ^ 32) where
  -- The length of the chunk that starts after `done` bytes.
  abbrev pub next_chunk : ℕ → ℕ
  next_chunk done = chunk_of ((offset + done) % 512) (size - done)

  abbrev pub chunk_result : device.State → ℕ → Bool × device.State
  chunk_result d done =
      write_chunk device d i news ((offset + done) / 512) ((offset + done) % 512) buffer done
        (next_chunk done)

  write_loop_step :
      (fuel : ℕ) (d : device.State) (done : ℕ)
      → done < size
      → write_loop device (suc fuel) d i news offset size buffer done ≡ (
          if (chunk_result d done).0
          then write_loop device fuel
              (chunk_result d done).1
              i
              news
              offset
              size
              buffer
              (done + next_chunk done)
          else (none, (chunk_result d done).1))
  unfolding write_loop
  write_loop_step fuel d done more =
      ap₂ body wrap_offset wrap_done ∙ rw (lt→ltb done size more) refl
    where
      body : ℕ → ℕ → Option ℕ × device.State
      body o next =
          let c =
            write_chunk device d i news (o / 512) (o % 512) buffer done
              (chunk_of (o % 512) (size - done)) in
          if ltb done size
          then if c.0
            then write_loop device fuel c.1 i news offset size buffer next
            else (none, c.1)
          else (some done, d)

      wrap_offset : u32 (offset + done) ≡ offset + done
      wrap_offset = omega arith

      wrap_done :
          u32 (done + chunk_of (u32 (offset + done) % 512) (size - done)) ≡ done + next_chunk done
      wrap_done = ground arith

  write_loop_end :
      (fuel : ℕ) (d : device.State) (done : ℕ)
      → size ≤ done
      → write_loop device (suc fuel) d i news offset size buffer done ≡ (some done, d)
  unfolding write_loop
  write_loop_end fuel d done stop = ground arith

  pub chunk_fits :
      (done : ℕ)
      → done < size
      → (0 < next_chunk done)
        × (done + next_chunk done ≤ size)
        × ((offset + done) % 512 + next_chunk done ≤ 512)
        × (((offset + done + next_chunk done) % 512 ≡ 0) ⊎ (size ≤ done + next_chunk done))
  chunk_fits done more = ground arith

  -- What holds at the end, or after a chunk that fails, and passes from the rest of the loop to the
  -- loop with one more chunk, holds of the loop with enough fuel.
  pub write_loop_rule {ℓ} :
      (P : device.State → ℕ → Option ℕ × device.State → Type ℓ)
      → ((d : device.State) (done : ℕ) → done ≡ size → P d done (some done, d))
      → ((d : device.State) (done : ℕ)
          → done < size
          → (chunk_result d done).0 ≡ false
          → P d done (none, (chunk_result d done).1))
      → ((d : device.State) (done : ℕ) (r : Option ℕ × device.State)
          → done < size
          → (chunk_result d done).0 ≡ true
          → P (chunk_result d done).1 (done + next_chunk done) r
          → P d done r)
      → (fuel : ℕ) (d : device.State) (done : ℕ) → done ≤ size
      → size - done < fuel
      → P d done (write_loop device fuel d i news offset size buffer done)
  write_loop_rule P stop broken step zero d done h f = absurd (omega arith)
  write_loop_rule P stop broken step (suc fuel) d done h f = elim (dec_lt done size) [
    | no past ↦
        subst (P d done) (sym (write_loop_end fuel d done (omega arith)))
          (stop d done (omega arith))
    | yes more ↦
        let fits = chunk_fits done more in
        subst (P d done) (sym (write_loop_step fuel d done more))
          (elim (Bool-cases (chunk_result d done).0) [
            | inr bad ↦ subst (P d done) (rw (bad) refl) (broken d done more bad)
            | inl good ↦ subst (P d done) (rw (good) refl) (
                step d done _ more good (
                  write_loop_rule P stop broken step fuel (chunk_result d done).1
                    (done + next_chunk done) fits.1 (omega arith)))
          ])
  ]

  -- A loop that does not fail has done all bytes.
  pub write_loop_done :
      (fuel : ℕ) (d : device.State) (done : ℕ)
      → done ≤ size
      → size - done < fuel
      → ((write_loop device fuel d i news offset size buffer done).0 ≡ none)
        ⊎ ((write_loop device fuel d i news offset size buffer done).0 ≡ some size)
  write_loop_done =
      write_loop_rule (λ d done r. (r.0 ≡ none) ⊎ (r.0 ≡ some size))
        (λ d done stop. inr (ap some stop)) (λ d done more bad. inl refl)
        (λ d done r more good rest. rest)
