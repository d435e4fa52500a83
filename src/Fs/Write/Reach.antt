-- ===== src/Fs/Write/Reach.antt =====
-- The second phase of `initrafs_file_write`: which blocks it writes, and when it does not fail.
use initra_os.Base.{
  ℕ, ◌+◌, ◌-◌, ◌%◌, ◌/◌, ◌^◌, ◌≤◌, ◌<◌, ◌≡◌, ◌≢◌, ◌∙◌, ap, refl, true, some, List, arith,
}
use initra_os.Fs.Format.{DiskInode}
use initra_os.Fs.Device.{Device, IsStorage, IsHealthy}
use initra_os.Fs.Mapping.{get_live}
use initra_os.Fs.Write.{write_loop}
use initra_os.Fs.Write.Chunk.{sent, unable, write_chunk-Chunk}
use initra_os.Fs.Write.Data.{next_chunk, chunk_result, chunk_fits, write_loop_rule}

module _ (device : Device) (storage : IsStorage device) (i : DiskInode) (news : List (ℕ × ℕ))
    (offset size : ℕ) (buffer : List ℕ) (bounded : offset + size < 2 ^ 32) where
  -- A block that no logical block is mapped to keeps its bytes.
  abbrev Elsewhere : device.State → device.State → Type 0
  Elsewhere d d' = (b : ℕ) → ((l : ℕ) → get_live i l ≢ some b) → device.read d' b ≡ device.read d b

  chunk-Elsewhere :
      (d : device.State) (done : ℕ)
      → done < size
      → Elsewhere d (chunk_result device i news offset size buffer bounded d done).1
  chunk-Elsewhere d done more b free =
      elim (write_chunk-Chunk device storage d i news ((offset + done) / 512)
        ((offset + done) % 512) buffer done
        (next_chunk device i news offset size buffer bounded done)
        (chunk_fits device i news offset size buffer bounded done more).2) [
          | unable q why ↦ ap (λ c. device.read c.1 b) q
          | sent c old bytes q mapped on_device f why ↦
              ap (λ r. device.read r.1 b) q
              ∙ storage.read-write_ne d c b bytes (λ e. free _ (mapped ∙ ap some e))
        ]

  pub write_loop-Elsewhere :
      (fuel : ℕ) (d : device.State) (done : ℕ)
      → done ≤ size
      → size - done < fuel
      → Elsewhere d (write_loop device fuel d i news offset size buffer done).1
  write_loop-Elsewhere =
      write_loop_rule device i news offset size buffer bounded (λ d done r. Elsewhere d r.1)
        (λ d done stop b free. refl) (λ d done more bad b free. chunk-Elsewhere d done more b free)
        (λ d done r more good rest b free. rest b free ∙ chunk-Elsewhere d done more b free)

  -- With a healthy device and all blocks of the range mapped inside it, the loop succeeds.
  module _ (healthy : IsHealthy device)
      (mapped_all : (l : ℕ)
        → offset / 512 ≤ l
        → l < (offset + size + 511) / 512
        → (b : ℕ) × (get_live i l ≡ some b) × (b < device.block_count)) where
    chunk_succeeds :
        (d : device.State) (done : ℕ)
        → done < size
        → (chunk_result device i news offset size buffer bounded d done).0 ≡ true
    chunk_succeeds d done more =
        let there = mapped_all ((offset + done) / 512) (omega arith) (omega arith) in
        elim (write_chunk-Chunk device storage d i news ((offset + done) / 512)
          ((offset + done) % 512) buffer done
          (next_chunk device i news offset size buffer bounded done)
          (chunk_fits device i news offset size buffer bounded done more).2) [
            | unable q why ↦ absurd (healthy.reads d there.0 there.2 (why there.0 there.1 there.2))
            | sent c old bytes q mapped on_device f why ↦
                ap (λ r. r.0) q ∙ healthy.writes d c bytes on_device f.full_block
          ]

    pub write_loop_succeeds :
        (fuel : ℕ) (d : device.State) (done : ℕ)
        → done ≤ size
        → size - done < fuel
        → (write_loop device fuel d i news offset size buffer done).0 ≡ some size
    write_loop_succeeds =
        write_loop_rule device i news offset size buffer bounded (λ d done r. r.0 ≡ some size)
          (λ d done stop. ap some stop)
          (λ d done more bad. absurd (ground (arith, chunk_succeeds d done more)))
          (λ d done r more good rest. rest)
