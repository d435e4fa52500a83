-- ===== src/Fs/Write/Stored.antt =====
-- The second phase of `initrafs_file_write`: the bytes of the file after the loop.
use native.Mathlib.Decide.{dec_lt, ℕ_discrete}
use initra_os.Base.{
  ℕ, ◌+◌, ◌-◌, ◌/◌, ◌%◌, ◌^◌, ◌≤◌, ◌<◌, ◌≡◌, ◌⊎◌, ◌∙◌, inl, inr, sym, ap, subst, refl, true, Option,
  false, Option, some, List, arith, get_or,
}
use initra_os.Fs.Format.{DiskInode}
use initra_os.Fs.Device.{Device, IsStorage}
use initra_os.Fs.Mapping.{get_live}
use initra_os.Fs.File.Content.{content, content_live, content_same}
use initra_os.Fs.Write.{is_new, write_loop}
use initra_os.Fs.Write.Chunk.{Filled, Chunk, sent, unable, write_chunk-Chunk}
use initra_os.Fs.Write.Data.{next_chunk, chunk_result, chunk_fits, write_loop_rule}

module _ (device : Device) (storage : IsStorage device) (i : DiskInode) (news : List (ℕ × ℕ))
    (offset size : ℕ) (buffer : List ℕ) (bounded : offset + size < 2 ^ 32)
    (apart : (l k b : ℕ) → get_live i l ≡ some b → get_live i k ≡ some b → l ≡ k) where
  abbrev pub file : device.State → ℕ → Option ℕ
  file d p = content device.block_count (device.read d) i p

  -- The positions that the rest of the loop leaves alone: those in the blocks before, all at the
  -- end, and those outside the range in a block that is not new.
  abbrev pub Untouched : ℕ → ℕ → Type 0
  Untouched done p =
      (p / 512 < (offset + done) / 512)
      ⊎ ((size ≤ done)
          ⊎ (((p < offset + done) ⊎ (offset + size ≤ p)) × (is_new news (p / 512) ≡ false)))

  pub record Stored (d : device.State) (done : ℕ) (r : Option ℕ × device.State) : Type 0 where
    pub inside :
        r.0 ≡ some size
        → (k : ℕ) → done ≤ k
        → k < size
        → file r.1 (offset + k) ≡ some (get_or buffer k 0)
    pub outside : r.0 ≡ some size → (p : ℕ) → Untouched done p → file r.1 p ≡ file d p

  -- A chunk that the device took.
  module _ (d : device.State) (done : ℕ) (more : done < size) (b : ℕ) (old bytes : List ℕ)
      (taken : (device.write d b bytes).0 ≡ true)
      (mapped : get_live i ((offset + done) / 512) ≡ some b) (on_device : b < device.block_count)
      (f : Filled old
        ((offset + done) % 512)
        buffer
        done
        (next_chunk device i news offset size buffer bounded done)
        bytes) where
    abbrev n : ℕ
    n = next_chunk device i news offset size buffer bounded done

    abbrev d' : device.State
    d' = (device.write d b bytes).1

    sent_inside :
        (k : ℕ) → done ≤ k → k < done + n → file d' (offset + k) ≡ some (get_or buffer k 0)
    sent_inside k lo hi =
        let fits = chunk_fits device i news offset size buffer bounded done more in
        let q : (offset + k) / 512 ≡ (offset + done) / 512 = omega (arith, fits.2) in
        let m : (offset + k) % 512 ≡ (offset + done) % 512 + (k - done) = omega (arith, fits.2) in
        content_live device.block_count (device.read d') i (offset + k) b bytes
          (ap (get_live i) q ∙ mapped) on_device (storage.read-write d b bytes f.full_block taken)
        ∙ ap some (
            ap (λ t. get_or bytes t 0) m
            ∙ (f.inside (k - done) (omega arith) ∙ ap (λ t. get_or buffer t 0) (omega arith)))

    sent_outside :
        ((is_new news ((offset + done) / 512) ≡ true)
          ⊎ ((((offset + done) % 512 ≡ 0) × (n ≡ 512)) ⊎ (device.read d b ≡ some old)))
        → (p : ℕ) → Untouched done p
        → file d' p ≡ file d p
    sent_outside why p away = elim (ℕ_discrete (p / 512) ((offset + done) / 512)) [
      | no other ↦
          content_same device.block_count (device.read d) (device.read d') i i p refl (λ c e.
            storage.read-write_ne d b c bytes
              (λ same. other (apart _ _ c e (mapped ∙ ap some same))))
      | yes here ↦ elim away [
        | inl before ↦ absurd (omega arith)
        | inr (inl past) ↦ absurd (omega arith)
        | inr (inr (out, old_block)) ↦ elim why [
          | inl fresh ↦ absurd (ground (arith, ap (is_new news) here))
          | inr (inl whole) ↦
              absurd (omega (arith, chunk_fits device i news offset size buffer bounded done more))
          | inr (inr q) ↦
              let at : get_live i (p / 512) ≡ some b = ap (get_live i) here ∙ mapped in
              content_live device.block_count (device.read d') i p b bytes at on_device
                (storage.read-write d b bytes f.full_block taken)
              ∙ (ap some (
                    f.outside (p % 512) (
                      omega (arith, chunk_fits device i news offset size buffer bounded done more)))
                  ∙ sym (content_live device.block_count (device.read d) i p b old at on_device q))
        ]
      ]
    ]

    sent-Stored :
        (r : Option ℕ × device.State)
        → ((is_new news ((offset + done) / 512) ≡ true)
            ⊎ ((((offset + done) % 512 ≡ 0) × (n ≡ 512)) ⊎ (device.read d b ≡ some old)))
        → Stored d' (done + n) r
        → Stored d done r
    sent-Stored r why s =
        let fits = chunk_fits device i news offset size buffer bounded done more in
        record {
          inside = λ good k lo hi. elim (dec_lt k (done + n)) [
            | no past ↦ s.inside good k (omega arith) hi
            | yes near ↦
                s.outside good (offset + k)
                  (elim (fits.3) [ inl aligned ↦ inl (omega arith) | inr past ↦ inr (inl past) ])
                ∙ sent_inside k lo near
          ];
          outside = λ good p away.
              s.outside good p (elim away [
                | inl before ↦ inl (omega (arith, fits.0))
                | inr (inl past) ↦ absurd (omega arith)
                | inr (inr (out, old_block)) ↦ inr (inr (ground arith, old_block))
              ])
              ∙ sent_outside why p away;
        }

  pub write_loop-Stored :
      (fuel : ℕ) (d : device.State) (done : ℕ)
      → done ≤ size
      → size - done < fuel
      → Stored d done (write_loop device fuel d i news offset size buffer done)
  write_loop-Stored =
      write_loop_rule device i news offset size buffer bounded Stored
        (λ d done stop. record {
          inside = λ _ k lo hi. absurd (omega arith);
          outside = λ _ p _. refl;
        })
        (λ d done more bad. record {
          inside = λ good. absurd (ground arith);
          outside = λ good. absurd (ground arith);
        })
        (λ d done r more good s. elim (chunk_cases d done more) [
          | unable q why ↦ absurd (ground (arith, ap (λ c. c.0) q))
          | sent b old bytes q mapped on_device f why ↦
              sent-Stored d done more b old bytes (sym (ap (λ c. c.0) q) ∙ good) mapped on_device f
                r why
                (subst
                  (λ x.
                    Stored x (done + next_chunk device i news offset size buffer bounded done) r)
                  (ap (λ c. c.1) q) s)
        ])
    where
      chunk_cases :
          (d : device.State) (done : ℕ)
          → done < size
          → Chunk device storage d i news
              ((offset + done) / 512)
              ((offset + done) % 512)
              buffer
              done
              (next_chunk device i news offset size buffer bounded done)
              (chunk_result device i news offset size buffer bounded d done)
      chunk_cases d done more =
          write_chunk-Chunk device storage d i news ((offset + done) / 512) ((offset + done) % 512)
            buffer done (next_chunk device i news offset size buffer bounded done)
            (chunk_fits device i news offset size buffer bounded done more).2
