-- ===== src/Fs/Write/Blocks.antt =====
-- The first phase of `initrafs_file_write`: every block of the range is mapped, or all is rolled back.
use initra_os.Base.{
  ℕ, zero, suc, ◌+◌, ◌≤◌, ◌<◌, ◌≡◌, ◌≢◌, inl, inr, sym, ap, subst, refl, false, ◌||◌, leb, ◌==◌,
  none, some, List, ◌∷◌, arith, Option-cases,
}
use initra_os.Fs.Format.{DiskInode}
use initra_os.Fs.Blocks.{BlockAllocator, alloc_live}
use initra_os.Fs.Blocks.Inv.{IsValid}
use initra_os.Fs.Blocks.Laws.{full, taken, alloc_live-Allocated}
use initra_os.Fs.Mapping.{get_live, map_live}
use initra_os.Fs.Mapping.Laws.{IsSound, SameObject, map_live_iff, map_live_lem}
use initra_os.Fs.File.{rollback_blocks}
use initra_os.Fs.File.Rollback.{
  Acquired, another, AsBefore, Acquired-Undone, rollback_blocks-AsBefore,
  rollback_blocks-SameObject, SameObject-trans,
}
use initra_os.Fs.Write.{Allocation, allocated, rolled_back, allocate_blocks}

-- One round, by what it meets.
module _ (block_count rounds l : ℕ) (i : DiskInode) (a : BlockAllocator) (news : List (ℕ × ℕ)) where
  round_mapped :
      (b : ℕ)
      → get_live i l ≡ some b
      → allocate_blocks block_count (suc rounds) l i a news
        ≡ allocate_blocks block_count rounds (l + 1) i a news
  unfolding allocate_blocks
  round_mapped b e = rw (allocate_blocks, e) refl

  round_full :
      get_live i l ≡ none
      → alloc_live a ≡ (0, a)
      → allocate_blocks block_count (suc rounds) l i a news ≡ rolled_back (rollback_blocks i a news)
  unfolding allocate_blocks
  round_full e q = rw (allocate_blocks, e, q, q) refl

  round_taken :
      (b : ℕ) (i' : DiskInode) (a' : BlockAllocator)
      → get_live i l ≡ none
      → alloc_live a ≡ (b, a')
      → (b == 0 || leb block_count b) ≡ false
      → map_live i a'.superblock l b ≡ some i'
      → allocate_blocks block_count (suc rounds) l i a news
        ≡ allocate_blocks block_count rounds (l + 1) i' a' ((l, b) ∷ news)
  unfolding allocate_blocks
  round_taken b i' a' e q inside mapped =
      rw (allocate_blocks, e, q, inside, q, mapped)
        (ap (λ p. allocate_blocks block_count rounds (l + 1) i' p.1 ((l, p.0) ∷ news)) q)

module _ (i₀ : DiskInode) (m₀ : List ℕ) (a₀ : BlockAllocator) (s : IsSound i₀) (v : IsValid m₀ a₀)
    (block_count : ℕ) (covered : a₀.total_blocks ≤ block_count) where
  -- The two results of the phase from an inode and an allocator on: all blocks of the range are
  -- mapped and the others as before, or the allocator had fewer free blocks than rounds were left.
  pub data Phase (rounds first : ℕ) (i : DiskInode) (a : BlockAllocator) (r : Allocation)
      : Type 0 where
    complete :
        (i' : DiskInode) (a' : BlockAllocator) (news : List (ℕ × ℕ))
        → r ≡ allocated i' a' news
        → Acquired i₀ a₀ news i' a'
        → ((l : ℕ) → first ≤ l → l < first + rounds → get_live i' l ≢ none)
        → ((l b : ℕ) → get_live i l ≡ some b → get_live i' l ≡ some b)
        → Phase rounds first i a r
    exhausted :
        (back : DiskInode × BlockAllocator)
        → r ≡ rolled_back back
        → AsBefore i₀ m₀ a₀ s v back
        → SameObject i₀ back.0
        → a.free_blocks < rounds
        → Phase rounds first i a r

  -- The last rounds, after a first that left an inode which maps the first block.
  later :
      (rounds first : ℕ) (i i' : DiskInode) (a a' : BlockAllocator) {r : Allocation}
      → get_live i' first ≢ none
      → ((l b : ℕ) → get_live i l ≡ some b → get_live i' l ≡ some b)
      → a.free_blocks ≤ a'.free_blocks + 1
      → Phase rounds (first + 1) i' a' r
      → Phase (suc rounds) first i a r
  later rounds first i i' a a' here kept free (complete i₁ a₁ news q acquired all kept₁) =
      complete i₁ a₁ news q acquired
        (λ l lo hi. elim (Option-cases (get_live i₁ l)) [
          | inr (b, e) ↦ ground (arith, e)
          | inl e ↦ elim (Option-cases (get_live i' first)) [
            | inl gone ↦ absurd (here gone)
            | inr (b, f) ↦ ground (arith, e, kept₁ first b f, all l, ap (get_live i₁))
          ]
        ])
        (λ l b e. kept₁ l b (kept l b e))
  later rounds first i i' a a' here kept free (exhausted back q as_before same few) =
      exhausted back q as_before same (omega arith)

  pub allocate_blocks-Phase :
      (rounds first : ℕ) (i : DiskInode) (a : BlockAllocator) (news : List (ℕ × ℕ))
      → first + rounds ≤ 8
      → Acquired i₀ a₀ news i a
      → Phase rounds first i a (allocate_blocks block_count rounds first i a news)
  unfolding allocate_blocks
  allocate_blocks-Phase zero first i a news small acquired =
      complete i a news refl acquired (λ l lo hi. absurd (omega arith)) (λ l b e. e)
  allocate_blocks-Phase (suc rounds) first i a news small acquired =
      elim (Option-cases (get_live i first)) [
        | inr (b, e) ↦
            subst (Phase (suc rounds) first i a)
              (sym (round_mapped block_count rounds first i a news b e))
              (later rounds first i i a a (ground (arith, e)) (λ l c f. f) (omega arith)
                (allocate_blocks-Phase rounds (first + 1) i a news (omega arith) acquired))
        | inl fresh ↦
            let u = Acquired-Undone i₀ m₀ a₀ s v news i a acquired in
            elim (alloc_live-Allocated u.now.bitmap a u.now.valid) [
              | full z q ↦
                  exhausted (rollback_blocks i a news)
                    (round_full block_count rounds first i a news fresh q)
                    (rollback_blocks-AsBefore i₀ m₀ a₀ s v news i a acquired)
                    (SameObject-trans i₀ i (rollback_blocks i a news).0 u.same
                      (rollback_blocks-SameObject news i a u.now.sound))
                    (omega arith)
              | taken b a' q found root v' same less ↦
                  let lo : 0 < b = omega (arith, found.from_start, u.now.valid.starts) in
                  let hi : b < a.total_blocks =
                    omega (arith, found.before_end, u.now.valid.nonempty) in
                  elim (Option-cases (map_live i a'.superblock first b)) [
                    | inl refused ↦ absurd (
                        (map_live_iff i a'.superblock first b).1
                          (
                            omega arith,
                            fresh,
                            omega (arith, v'.layout, same, found.from_start, root),
                            omega (arith, v'.layout, same),
                          )
                          refused)
                    | inr (i', mapped) ↦
                        let changed = map_live_lem i i' a'.superblock first b u.now.sound mapped in
                        subst (Phase (suc rounds) first i a)
                          (sym (
                            round_taken block_count rounds first i a news b i' a' fresh q
                              (ground (arith, u.now.size)) mapped))
                          (later rounds first i i' a a' (ground (arith, changed.2 first))
                            (λ l c e. ground (arith, changed.2 l, e, fresh)) (omega arith)
                            (allocate_blocks-Phase rounds (first + 1) i' a' ((first, b) ∷ news)
                              (omega arith) (another first b acquired q (omega arith) mapped)))
                  ]
            ]
      ]
