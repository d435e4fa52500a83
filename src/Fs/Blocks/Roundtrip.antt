-- ===== src/Fs/Blocks/Roundtrip.antt =====
-- Taking a block and giving it back.
use initra_os.Base.{ℕ, ◌<◌, ◌≡◌, ◌≢◌, ◌∙◌, sym, ap, subst, ◌+◌, true, false, Bool, List, arith}
use initra_os.Fs.Blocks.{BlockAllocator, is_marked, mark_used, mark_free, alloc_live, free_live}
use initra_os.Fs.Blocks.Inv.{IsValid, is_marked-mark_used, is_marked-mark_free}
use initra_os.Fs.Blocks.Laws.{
  Allocated, full, taken, Released, released, refused, alloc_live-Allocated, free_live-Released,
}

-- A release that leaves the marks and the count of `m` and `a`.
pub data Restored (m : List ℕ) (a : BlockAllocator) (result : Bool × BlockAllocator) : Type 0 where
  restored :
      (m' : List ℕ) (a' : BlockAllocator)
      → result ≡ (true, a')
      → IsValid m' a'
      → a'.free_blocks ≡ a.free_blocks
      → ((j : ℕ) → is_marked m' j ≡ is_marked m j)
      → Restored m a result

module _ (m : List ℕ) (a : BlockAllocator) (v : IsValid m a) where
  marked_again :
      (b : ℕ) {a' : BlockAllocator}
      → b < a.total_blocks
      → is_marked m b ≡ false
      → IsValid (mark_used m b) a'
      → a'.total_blocks ≡ a.total_blocks
      → (j : ℕ) → is_marked (mark_free (mark_used m b) b) j ≡ is_marked m j
  marked_again b hi clear v' same j = ground (
    arith,
    clear,
    is_marked-mark_used m b v.bytes (omega (arith, v.covers)) j,
    is_marked-mark_free (mark_used m b) b v'.bytes (omega (arith, v'.covers)) j,
  )

  give_back :
      (b : ℕ) (a' : BlockAllocator) {r : Bool × BlockAllocator}
      → a.first_data_block < b
      → b < a.total_blocks
      → is_marked m b ≡ false
      → IsValid (mark_used m b) a'
      → (a'.total_blocks ≡ a.total_blocks) × (a'.first_data_block ≡ a.first_data_block)
      → a'.free_blocks + 1 ≡ a.free_blocks
      → Released (mark_used m b) a' b r
      → Restored m a r
  give_back b a' lo hi clear v' same less (refused q why) =
      absurd (ground (arith, why, is_marked-mark_used m b v.bytes (omega (arith, v.covers)) b))
  give_back b a' lo hi clear v' same less (released a'' q lo' hi' used v'' same' more) =
      restored (mark_free (mark_used m b) b) a'' q v'' (omega arith)
        (marked_again b hi clear v' same.0)

  free_after :
      (b : ℕ) (a' : BlockAllocator) {r : ℕ × BlockAllocator}
      → b ≢ 0
      → r ≡ (b, a')
      → Allocated m a r
      → Restored m a (free_live a' b)
  free_after b a' live e (full z q) = absurd (live (ap (λ p. p.0) (sym e ∙ q)))
  free_after b a' live e (taken b₁ a₁ q first root v' same less) =
      let eb : b₁ ≡ b = ap (λ p. p.0) (sym q ∙ e) in
      let ea : a₁ ≡ a' = ap (λ p. p.1) (sym q ∙ e) in
      let clear : is_marked m b₁ ≡ false = ground (arith, first.passes) in
      let lo : a.first_data_block < b₁ = omega (arith, first.from_start, root) in
      let hi : b₁ < a.total_blocks = omega (arith, first.before_end, v.nonempty) in
      subst (λ x. Restored m a (free_live x b)) ea
        (subst (λ x. Restored m a (free_live a₁ x)) eb
          (give_back b₁ a₁ lo hi clear v' same less (free_live-Released (mark_used m b₁) a₁ v' b₁)))

  -- On a valid allocator, after `initrafs_block_alloc` has returned a block other than 0,
  -- `initrafs_block_free` of that block succeeds and leaves a valid allocator with the marks and
  -- the count of free blocks from before both calls.
  pub free_live-alloc_live :
      (b : ℕ) (a' : BlockAllocator) → alloc_live a ≡ (b, a') → b ≢ 0 → Restored m a (free_live a' b)
  free_live-alloc_live b a' e live = free_after b a' live e (alloc_live-Allocated m a v)
