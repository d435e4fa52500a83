-- ===== src/Fs/Blocks/Tests.antt =====
-- The block allocator on a disk of 40 blocks.
use initra_os.Base.{
  ℕ, ◌<◌, ◌≡◌, ◌==◌, refl, true, false, some, arith, List, first_from, test_mask, zero_bytes,
  set_mask,
}
use initra_os.Fs.Samples.{disk, dirty_bitmap, dirty_bitmap-IsBytes}
use initra_os.Fs.Blocks.{
  BlockAllocator, is_marked, mark_used, block_allocator_init, alloc_live, free_live,
}
use initra_os.Fs.Blocks.Inv.{IsValid}
use initra_os.Fs.Blocks.Laws.{Allocated, Released, alloc_live-Allocated, free_live-Released}
use initra_os.Fs.Blocks.Roundtrip.{Restored, free_live-alloc_live}
use initra_os.Fs.Blocks.Setup.{fresh_bitmap, fresh_allocator, block_allocator_init-IsValid}

abbrev start_bitmap : List ℕ
start_bitmap =
    fresh_bitmap disk dirty_bitmap 16 dirty_bitmap-IsBytes (omega arith) (omega arith) (omega arith)
      (omega arith) (omega arith)

abbrev start : BlockAllocator
start =
    fresh_allocator disk dirty_bitmap 16 dirty_bitmap-IsBytes (omega arith) (omega arith)
      (omega arith) (omega arith) (omega arith)

-- The first block after the root's is given out first, and can be given back once.
first_block : (alloc_live start).0 ≡ 25
unfolding alloc_live mark_used is_marked first_from test_mask zero_bytes set_mask
first_block = refl

root_kept : (free_live start 24).0 ≡ false
unfolding free_live
root_kept = refl

block_allocator_init-IsValid_example :
    (block_allocator_init true (some disk) (some dirty_bitmap) 16 ≡ some start)
    × IsValid start_bitmap start
    × ((j : ℕ) → j < 40 → is_marked start_bitmap j ≡ (24 == j))
block_allocator_init-IsValid_example =
    block_allocator_init-IsValid disk dirty_bitmap 16 dirty_bitmap-IsBytes (omega arith)
      (omega arith) (omega arith) (omega arith) (omega arith)

start-IsValid : IsValid start_bitmap start
start-IsValid =
    (block_allocator_init-IsValid disk dirty_bitmap 16 dirty_bitmap-IsBytes (omega arith)
      (omega arith) (omega arith) (omega arith) (omega arith)).1

alloc_live-Allocated_example : Allocated start_bitmap start (alloc_live start)
alloc_live-Allocated_example = alloc_live-Allocated start_bitmap start start-IsValid

free_live-Released_example : Released start_bitmap start 24 (free_live start 24)
free_live-Released_example = free_live-Released start_bitmap start start-IsValid 24

free_live-alloc_live_example : Restored start_bitmap start (free_live (alloc_live start).1 25)
free_live-alloc_live_example =
    free_live-alloc_live start_bitmap start start-IsValid 25 (alloc_live start).1
      (λ i. (first_block i, (alloc_live start).1)) (omega arith)
