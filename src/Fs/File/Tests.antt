-- ===== src/Fs/File/Tests.antt =====
-- Creating a file, and reading one of 600 bytes.
use initra_os.Base.{
  first_from, test_mask, zero_bytes, set_mask, ℕ, ◌+◌, ◌≡◌, refl, true, some, Option, arith, List,
  [], ◌∷◌, replicate,
}
use initra_os.Fs.Format.{DiskInode, zero_disk_inode}
use initra_os.Fs.Samples.{disk, dirty_bitmap, dirty_bitmap-IsBytes}
use initra_os.Fs.Inodes.Create.{fresh_bitmap, fresh_allocator, inode_allocator_init-IsValid}
use initra_os.Fs.File.{file_create, read_live, copy_bytes}
use initra_os.Fs.Mapping.{get_live}
use initra_os.Fs.Integrity.{integrity_update}
use initra_os.Fs.Blocks.{BlockAllocator, alloc_live, mark_used, is_marked}
use initra_os.Fs.Blocks.Inv.{IsValid}
use initra_os.Fs.Blocks.Setup.{
  block_allocator_init-IsValid, fresh_bitmap as block_bitmap, fresh_allocator as block_allocator,
}
use initra_os.Fs.Mapping.{map_live}
use initra_os.Fs.Mapping.Laws.{update-IsSound}
use initra_os.Fs.File.{rollback_blocks}
use initra_os.Fs.File.Rollback.{AsBefore, nothing, another, rollback_blocks-AsBefore}
use initra_os.Fs.File.Laws.{Outcome, wanted, read_live-Outcome}
use initra_os.Fs.File.Create.{FileCreated, file_create-FileCreated}

abbrev letters : DiskInode
letters = record zero_disk_inode {
  inode_number = 5;
  type = 1;
  size = 600;
  direct_blocks = 30 ∷ 31 ∷ 0 ∷ 0 ∷ 0 ∷ 0 ∷ 0 ∷ 0 ∷ [];
}

-- Block 30 is full of the byte 65, block 31 of 66.
abbrev device_read : ℕ → Option (List ℕ)
device_read block = some (replicate 512 (block + 35))

across : (read_live 40 device_read letters 510 (replicate 4 0) 4) ≡ (some 4, 65 ∷ 65 ∷ 66 ∷ 66 ∷ [])
unfolding read_live get_live copy_bytes
across = refl

file_create-FileCreated_example :
    FileCreated
      (fresh_bitmap disk dirty_bitmap 16 dirty_bitmap-IsBytes
        (omega arith)
        (omega arith)
        (omega arith)
        (omega arith))
      (fresh_allocator disk dirty_bitmap 16 dirty_bitmap-IsBytes
        (omega arith)
        (omega arith)
        (omega arith)
        (omega arith))
      0o644
      (file_create
        (some (
          fresh_allocator disk dirty_bitmap 16 dirty_bitmap-IsBytes
            (omega arith)
            (omega arith)
            (omega arith)
            (omega arith)))
        true
        true
        0o644)
file_create-FileCreated_example =
    file_create-FileCreated _ _ 0o644
      (inode_allocator_init-IsValid disk dirty_bitmap 16 dirty_bitmap-IsBytes (omega arith)
        (omega arith) (omega arith) (omega arith)).1

read_live-Outcome_example :
    Outcome 40 device_read letters 510
      (wanted 40 device_read letters 510 4)
      (replicate 4 0)
      0
      (read_live 40 device_read letters 510 (replicate 4 0) 4)
read_live-Outcome_example =
    read_live-Outcome 40 device_read letters 510 (replicate 4 0) 4 (omega arith) (omega arith)

-- A new file, and what taking and mapping one block makes of it.
abbrev empty : DiskInode
empty = integrity_update (record zero_disk_inode { inode_number = 5; type = 1; link_count = 1 })

abbrev start_bitmap : List ℕ
start_bitmap =
    block_bitmap disk dirty_bitmap 16 dirty_bitmap-IsBytes (omega arith) (omega arith) (omega arith)
      (omega arith) (omega arith)

abbrev start : BlockAllocator
start =
    block_allocator disk dirty_bitmap 16 dirty_bitmap-IsBytes (omega arith) (omega arith)
      (omega arith) (omega arith) (omega arith)

start-IsValid : IsValid start_bitmap start
start-IsValid =
    (block_allocator_init-IsValid disk dirty_bitmap 16 dirty_bitmap-IsBytes (omega arith)
      (omega arith) (omega arith) (omega arith) (omega arith)).1

first_block : (alloc_live start).0 ≡ 25
unfolding alloc_live mark_used is_marked first_from test_mask zero_bytes set_mask
first_block = refl

grown : DiskInode
grown = integrity_update (record empty { direct_blocks = 25 ∷ 0 ∷ 0 ∷ 0 ∷ 0 ∷ 0 ∷ 0 ∷ 0 ∷ [] })

accepted : map_live empty (alloc_live start).1.superblock 0 25 ≡ some grown
unfolding grown map_live integrity_update alloc_live mark_used is_marked first_from test_mask
    zero_bytes set_mask
accepted = refl

rollback_blocks-AsBefore_example :
    AsBefore empty start_bitmap start
      (update-IsSound _ refl (omega arith))
      start-IsValid
      (rollback_blocks grown (alloc_live start).1 ((0, 25) ∷ []))
rollback_blocks-AsBefore_example =
    rollback_blocks-AsBefore empty start_bitmap start (update-IsSound _ refl (omega arith))
      start-IsValid ((0, 25) ∷ []) grown (alloc_live start).1
      (another 0 25 nothing (λ i. (first_block i, (alloc_live start).1)) (omega arith) accepted)
