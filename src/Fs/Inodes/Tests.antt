-- ===== src/Fs/Inodes/Tests.antt =====
-- The inode allocator of a disk with 128 inodes.
use initra_os.Base.{ℕ, arith, List}
use initra_os.Fs.Samples.{disk, dirty_bitmap, dirty_bitmap-IsBytes}
use initra_os.Fs.Inodes.{InodeAllocator, inode_alloc_live, inode_free_live}
use initra_os.Fs.Inodes.Laws.{
  IsValid, Allocated, Released, inode_alloc-Allocated, inode_free-Released,
}
use initra_os.Fs.Inodes.Create.{fresh_bitmap, fresh_allocator, inode_allocator_init-IsValid}

abbrev start_bitmap : List ℕ
start_bitmap =
    fresh_bitmap disk dirty_bitmap 16 dirty_bitmap-IsBytes (omega arith) (omega arith) (omega arith)
      (omega arith)

abbrev start : InodeAllocator
start =
    fresh_allocator disk dirty_bitmap 16 dirty_bitmap-IsBytes (omega arith) (omega arith)
      (omega arith) (omega arith)

start-IsValid : IsValid start_bitmap start
start-IsValid =
    (inode_allocator_init-IsValid disk dirty_bitmap 16 dirty_bitmap-IsBytes (omega arith)
      (omega arith) (omega arith) (omega arith)).1

inode_alloc-Allocated_example : Allocated start_bitmap start (inode_alloc_live start)
inode_alloc-Allocated_example = inode_alloc-Allocated start_bitmap start start-IsValid

inode_free-Released_example : Released start_bitmap start 1 (inode_free_live start 1)
inode_free-Released_example = inode_free-Released start_bitmap start start-IsValid 1
