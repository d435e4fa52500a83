-- ===== src/Fs/Creation/Tests.antt =====
-- The root inode, its owner, and a new directory on a fresh disk.
use initra_os.Base.{ℕ, refl, true, some, arith, List}
use initra_os.Fs.Format.{DiskInode, zero_disk_inode}
use initra_os.Fs.Samples.{disk, dirty_bitmap, dirty_bitmap-IsBytes, folder}
use initra_os.Fs.Superblock.{IsFormatted}
use initra_os.Fs.Integrity.{integrity_update}
use initra_os.Fs.Inodes.{InodeAllocator}
use initra_os.Fs.Inodes.Create.{fresh_bitmap, fresh_allocator, inode_allocator_init-IsValid}
use initra_os.Fs.Mapping.Laws.{IsSound, update-IsSound}
use initra_os.Fs.Creation.{directory_create}
use initra_os.Fs.Creation.Laws.{DirectoryCreated, directory_create-DirectoryCreated}

disk-IsFormatted : IsFormatted disk
disk-IsFormatted = record {
  identity = (refl, refl, refl);
  table = (refl, refl, refl);
  layout = (refl, omega arith, refl);
  free_fits = omega arith;
  clean = λ e. absurd (omega arith);
}

abbrev file : DiskInode
file = integrity_update (record zero_disk_inode { inode_number = 5; type = 1; link_count = 1 })

file-IsSound : IsSound file
file-IsSound = update-IsSound _ refl (omega arith)

abbrev start_bitmap : List ℕ
start_bitmap =
    fresh_bitmap disk dirty_bitmap 16 dirty_bitmap-IsBytes (omega arith) (omega arith) (omega arith)
      (omega arith)

abbrev start : InodeAllocator
start =
    fresh_allocator disk dirty_bitmap 16 dirty_bitmap-IsBytes (omega arith) (omega arith)
      (omega arith) (omega arith)

directory_create-DirectoryCreated_example :
    DirectoryCreated start_bitmap start 0o755 1 4
      (directory_create (some start) true true (some folder) 0o755 1)
directory_create-DirectoryCreated_example =
    directory_create-DirectoryCreated start_bitmap start folder 0o755 1
      (inode_allocator_init-IsValid disk dirty_bitmap 16 dirty_bitmap-IsBytes (omega arith)
        (omega arith) (omega arith) (omega arith)).1
      (omega arith) (omega arith)
