-- ===== src/Fs/Instance.antt =====
-- `initrafs_instance_init` and `initrafs_instance_unmount` of fs/initrafs.c. The superblock is a field of
-- the block allocator's record, and the root's objects stand in their node of the name space.
pub mod Laws
mod Tests
use initra_os.Base.{
  ℕ, Bool, true, false, not, ◌||◌, Option, none, some, List, ltb, ◌==◌, ◌!=◌, replicate, ◌>>=◌,
  ◌>>◌, guard, if◌then◌else◌,
}
use initra_os.Fs.Format.{
  FsInode, zero_dirent, block_bytes, root_inode_number, type_directory, default_inode_count,
}
use initra_os.Fs.Superblock.{superblock_init}
use initra_os.Fs.Blocks.{BlockAllocator, block_allocator_init}
use initra_os.Fs.Inodes.{InodeAllocator, inode_allocator_init, inode_init}
use initra_os.Fs.Creation.{root_mode, root_inode_init}
use initra_os.Fs.Directory.Listing.{root_directory_init}
use initra_os.Fs.Namespace.{Namespace, namespace_init, namespace_register}

abbrev pub instance_max_blocks : ℕ
instance_max_blocks = 32768

-- (32768 + 7) / 8 and (128 + 7) / 8.
abbrev pub instance_block_bitmap_bytes : ℕ
instance_block_bitmap_bytes = 4096

abbrev pub instance_inode_bitmap_bytes : ℕ
instance_inode_bitmap_bytes = 16

abbrev pub instance_directory_entries : ℕ
instance_directory_entries = 8

pub record Instance : Type 0 where
  pub block_allocator : BlockAllocator
  pub inode_allocator : InodeAllocator
  pub namespace : Namespace
  pub mounted : Bool

-- `none` is the return value 0, which leaves the instance as it was or cleared and not mounted. The
-- Boolean is whether the instance's pointer is not null; the numbers are the device's block size and
-- block count.
pub instance_init : Bool → Option (ℕ × ℕ) → Option Instance
instance_init true (some device) = do
  guard (not (device.0 != block_bytes || device.1 == 0 || ltb instance_max_blocks device.1))
  superblock ← superblock_init true device.1
  block_allocator ←
      block_allocator_init true (some superblock) (some (replicate instance_block_bitmap_bytes 0))
        instance_block_bitmap_bytes
  inode_allocator ←
      inode_allocator_init true (some (block_allocator.superblock))
        (some (replicate instance_inode_bitmap_bytes 0)) instance_inode_bitmap_bytes
  root_disk_inode ← root_inode_init true (some (block_allocator.superblock))
  root_entries ← root_directory_init (some (replicate instance_directory_entries zero_dirent))
  made ← inode_init true root_inode_number type_directory root_mode
  let root_inode : FsInode = record made {
    size = root_disk_inode.size;
    flags = root_disk_inode.flags;
    link_count = root_disk_inode.link_count;
  }
  blank ← namespace_init true true default_inode_count root_inode_number
  namespace ←
      namespace_register (some blank) (some root_inode) (some root_disk_inode) (some root_entries)
  some (record {
    block_allocator = block_allocator;
    inode_allocator = inode_allocator;
    namespace = namespace;
    mounted = true;
  })
instance_init _ _ = none

-- Whether the call returns 1; it then clears the instance, which is `none` afterwards.
pub instance_unmount : Option Instance → Bool × Option Instance
instance_unmount none = (false, none)
instance_unmount (some instance_record) =
    if instance_record.mounted then (true, none) else (false, some instance_record)
