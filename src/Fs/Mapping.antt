-- ===== src/Fs/Mapping.antt =====
-- Direct block mapping of a disk inode in fs/initrafs.c. `none` stands for a null pointer among the
-- arguments, and for the return value 0 (with nothing written) as a result.
pub mod Laws
mod Tests
use initra_os.Base.{
  ℕ, Bool, true, false, not, ◌||◌, Option, none, some, ltb, leb, ◌==◌, ◌!=◌, if◌then◌else◌, get_or,
  set,
}
use initra_os.Fs.Format.{DiskInode, Superblock}
use initra_os.Fs.Integrity.{integrity_update}

abbrev pub direct_block_count : ℕ
direct_block_count = 8

abbrev pub logical_block_valid : ℕ → Bool
logical_block_valid logical_block = ltb logical_block direct_block_count

unfoldable pub map_live : DiskInode → Superblock → ℕ → ℕ → Option DiskInode
map_live inode superblock logical_block physical_block =
    if not (logical_block_valid logical_block)
    then none
    else if leb physical_block superblock.data_start || leb superblock.total_blocks physical_block
    then none
    else if get_or inode.direct_blocks logical_block 0 != 0
    then none
    else some (
        integrity_update
          (record inode { direct_blocks = set inode.direct_blocks logical_block physical_block }))

pub inode_map_block : Option DiskInode → Option Superblock → ℕ → ℕ → Option DiskInode
unfolding map_live
inode_map_block (some inode) (some superblock) logical_block physical_block =
    map_live inode superblock logical_block physical_block
inode_map_block _ _ logical_block physical_block = none

unfoldable pub get_live : DiskInode → ℕ → Option ℕ
get_live inode logical_block =
    if not (logical_block_valid logical_block)
    then none
    else if get_or inode.direct_blocks logical_block 0 == 0
    then none
    else some (get_or inode.direct_blocks logical_block 0)

-- The Boolean is whether `physical_block` is not null.
pub inode_get_block : Option DiskInode → ℕ → Bool → Option ℕ
unfolding get_live
inode_get_block (some inode) logical_block true = get_live inode logical_block
inode_get_block _ logical_block _ = none

pub unmap_live : DiskInode → ℕ → Option DiskInode
unmap_live inode logical_block =
    if not (logical_block_valid logical_block)
    then none
    else if get_or inode.direct_blocks logical_block 0 == 0
    then none
    else some (
        integrity_update (record inode { direct_blocks = set inode.direct_blocks logical_block 0 }))

pub inode_unmap_block : Option DiskInode → ℕ → Option DiskInode
unfolding unmap_live
inode_unmap_block none logical_block = none
inode_unmap_block (some inode) logical_block = unmap_live inode logical_block
