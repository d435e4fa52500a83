-- ===== src/Fs/Creation.antt =====
-- New directories in fs/initrafs.c: `initrafs_root_inode_init` and `initrafs_directory_create`, and
-- `initrafs_inode_set_owner_group`. An entry count is the length of the list of entries.
pub mod Laws
mod Tests
use initra_os.Base.{
  ℕ, ◌*◌, Bool, true, false, not, ◌||◌, Option, none, some, List, ltb, leb, ◌==◌, ◌!=◌,
  if◌then◌else◌, length, set,
}
use initra_os.Fs.Format.{
  Superblock, DiskInode, FsInode, Dirent, zero_disk_inode, root_inode_number, root_dir_entries,
  type_directory, unused_inode,
}
use initra_os.Fs.Inodes.{InodeAllocator, inode_alloc_live, inode_free_live, inode_init}
use initra_os.Fs.Integrity.{integrity_update}
use initra_os.Fs.Directory.Listing.{root_directory_init, relink}

-- 0755
abbrev pub root_mode : ℕ
root_mode = 0o755

abbrev pub root_link_count : ℕ
root_link_count = 2

abbrev pub flag_system_protected : ℕ
flag_system_protected = 1

-- sizeof(initrafs_disk_dirent_t), packed.
abbrev pub disk_dirent_bytes : ℕ
disk_dirent_bytes = 60

-- The root's disk inode, before it is sealed.
pub root_blank : ℕ → DiskInode
root_blank data_start = record zero_disk_inode {
  inode_number = root_inode_number;
  type = type_directory;
  mode = root_mode;
  flags = flag_system_protected;
  size = root_dir_entries * disk_dirent_bytes;
  owner = 0;
  group = 0;
  link_count = root_link_count;
  direct_blocks = set (zero_disk_inode.direct_blocks) 0 data_start;
}

-- The Boolean is whether the inode's pointer is not null.
pub root_inode_init : Bool → Option Superblock → Option DiskInode
unfolding root_blank
root_inode_init true (some superblock) =
    if superblock.root_inode != root_inode_number
      || leb superblock.total_blocks superblock.data_start
    then none
    else some (integrity_update (root_blank superblock.data_start))
root_inode_init _ _ = none

pub set_owner_group_live : DiskInode → ℕ → ℕ → DiskInode
set_owner_group_live inode owner group =
    integrity_update (record inode { owner = owner; group = group })

pub inode_set_owner_group : Option DiskInode → ℕ → ℕ → Option DiskInode
unfolding set_owner_group_live
inode_set_owner_group none owner group = none
inode_set_owner_group (some inode) owner group = some (set_owner_group_live inode owner group)

-- A new directory's disk inode, before it is sealed.
pub new_directory : ℕ → ℕ → DiskInode
new_directory inode_number mode = record zero_disk_inode {
  inode_number = inode_number;
  type = type_directory;
  mode = mode;
  size = root_dir_entries * disk_dirent_bytes;
  owner = 0;
  group = 0;
  link_count = 2;
}

-- What is stored through the pointers to the two inodes and to the entries.
abbrev pub Made : Type 0
Made = FsInode × DiskInode × List Dirent

directory_create_live : InodeAllocator → List Dirent → ℕ → ℕ → Option Made × InodeAllocator
unfolding new_directory
directory_create_live a entries mode parent_inode =
    let (inode_number, a') = inode_alloc_live a in
    if inode_number == unused_inode
    then (none, a')
    else elim (inode_init true inode_number type_directory mode) [
      | none ↦ (none, (inode_free_live a' inode_number).1)
      | some inode ↦ elim (root_directory_init (some entries)) [
        | none ↦ (none, (inode_free_live a' inode_number).1)
        | some made ↦ (
          some (
            inode,
            integrity_update (new_directory inode_number mode),
            relink made inode_number parent_inode,
          ),
          a',
        )
      ]
    ]

-- The Booleans are whether the pointers to the two inodes are not null; `none` is the return value 0.
pub directory_create :
    Option InodeAllocator
    → Bool
    → Bool
    → Option (List Dirent)
    → ℕ
    → ℕ
    → Option Made × Option InodeAllocator
unfolding directory_create_live
directory_create (some a) true true (some entries) mode parent_inode =
    if ltb (length entries) root_dir_entries || parent_inode == unused_inode
    then (none, some a)
    else let (made, a') = directory_create_live a entries mode parent_inode in (made, some a')
directory_create allocator _ _ entries mode parent_inode = (none, allocator)
