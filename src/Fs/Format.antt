-- ===== src/Fs/Format.antt =====
-- fs/format.h, fs/inode.h and fs/fs.h: the constants and the structures of the filesystem.
-- Every field is a number below 2 ^ 32; byte arrays are lists of numbers below 256.
use initra_os.Base.{ℕ, List, replicate}

abbrev pub magic_number : ℕ
magic_number = 0x494E4653

abbrev pub version_number : ℕ
version_number = 1

abbrev pub block_bytes : ℕ
block_bytes = 512

abbrev pub unused_inode : ℕ
unused_inode = 0

abbrev pub root_inode_number : ℕ
root_inode_number = 1

abbrev pub max_name_length : ℕ
max_name_length = 48

abbrev pub type_file : ℕ
type_file = 1

abbrev pub type_directory : ℕ
type_directory = 2

abbrev pub type_symlink : ℕ
type_symlink = 3

abbrev pub type_device : ℕ
type_device = 4

abbrev pub flag_clean : ℕ
flag_clean = 1

abbrev pub default_inode_count : ℕ
default_inode_count = 128

abbrev pub root_dir_entries : ℕ
root_dir_entries = 2

-- sizeof(initrafs_disk_inode_t), packed.
abbrev pub disk_inode_bytes : ℕ
disk_inode_bytes = 92

pub record Superblock : Type 0 where
  pub magic : ℕ
  pub version : ℕ
  pub block_size : ℕ
  pub total_blocks : ℕ
  pub inode_count : ℕ
  pub free_block_count : ℕ
  pub inode_table_start : ℕ
  pub inode_table_blocks : ℕ
  pub data_start : ℕ
  pub root_inode : ℕ
  pub filesystem_flags : ℕ

-- `initrafs_disk_inode_t`: eight direct blocks, twelve reserved bytes.
pub record DiskInode : Type 0 where
  pub inode_number : ℕ
  pub type : ℕ
  pub mode : ℕ
  pub flags : ℕ
  pub size : ℕ
  pub owner : ℕ
  pub group : ℕ
  pub link_count : ℕ
  pub created_time : ℕ
  pub modified_time : ℕ
  pub accessed_time : ℕ
  pub direct_blocks : List ℕ
  pub indirect_block : ℕ
  pub reserved : List ℕ

-- What `initrafs_zero_bytes` leaves of a disk inode.
abbrev pub zero_disk_inode : DiskInode
zero_disk_inode = record {
  inode_number = 0;
  type = 0;
  mode = 0;
  flags = 0;
  size = 0;
  owner = 0;
  group = 0;
  link_count = 0;
  created_time = 0;
  modified_time = 0;
  accessed_time = 0;
  direct_blocks = replicate 8 0;
  indirect_block = 0;
  reserved = replicate 12 0;
}

-- `initrafs_disk_dirent_t`: the name is an array of 48 bytes.
pub record Dirent : Type 0 where
  pub inode_number : ℕ
  pub type : ℕ
  pub name_length : ℕ
  pub name : List ℕ

abbrev pub zero_dirent : Dirent
zero_dirent = record { inode_number = 0; type = 0; name_length = 0; name = replicate 48 0 }

-- `struct fs_inode`, the inode in memory. Its pointer to private data is always null here.
pub record FsInode : Type 0 where
  pub inode_number : ℕ
  pub type : ℕ
  pub mode : ℕ
  pub flags : ℕ
  pub size : ℕ
  pub owner : ℕ
  pub group : ℕ
  pub link_count : ℕ
  pub created_time : ℕ
  pub modified_time : ℕ
  pub accessed_time : ℕ
