-- ===== src/Fs/Superblock/Tests.antt =====
-- Superblocks of small disks.
use initra_os.Base.{◌≡◌, refl, true, false, none, some}
use initra_os.Fs.Format.{Superblock}
use initra_os.Fs.Superblock.{superblock_init, superblock_validate}

too_small : superblock_init true 24 ≡ none
unfolding superblock_init
too_small = refl

null_pointer : superblock_init false 100 ≡ none
unfolding superblock_init
null_pointer = refl

abbrev dirty : Superblock
dirty = record {
  magic = 0x494E4653;
  version = 1;
  block_size = 512;
  total_blocks = 100;
  inode_count = 128;
  free_block_count = 76;
  inode_table_start = 1;
  inode_table_blocks = 23;
  data_start = 24;
  root_inode = 1;
  filesystem_flags = 2;
}

dirty_rejected : superblock_validate (some dirty) ≡ false
unfolding superblock_validate
dirty_rejected = refl
