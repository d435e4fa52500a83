-- ===== src/Fs/Superblock.antt =====
-- `initrafs_superblock_init` and `initrafs_superblock_validate`. An output pointer is a Boolean,
-- whether it is not null.
mod Tests
use initra_os.Base.{
  ℕ, ◌+◌, ◌-◌, ◌*◌, ◌/◌, ◌≤◌, ◌<◌, ◌≡◌, ◌↔◌, ◌≢◌, Bool, true, false, not, ◌||◌, Option, none, some,
  arith, ltb, leb, ◌==◌, ◌!=◌, if◌then◌else◌, bit_and,
}
use initra_os.Fs.Format.{
  Superblock, magic_number, version_number, block_bytes, default_inode_count, disk_inode_bytes,
  root_inode_number, flag_clean,
}

abbrev pub superblock_block : ℕ
superblock_block = 0

abbrev pub table_start : ℕ
table_start = superblock_block + 1

-- Rounded up to whole blocks.
abbrev pub table_blocks : ℕ
table_blocks = (default_inode_count * disk_inode_bytes + block_bytes - 1) / block_bytes

abbrev pub first_data : ℕ
first_data = table_start + table_blocks

pub superblock_init : Bool → ℕ → Option Superblock
superblock_init has_superblock total_blocks =
    if not has_superblock || leb total_blocks first_data
    then none
    else some (record {
      magic = magic_number;
      version = version_number;
      block_size = block_bytes;
      total_blocks = total_blocks;
      inode_count = default_inode_count;
      free_block_count = total_blocks - first_data;
      inode_table_start = table_start;
      inode_table_blocks = table_blocks;
      data_start = first_data;
      root_inode = root_inode_number;
      filesystem_flags = flag_clean;
    })

-- The last subtraction is reached only where `data_start` is below `total_blocks`.
superblock_ok : Superblock → Bool
superblock_ok sb =
    if sb.magic != magic_number || sb.version != version_number || sb.block_size != block_bytes
    then false
    else if sb.inode_count != default_inode_count
        || sb.inode_table_start != table_start
        || sb.inode_table_blocks != table_blocks
        || sb.data_start != first_data
    then false
    else if leb sb.total_blocks sb.data_start
        || sb.root_inode != root_inode_number
        || ltb (sb.total_blocks - sb.data_start) sb.free_block_count
    then false
    else if bit_and sb.filesystem_flags flag_clean == 0
    then false
    else true

pub superblock_validate : Option Superblock → Bool
unfolding superblock_ok
superblock_validate none = false
superblock_validate (some sb) = superblock_ok sb

-- The layout that InitraFS expects: one superblock, 23 blocks of inodes, then data.
pub record IsFormatted (sb : Superblock) : Type 0 where
  pub identity : (sb.magic ≡ 0x494E4653) × (sb.version ≡ 1) × (sb.block_size ≡ 512)
  pub table : (sb.inode_count ≡ 128) × (sb.inode_table_start ≡ 1) × (sb.inode_table_blocks ≡ 23)
  pub layout : (sb.data_start ≡ 24) × (24 < sb.total_blocks) × (sb.root_inode ≡ 1)
  pub free_fits : sb.free_block_count + 24 ≤ sb.total_blocks
  pub clean : bit_and sb.filesystem_flags 1 ≢ 0

-- `initrafs_superblock_validate` accepts exactly the superblocks with the layout that
-- `initrafs_superblock_init` writes, on a disk with a data block behind the metadata, whose free
-- blocks fit and whose clean flag is set.
pub superblock_validate_iff :
    (sb : Superblock) → (superblock_validate (some sb) ≡ true) ↔ IsFormatted sb
unfolding superblock_validate
superblock_validate_iff sb = (λ h. ground arith, λ f. ground arith)

-- `initrafs_superblock_init` succeeds exactly for a disk of more than 24 blocks, and then the
-- superblock has the expected layout and the disk's size, and counts every data block as free.
pub superblock_init-IsFormatted :
    (n : ℕ)
    → ((superblock_init true n ≡ none) ↔ (n ≤ 24))
      × ((sb : Superblock)
          → superblock_init true n ≡ some sb
          → IsFormatted sb × (sb.total_blocks ≡ n) × (sb.free_block_count + 24 ≡ n))
unfolding superblock_init
superblock_init-IsFormatted n = ((λ h. ground arith, λ h. ground arith), λ sb h. ground arith)
