-- ===== src/Fs/Blocks/Inv.antt =====
-- The invariant of the block allocator: the bitmap covers the disk, the root's block is taken, and
-- both counters give the number of free data blocks.
use initra_os.Base.{
  ℕ, ◌-◌, ◌*◌, ◌/◌, ◌^◌, ◌≤◌, ◌<◌, ◌≡◌, Bool, true, false, not, some, List, ◌==◌, if◌then◌else◌,
  length, IsBytes, set_bit, clear_bit, bit_at, bit_at-set_bit, bit_at-clear_bit, set_bit-IsBytes,
  clear_bit-IsBytes, length-set_bit, length-clear_bit, count_from,
}
use initra_os.Fs.Blocks.{BlockAllocator, is_marked, mark_used, mark_free}

abbrev pub is_free : List ℕ → ℕ → Bool
is_free bitmap block = not (is_marked bitmap block)

-- How many data blocks are free.
abbrev pub free_count : List ℕ → BlockAllocator → ℕ
free_count bitmap a =
    count_from (λ b. not (is_marked bitmap b)) (a.total_blocks - a.first_data_block)
      a.first_data_block

pub record IsValid (bitmap : List ℕ) (a : BlockAllocator) : Type 0 where
  pub holds : a.bitmap ≡ some bitmap
  pub bytes : IsBytes bitmap
  pub covers : a.total_blocks ≤ 8 * length bitmap
  pub starts : 0 < a.first_data_block
  pub nonempty : a.first_data_block < a.total_blocks
  pub fits : a.total_blocks < 2 ^ 32
  pub root_taken : is_marked bitmap a.first_data_block ≡ true
  pub counted : a.free_blocks ≡ free_count bitmap a
  pub layout :
      (a.superblock.data_start ≡ a.first_data_block) × (a.superblock.total_blocks ≡ a.total_blocks)
  pub synced : a.superblock.free_block_count ≡ a.free_blocks

module _ (bitmap : List ℕ) (k : ℕ) (bytes : IsBytes bitmap) (inside : k / 8 < length bitmap) where
  pub is_marked-mark_used :
      (j : ℕ) → is_marked (mark_used bitmap k) j ≡ (if k == j then true else is_marked bitmap j)
  unfolding is_marked mark_used bit_at set_bit
  is_marked-mark_used j = bit_at-set_bit bitmap k bytes inside j

  pub is_marked-mark_free :
      (j : ℕ) → is_marked (mark_free bitmap k) j ≡ (if k == j then false else is_marked bitmap j)
  unfolding is_marked mark_free bit_at clear_bit
  is_marked-mark_free j = bit_at-clear_bit bitmap k bytes inside j

  pub mark_used-IsBytes : IsBytes (mark_used bitmap k)
  unfolding mark_used set_bit
  mark_used-IsBytes = set_bit-IsBytes bitmap k bytes inside

  pub mark_free-IsBytes : IsBytes (mark_free bitmap k)
  unfolding mark_free clear_bit
  mark_free-IsBytes = clear_bit-IsBytes bitmap k bytes inside

pub length-mark_used : (bitmap : List ℕ) (k : ℕ) → length (mark_used bitmap k) ≡ length bitmap
unfolding mark_used set_bit
length-mark_used bitmap k = length-set_bit bitmap k

pub length-mark_free : (bitmap : List ℕ) (k : ℕ) → length (mark_free bitmap k) ≡ length bitmap
unfolding mark_free clear_bit
length-mark_free bitmap k = length-clear_bit bitmap k
