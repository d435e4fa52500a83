-- ===== src/Fs/Blocks.antt =====
-- The data-block allocator of fs/initrafs.c. Pointers that the code tests against null are options;
-- the superblock that the allocator points to is part of its record, since it writes through it.
pub mod Inv
pub mod Laws
pub mod Setup
pub mod Roundtrip
mod Tests
use initra_os.Base.{
  ℕ, ◌+◌, ◌-◌, ◌/◌, ◌%◌, Bool, true, false, not, ◌||◌, Option, none, some, List, ltb, leb, ◌==◌,
  if◌then◌else◌, u32, sub32, get_or, set, byte_mask, test_mask, set_mask, clear_mask, first_from,
  zero_bytes,
}
use initra_os.Fs.Format.{Superblock}

pub record BlockAllocator : Type 0 where
  pub bitmap : Option (List ℕ)
  pub bitmap_bytes : ℕ
  pub total_blocks : ℕ
  pub first_data_block : ℕ
  pub free_blocks : ℕ
  pub superblock : Superblock

-- `initrafs_bitmap_bytes`; the sum wraps.
pub required_bytes : ℕ → ℕ
required_bytes block_count = u32 (block_count + 7) / 8

pub bitmap_index : ℕ → ℕ
bitmap_index block = block / 8

pub bitmap_mask : ℕ → ℕ
bitmap_mask block = byte_mask (block % 8)

unfoldable pub is_marked : List ℕ → ℕ → Bool
unfolding bitmap_index bitmap_mask
is_marked bitmap block = test_mask (get_or bitmap (bitmap_index block) 0) (bitmap_mask block)

unfoldable pub mark_used : List ℕ → ℕ → List ℕ
unfolding bitmap_index bitmap_mask
mark_used bitmap block =
    set bitmap (bitmap_index block)
      (set_mask (get_or bitmap (bitmap_index block) 0) (bitmap_mask block))

pub mark_free : List ℕ → ℕ → List ℕ
unfolding bitmap_index bitmap_mask
mark_free bitmap block =
    set bitmap (bitmap_index block)
      (clear_mask (get_or bitmap (bitmap_index block) 0) (bitmap_mask block))

-- Both counters, the allocator's and the superblock's, are set together.
pub set_free_blocks : BlockAllocator → ℕ → BlockAllocator
set_free_blocks a n = record a {
  free_blocks = n;
  superblock = record (a.superblock) { free_block_count = n };
}

init_live : Superblock → List ℕ → ℕ → Option BlockAllocator
unfolding set_free_blocks required_bytes
init_live superblock bitmap bitmap_bytes =
    let required = required_bytes superblock.total_blocks in
    let free = sub32 (sub32 superblock.total_blocks superblock.data_start) 1 in
    let made : BlockAllocator = record {
      bitmap = some (mark_used (zero_bytes required bitmap) superblock.data_start);
      bitmap_bytes = required;
      total_blocks = superblock.total_blocks;
      first_data_block = superblock.data_start;
      free_blocks = free;
      superblock = superblock;
    } in
    if leb superblock.total_blocks superblock.data_start
    then none
    else if ltb bitmap_bytes required
    then none
    else some (set_free_blocks made free)

-- `none` is the return value 0, with nothing written.
pub block_allocator_init : Bool → Option Superblock → Option (List ℕ) → ℕ → Option BlockAllocator
unfolding init_live
block_allocator_init true (some superblock) (some bitmap) bitmap_bytes =
    init_live superblock bitmap bitmap_bytes
block_allocator_init _ _ _ _ = none

-- The loop over the data blocks takes the first that is not marked.
alloc_in : BlockAllocator → List ℕ → ℕ × BlockAllocator
unfolding set_free_blocks
alloc_in a bitmap =
    elim (first_from (λ block. not (is_marked bitmap block)) (a.total_blocks - a.first_data_block)
      a.first_data_block) [
        | none ↦ (0, a)
        | some block ↦ (
          block,
          set_free_blocks (record a { bitmap = some (mark_used bitmap block) })
              (sub32 a.free_blocks 1),
        )
      ]

unfoldable pub alloc_live : BlockAllocator → ℕ × BlockAllocator
unfolding alloc_in
alloc_live a = elim (a.bitmap) [ none ↦ (0, a) | some bitmap ↦ alloc_in a bitmap ]

pub block_alloc : Option BlockAllocator → ℕ × Option BlockAllocator
unfolding alloc_live
block_alloc none = (0, none)
block_alloc (some a) = let (block, a') = alloc_live a in (block, some a')

free_in : BlockAllocator → List ℕ → ℕ → Bool × BlockAllocator
unfolding set_free_blocks
free_in a bitmap block =
    if ltb block a.first_data_block || leb a.total_blocks block
    then (false, a)
    else if block == a.first_data_block
    then (false, a)
    else if not (is_marked bitmap block)
    then (false, a)
    else (
      true,
      set_free_blocks (record a { bitmap = some (mark_free bitmap block) })
          (u32 (a.free_blocks + 1)),
    )

pub free_live : BlockAllocator → ℕ → Bool × BlockAllocator
unfolding free_in
free_live a block = elim (a.bitmap) [ none ↦ (false, a) | some bitmap ↦ free_in a bitmap block ]

pub block_free : Option BlockAllocator → ℕ → Bool × Option BlockAllocator
unfolding free_live
block_free none block = (false, none)
block_free (some a) block = let (done, a') = free_live a block in (done, some a')
