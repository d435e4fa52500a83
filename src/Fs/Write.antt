-- ===== src/Fs/Write.antt =====
-- `initrafs_file_write` of fs/initrafs.c: the missing blocks are taken first, then every block of the
-- range is written. A failure of either phase rolls the new blocks back.
pub mod Blocks
pub mod Chunk
pub mod Data
pub mod Stored
pub mod Reach
pub mod Cases
pub mod Ready
pub mod Laws
pub mod Keeps
pub mod Succeeds
pub mod ReadBack
pub mod Whole
mod Tests
use initra_os.Base.{
  ℕ, zero, suc, ◌+◌, ◌-◌, ◌*◌, ◌/◌, ◌%◌, Bool, true, false, not, ◌&&◌, ◌||◌, Option, none, some,
  List, [], ◌∷◌, ltb, leb, ◌==◌, ◌!=◌, if◌then◌else◌, u32, replicate,
}
use initra_os.Fs.Format.{DiskInode, FsInode, block_bytes}
use initra_os.Fs.Device.{Device}
use initra_os.Fs.Blocks.{BlockAllocator, alloc_live, free_live}
use initra_os.Fs.Integrity.{integrity_update}
use initra_os.Fs.Mapping.{get_live, map_live}
use initra_os.Fs.File.{pair_valid_live, rollback_blocks, copy_bytes, chunk_of}

-- 8 blocks.
abbrev pub max_file_size : ℕ
max_file_size = 4096

-- What the first phase leaves: the inode, the allocator, and the pairs of new logical and physical
-- blocks, the last first; or what the rollback leaves.
pub data Allocation : Type 0 where
  allocated : DiskInode → BlockAllocator → List (ℕ × ℕ) → Allocation
  rolled_back : DiskInode × BlockAllocator → Allocation

-- The loop over the logical blocks, by the rounds that are left.
pub allocate_blocks : ℕ → ℕ → ℕ → DiskInode → BlockAllocator → List (ℕ × ℕ) → Allocation
allocate_blocks block_count zero logical disk_inode a news = allocated disk_inode a news
allocate_blocks block_count (suc rounds) logical disk_inode a news =
    elim (get_live disk_inode logical) [
      | some _ ↦ allocate_blocks block_count rounds (logical + 1) disk_inode a news
      | none ↦
          let (physical_block, a') = alloc_live a in
          elim (physical_block == 0 || leb block_count physical_block) [
            | true ↦ rolled_back (rollback_blocks disk_inode a' news)
            | false ↦ elim (map_live disk_inode a'.superblock logical physical_block) [
              | none ↦ rolled_back (rollback_blocks disk_inode (free_live a' physical_block).1 news)
              | some mapped ↦
                  allocate_blocks block_count rounds (logical + 1) mapped a'
                    ((logical, physical_block) ∷ news)
            ]
          ]
    ]

-- Whether a logical block is among the new ones.
pub is_new : List (ℕ × ℕ) → ℕ → Bool
is_new [] logical_block = false
is_new (pair ∷ pairs) logical_block = pair.0 == logical_block || is_new pairs logical_block

module _ (device : Device) where
  -- One block of the transfer to the device; `false` is a failure.
  pub write_chunk :
      device.State → DiskInode → List (ℕ × ℕ) → ℕ → ℕ → List ℕ → ℕ → ℕ → Bool × device.State
  write_chunk d disk_inode news logical_block block_offset buffer bytes_done chunk =
      elim (get_live disk_inode logical_block) [
        | none ↦ (false, d)
        | some physical_block ↦
            if leb device.block_count physical_block
            then (false, d)
            else if block_offset == 0 && chunk == block_bytes
            then device.write d physical_block
                (copy_bytes (replicate block_bytes 0) 0 buffer bytes_done block_bytes)
            else if is_new news logical_block
            then device.write d physical_block
                (copy_bytes (replicate block_bytes 0) block_offset buffer bytes_done chunk)
            else elim (device.read d physical_block) [
              | none ↦ (false, d)
              | some block ↦
                  device.write d physical_block
                    (copy_bytes block block_offset buffer bytes_done chunk)
            ]
      ]

  -- The second loop, on fuel: the bytes that it has done, or `none` after a failure.
  pub write_loop :
      ℕ → device.State → DiskInode → List (ℕ × ℕ) → ℕ → ℕ → List ℕ → ℕ → Option ℕ × device.State
  unfolding write_chunk
  write_loop zero d disk_inode news offset size buffer bytes_done = (none, d)
  write_loop (suc fuel) d disk_inode news offset size buffer bytes_done =
      let file_offset = u32 (offset + bytes_done) in
      let block_offset = file_offset % block_bytes in
      let chunk = chunk_of block_offset (size - bytes_done) in
      let (written, d') =
        write_chunk d disk_inode news (file_offset / block_bytes) block_offset buffer bytes_done
          chunk in
      let next = write_loop fuel d' disk_inode news offset size buffer (u32 (bytes_done + chunk)) in
      if ltb bytes_done size then (if written then next else (none, d')) else (some bytes_done, d)

  -- The return value, `none` for -1, and everything that the call may change.
  pub record Written : Type 0 where
    pub result : Option ℕ
    pub inode : FsInode
    pub disk_inode : DiskInode
    pub allocator : BlockAllocator
    pub storage : device.State

  -- The second phase, and the end of the call.
  pub write_data :
      FsInode
      → device.State
      → ℕ
      → ℕ
      → List ℕ
      → ℕ
      → DiskInode
      → BlockAllocator
      → List (ℕ × ℕ)
      → Written
  unfolding write_loop
  write_data inode d original_size offset buffer size disk_inode a news =
      let (written, d') = write_loop (size + 1) d disk_inode news offset size buffer 0 in
      let end_position = u32 (offset + size) in
      let back = rollback_blocks disk_inode a news in
      elim written [
        | none ↦ record {
          result = none;
          inode = inode;
          disk_inode = back.0;
          allocator = back.1;
          storage = d';
        }
        | some bytes_done ↦
            if ltb original_size end_position
            then record {
              result = some bytes_done;
              inode = record inode { size = end_position };
              disk_inode = integrity_update (record disk_inode { size = end_position });
              allocator = a;
              storage = d';
            }
            else record {
              result = some bytes_done;
              inode = inode;
              disk_inode = disk_inode;
              allocator = a;
              storage = d';
            }
      ]

  -- The call behind its first guards, all of which `file_write` has.
  pub write_live : FsInode → DiskInode → BlockAllocator → device.State → ℕ → List ℕ → ℕ → Written
  unfolding write_data allocate_blocks
  write_live inode disk_inode a d offset buffer size =
      let unchanged : Option ℕ → Written = λ r. record {
        result = r;
        inode = inode;
        disk_inode = disk_inode;
        allocator = a;
        storage = d;
      } in
      let first_logical = offset / block_bytes in
      let last_logical = (u32 (offset + size) - 1) / block_bytes in
      if size == 0
      then unchanged (some 0)
      else if ltb disk_inode.size offset
          || ltb max_file_size disk_inode.size
          || ltb (max_file_size - offset) size
      then unchanged none
      else elim (allocate_blocks device.block_count (last_logical + 1 - first_logical) first_logical
          disk_inode a []) [
            | rolled_back back ↦ record {
              result = none;
              inode = inode;
              disk_inode = back.0;
              allocator = back.1;
              storage = d;
            }
            | allocated mapped a' news ↦
                write_data inode d disk_inode.size offset buffer size mapped a' news
          ]

  -- The Boolean is whether the device, its two functions and the buffer are there.
  unfoldable pub file_write :
      Option FsInode
      → Option DiskInode
      → Option BlockAllocator
      → Bool
      → device.State
      → ℕ
      → List ℕ
      → ℕ
      → Option Written
  unfolding write_live
  file_write (some inode) (some disk_inode) (some a) ready d offset buffer size =
      if not (pair_valid_live inode disk_inode)
        || not ready
        || device.block_size != block_bytes
        || device.block_count == 0
      then none
      else some (write_live inode disk_inode a d offset buffer size)
  file_write _ _ _ ready d offset buffer size = none
