-- ===== src/Fs/File.antt =====
-- Regular files in fs/initrafs.c: creation, reading and the rollback of new blocks. The block
-- device of fs/block.h is a parameter: its geometry, and `read`, which gives the bytes of a block or
-- fails and then leaves the buffer alone. Offsets and sizes are numbers below 2 ^ 32.
pub mod Copy
pub mod Content
pub mod Laws
pub mod Create
pub mod Rollback
pub mod Pair
mod Tests
use initra_os.Base.{
  ℕ, zero, suc, ◌+◌, ◌-◌, ◌/◌, ◌%◌, Bool, true, false, not, ◌&&◌, ◌||◌, Option, none, some, List,
  [], ◌∷◌, ltb, leb, ◌==◌, ◌!=◌, if◌then◌else◌, get_or, set, u32,
}
use initra_os.Fs.Format.{DiskInode, FsInode, zero_disk_inode, block_bytes, type_file, unused_inode}
use initra_os.Fs.Blocks.{BlockAllocator, free_live}
use initra_os.Fs.Inodes.{InodeAllocator, inode_alloc_live, inode_free_live, inode_init}
use initra_os.Fs.Integrity.{integrity_update, inode_integrity_verify}
use initra_os.Fs.Mapping.{get_live, unmap_live}

pub pair_valid_live : FsInode → DiskInode → Bool
pair_valid_live inode disk_inode = not (
    inode.inode_number != disk_inode.inode_number
    || inode.type != type_file
    || disk_inode.type != type_file
    || inode.size != disk_inode.size
    || not (inode_integrity_verify (some disk_inode)))

pub file_inode_pair_valid : Option FsInode → Option DiskInode → Bool
unfolding pair_valid_live
file_inode_pair_valid (some inode) (some disk_inode) = pair_valid_live inode disk_inode
file_inode_pair_valid _ _ = false

-- The disk inode of a new file, before it is sealed.
pub new_file : ℕ → ℕ → DiskInode
new_file inode_number mode = record zero_disk_inode {
  inode_number = inode_number;
  type = type_file;
  mode = mode;
  size = 0;
  owner = 0;
  group = 0;
  link_count = 1;
}

-- The two inodes are `none` where the call returns 0.
pub file_create_live : InodeAllocator → ℕ → Option (FsInode × DiskInode) × InodeAllocator
unfolding new_file
file_create_live a mode =
    let (inode_number, a') = inode_alloc_live a in
    if inode_number == unused_inode
    then (none, a')
    else elim (inode_init true inode_number type_file mode) [
      | none ↦ (none, (inode_free_live a' inode_number).1)
      | some inode ↦ (some (inode, integrity_update (new_file inode_number mode)), a')
    ]

-- The Booleans are whether the pointers to the two inodes are not null.
pub file_create :
    Option InodeAllocator → Bool → Bool → ℕ → Option (FsInode × DiskInode) × Option InodeAllocator
unfolding file_create_live
file_create (some a) true true mode = let (made, a') = file_create_live a mode in (made, some a')
file_create allocator _ _ mode = (none, allocator)

-- The pairs of a logical and a physical block, the last first, which is the order of the loop.
pub rollback_blocks : DiskInode → BlockAllocator → List (ℕ × ℕ) → DiskInode × BlockAllocator
rollback_blocks disk_inode a [] = (disk_inode, a)
rollback_blocks disk_inode a (pair ∷ pairs) =
    let unmapped : DiskInode = elim (unmap_live disk_inode pair.0) [
      | none ↦ disk_inode
      | some i ↦ i
    ] in
    rollback_blocks unmapped (free_live a pair.1).1 pairs

-- `n` bytes from `from` of the source to `at` of the destination.
pub copy_bytes : List ℕ → ℕ → List ℕ → ℕ → ℕ → List ℕ
copy_bytes destination at source from zero = destination
copy_bytes destination at source from (suc n) =
    copy_bytes (set destination at (get_or source from 0)) (at + 1) source (from + 1) n

-- The part of a transfer that stays in one block.
abbrev pub chunk_of : ℕ → ℕ → ℕ
chunk_of block_offset remaining =
    if ltb remaining (block_bytes - block_offset) then remaining else block_bytes - block_offset

module _ (block_count : ℕ) (read : ℕ → Option (List ℕ)) where
  -- One block of the transfer into the buffer.
  pub read_chunk : DiskInode → ℕ → ℕ → List ℕ → ℕ → ℕ → Option (List ℕ)
  read_chunk disk_inode logical_block block_offset buffer bytes_done chunk =
      elim (get_live disk_inode logical_block) [
        | none ↦ none
        | some physical_block ↦
            if leb block_count physical_block then none else elim (read physical_block) [
              | none ↦ none
              | some block ↦ some (
                  if block_offset == 0 && chunk == block_bytes
                  then copy_bytes buffer bytes_done block 0 block_bytes
                  else copy_bytes buffer bytes_done block block_offset chunk)
            ]
      ]

  -- The loop, on fuel. The number is the return value, `none` for -1, and the list the buffer.
  pub read_loop : ℕ → DiskInode → ℕ → ℕ → List ℕ → ℕ → Option ℕ × List ℕ
  unfolding read_chunk
  read_loop zero disk_inode offset size buffer bytes_done = (none, buffer)
  read_loop (suc fuel) disk_inode offset size buffer bytes_done =
      let file_offset = u32 (offset + bytes_done) in
      let block_offset = file_offset % block_bytes in
      let chunk = chunk_of block_offset (size - bytes_done) in
      if ltb bytes_done size
      then elim (read_chunk disk_inode (file_offset / block_bytes) block_offset buffer bytes_done
          chunk) [
            | none ↦ (none, buffer)
            | some filled ↦ read_loop fuel disk_inode offset size filled (u32 (bytes_done + chunk))
          ]
      else (some bytes_done, buffer)

  pub read_live : DiskInode → ℕ → List ℕ → ℕ → Option ℕ × List ℕ
  unfolding read_loop
  read_live disk_inode offset buffer size =
      if size == 0 || leb disk_inode.size offset
      then (some 0, buffer)
      else let available = disk_inode.size - offset in
        let wanted = if ltb available size then available else size in
        read_loop (wanted + 1) disk_inode offset wanted buffer 0

  -- The device's block size and the Boolean, whether the device, its `read` and the buffer are there,
  -- are the remaining guards.
  unfoldable pub file_read :
      Option FsInode → Option DiskInode → Bool → ℕ → ℕ → List ℕ → ℕ → Option ℕ × List ℕ
  unfolding read_live
  file_read (some inode) (some disk_inode) ready block_size offset buffer size =
      if not (pair_valid_live inode disk_inode)
        || not ready
        || block_size != block_bytes
        || block_count == 0
      then (none, buffer)
      else read_live disk_inode offset buffer size
  file_read _ _ ready block_size offset buffer size = (none, buffer)
