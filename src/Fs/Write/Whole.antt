-- ===== src/Fs/Write/Whole.antt =====
-- `initrafs_file_write` and `initrafs_file_read` with all their guards, on a well-formed file.
use initra_os.Base.{
  ℕ, ◌+◌, ◌≤◌, ◌<◌, ◌^◌, ◌≡◌, ◌∙◌, ap, subst, refl, true, false, some, List, arith, length, get_or,
  ◌==◌, ◌!=◌, some_inj,
}
use initra_os.Fs.Format.{DiskInode, FsInode}
use initra_os.Fs.Device.{Device, IsStorage, IsHealthy}
use initra_os.Fs.Blocks.{BlockAllocator}
use initra_os.Fs.Mapping.{get_live}
use initra_os.Fs.File.{file_read, read_live}
use initra_os.Fs.File.Pair.{IsOneFile, pair_valid_live_iff}
use initra_os.Fs.Write.{Written, write_live, file_write}
use initra_os.Fs.Write.Cases.{blocks_needed}
use initra_os.Fs.Write.Keeps.{IsWellFormed, write_live-IsWellFormed}
use initra_os.Fs.Write.Succeeds.{write_live_succeeds}
use initra_os.Fs.Write.ReadBack.{read_live-write_live}

-- A read with a buffer from a device of blocks of 512 bytes, of two inodes that agree.
file_read_accepts :
    (device : Device) (inode : FsInode) (i : DiskInode) (d : device.State) (offset : ℕ)
    (out : List ℕ) (size : ℕ)
    → IsOneFile inode i
    → device.block_size ≡ 512
    → 0 < device.block_count
    → file_read device.block_count
        (device.read d)
        (some inode)
        (some i)
        true
        device.block_size
        offset
        out
        size
      ≡ read_live device.block_count (device.read d) i offset out size
unfolding file_read
file_read_accepts device inode i d offset out size pair block some_blocks =
    let agree = (pair_valid_live_iff inode i).1 pair in
    let fits : (device.block_size != 512) ≡ false = ground arith in
    let more : (device.block_count == 0) ≡ false = ground arith in
    rw (file_read, agree, fits, more) refl

module _ (device : Device) (inode : FsInode) (i : DiskInode) (a : BlockAllocator)
    (h : IsWellFormed inode i a) (d : device.State) (offset : ℕ) (buffer : List ℕ) (size : ℕ)
    (covered : a.total_blocks ≤ device.block_count) (storage : IsStorage device) where
  abbrev w : Written device
  w = write_live device inode i a d offset buffer size

  file_write_accepts :
      device.block_size ≡ 512
      → 0 < device.block_count
      → file_write device (some inode) (some i) (some a) true d offset buffer size ≡ some w
  unfolding file_write
  file_write_accepts block some_blocks =
      let agree = (pair_valid_live_iff inode i).1 h.pair in
      let fits : (device.block_size != 512) ≡ false = ground arith in
      let more : (device.block_count == 0) ≡ false = ground arith in
      rw (file_write, agree, fits, more) refl

  -- A call that gets past the guards.
  file_write_accepted :
      (w' : Written device)
      → file_write device (some inode) (some i) (some a) true d offset buffer size ≡ some w'
      → (device.block_size ≡ 512) × (0 < device.block_count) × (w ≡ w')
  unfolding file_write
  file_write_accepted w' e = (ground arith, ground arith, some_inj w w' (ground arith))

  -- For a well-formed file whose mapped blocks are on the device, a block allocator whose blocks
  -- are all on it, and a device of at least one block of 512 bytes that keeps what is written and
  -- does not fail: `initrafs_file_write` gets past its guards and returns the size asked for, when
  -- the offset is not past the end of the file, the file and the transfer end within 4096 bytes,
  -- and as many blocks are free as the range has.
  pub file_write_succeeds :
      IsHealthy device
      → ((l b : ℕ) → get_live i l ≡ some b → b < device.block_count)
      → device.block_size ≡ 512
      → 0 < device.block_count
      → offset ≤ i.size
      → i.size ≤ 4096
      → offset + size ≤ 4096
      → blocks_needed offset size ≤ a.free_blocks
      → (w' : Written device) × (file_write device
            (some inode)
            (some i)
            (some a)
            true
            d
            offset
            buffer
            size
          ≡ some w')
        × (w'.result ≡ some size)
  file_write_succeeds healthy on_device block some_blocks starts small ends room = (
    w,
    file_write_accepts block some_blocks,
    write_live_succeeds device inode i h.bitmap a d offset buffer size h.sound h.valid covered
        storage healthy on_device starts small ends room,
  )

  -- For a well-formed file, a block allocator whose blocks are all on the device, and a device
  -- that keeps what is written: after a call of `initrafs_file_write` that gets past its guards
  -- and returns a number, with a size above 0, an end and a file size below 2 ^ 32 and a buffer
  -- that is large enough, `initrafs_file_read` of the same range, guards included, returns the
  -- size and the bytes that were written.
  pub file_read-file_write :
      (w' : Written device) (n : ℕ) (out : List ℕ)
      → file_write device (some inode) (some i) (some a) true d offset buffer size ≡ some w'
      → w'.result ≡ some n
      → 0 < size
      → offset + size < 2 ^ 32
      → i.size < 2 ^ 32
      → size ≤ length out
      → let r =
          file_read device.block_count
            (device.read w'.storage)
            (some w'.inode)
            (some w'.disk_inode)
            true
            device.block_size
            offset
            out
            size in
        (r.0 ≡ some size) × ((k : ℕ) → k < size → get_or r.1 k 0 ≡ get_or buffer k 0)
  file_read-file_write w' n out e f more b b' room =
      let (block, some_blocks, same) = file_write_accepted w' e in
      let kept = write_live-IsWellFormed inode i a h device d offset buffer size covered in
      let back =
        read_live-write_live device inode i h.bitmap a d offset buffer size h.sound h.valid covered
          storage h.owned n out (ap (λ x. x.result) same ∙ f) more b b' room in
      let q =
        file_read_accepts device w.inode w.disk_inode w.storage offset out size kept.pair block
          some_blocks in
      subst Good same (ap (λ r. r.0) q ∙ back.0, λ k lt. ap (λ r. get_or r.1 k 0) q ∙ back.1 k lt)
    where
      Good : Written device → Type 0
      Good x =
          let r =
            file_read device.block_count (device.read x.storage) (some x.inode) (some x.disk_inode)
              true device.block_size offset out size in
          (r.0 ≡ some size) × ((k : ℕ) → k < size → get_or r.1 k 0 ≡ get_or buffer k 0)
