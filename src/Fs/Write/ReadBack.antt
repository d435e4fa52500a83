-- ===== src/Fs/Write/ReadBack.antt =====
-- `initrafs_file_read` after `initrafs_file_write`.
use initra_os.Base.{ℕ, ◌+◌, ◌≤◌, ◌<◌, ◌^◌, ◌≡◌, ◌∙◌, ap, some, List, arith, length, get_or}
use initra_os.Fs.Format.{DiskInode, FsInode}
use initra_os.Fs.Device.{Device, IsStorage}
use initra_os.Fs.Blocks.{BlockAllocator, is_marked}
use initra_os.Fs.Blocks.Inv.{IsValid}
use initra_os.Fs.Mapping.{get_live}
use initra_os.Fs.Mapping.Laws.{IsSound}
use initra_os.Fs.File.{read_live}
use initra_os.Fs.File.Rollback.{Owned}
use initra_os.Fs.File.Laws.{complete, broken, wanted, read_live-Outcome}
use initra_os.Fs.Write.{Written, write_live}
use initra_os.Fs.Write.Laws.{write_live-IsStored}

module _ (device : Device) (inode : FsInode) (i : DiskInode) (m : List ℕ) (a : BlockAllocator)
    (d : device.State) (offset : ℕ) (buffer : List ℕ) (size : ℕ) (s : IsSound i) (v : IsValid m a)
    (covered : a.total_blocks ≤ device.block_count) (storage : IsStorage device)
    (owned : Owned (get_live i) (is_marked m)) where
  abbrev w : Written device
  w = write_live device inode i a d offset buffer size

  -- The same behind the first guards of both calls.
  pub read_live-write_live :
      (n : ℕ) (out : List ℕ)
      → w.result ≡ some n
      → 0 < size
      → offset + size < 2 ^ 32
      → i.size < 2 ^ 32
      → size ≤ length out
      → let r = read_live device.block_count (device.read w.storage) w.disk_inode offset out size in
        (r.0 ≡ some size) × ((k : ℕ) → k < size → get_or r.1 k 0 ≡ get_or buffer k 0)
  read_live-write_live n out e more b b' room =
      let stored =
        write_live-IsStored device inode i m a d offset buffer size s v covered n storage owned e in
      let all : wanted device.block_count (device.read w.storage) w.disk_inode offset size ≡ size =
        ground (arith, stored.length) in
      elim (read_live-Outcome device.block_count (device.read w.storage) w.disk_inode offset out
        size (ground (arith, stored.length)) room) [
          | complete filled q len inside outside ↦ (
            ap (λ r. r.0) q ∙ ap some all,
            λ k lt. ap (λ r. get_or r.1 k 0) q ∙ ground (arith, inside k, stored.inside k lt, all),
          )
          | broken k lo hi gone bad ↦ absurd (ground (arith, gone, stored.inside k, all))
        ]
