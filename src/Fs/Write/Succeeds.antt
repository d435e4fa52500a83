-- ===== src/Fs/Write/Succeeds.antt =====
-- When `initrafs_file_write` does not fail.
use initra_os.Base.{ℕ, ◌+◌, ◌≤◌, ◌<◌, ◌≡◌, ◌∙◌, inl, inr, sym, ap, some, List, arith, Option-cases}
use initra_os.Fs.Format.{DiskInode, FsInode}
use initra_os.Fs.Device.{Device, IsStorage, IsHealthy}
use initra_os.Fs.Blocks.{BlockAllocator}
use initra_os.Fs.Blocks.Inv.{IsValid}
use initra_os.Fs.Mapping.{get_live}
use initra_os.Fs.Mapping.Laws.{IsSound}
use initra_os.Fs.Write.{write_live}
use initra_os.Fs.Write.Cases.{
  blocks_needed, transfer, IsReady, idle, refused, out_of_space, broken, done, write_live-Case,
}
use initra_os.Fs.Write.Ready.{IsReady-Ended}
use initra_os.Fs.Write.Reach.{write_loop_succeeds}

module _ (device : Device) (inode : FsInode) (i : DiskInode) (m : List ℕ) (a : BlockAllocator)
    (d : device.State) (offset : ℕ) (buffer : List ℕ) (size : ℕ) (s : IsSound i) (v : IsValid m a)
    (covered : a.total_blocks ≤ device.block_count) (storage : IsStorage device)
    (healthy : IsHealthy device)
    (on_device : (l b : ℕ) → get_live i l ≡ some b → b < device.block_count) where
  transfer_succeeds :
      (i' : DiskInode) (a' : BlockAllocator) (news : List (ℕ × ℕ))
      → IsReady device inode i m a d offset buffer size i' a' news
      → (transfer device inode i m a d offset buffer size i' news).0 ≡ some size
  transfer_succeeds i' a' news ready =
      let e = IsReady-Ended device inode i m a d offset buffer size s v i' a' news ready in
      write_loop_succeeds device storage i' news offset size buffer (omega (arith, ready.ends))
        healthy
        (λ l lo hi. elim (Option-cases (get_live i' l)) [
          | inl gone ↦ absurd (ready.all_mapped l lo (omega (arith, ready.nonempty)) gone)
          | inr (b, f) ↦ (
            b,
            f,
            elim (e.origin l b f) [
              | inl old ↦ on_device l b old
              | inr fresh ↦ omega (arith, fresh.1)
            ],
          )
        ])
        (size + 1) d 0 (omega arith) (omega arith)

  -- The same behind the call's first guards.
  pub write_live_succeeds :
      offset ≤ i.size
      → i.size ≤ 4096
      → offset + size ≤ 4096
      → blocks_needed offset size ≤ a.free_blocks
      → (write_live device inode i a d offset buffer size).result ≡ some size
  write_live_succeeds starts small ends room =
      elim (write_live-Case device inode i m a d offset buffer size s v covered) [
        | idle z q ↦ ap (λ t. t.result) q ∙ ap some (sym z)
        | refused why q ↦ absurd (omega (arith, why))
        | out_of_space back b same few q ↦ absurd (omega arith)
        | broken i' a' news ready bad q ↦
            absurd (ground (arith, transfer_succeeds i' a' news ready))
        | done i' a' news ready good q ↦ ap (λ t. t.result) q
      ]
