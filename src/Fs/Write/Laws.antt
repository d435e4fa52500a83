-- ===== src/Fs/Write/Laws.antt =====
-- `initrafs_file_write` behind its first guards.
use initra_os.Base.{
  ℕ, ◌+◌, ◌/◌, ◌≤◌, ◌<◌, ◌≡◌, ◌≢◌, ◌⊎◌, ◌∙◌, inl, inr, sym, ap, subst, refl, true, none, some, List,
  arith, ltb, ◌==◌, if◌then◌else◌, get_or, Option-cases,
}
use initra_os.Fs.Format.{DiskInode, FsInode}
use initra_os.Fs.Device.{Device, IsStorage}
use initra_os.Fs.Blocks.{BlockAllocator, is_marked}
use initra_os.Fs.Blocks.Inv.{IsValid}
use initra_os.Fs.Mapping.{get_live}
use initra_os.Fs.Mapping.Laws.{IsSound, SameObject}
use initra_os.Fs.File.{rollback_blocks}
use initra_os.Fs.File.Content.{content, content_same, content_unmapped}
use initra_os.Fs.File.Rollback.{
  Owned, AsBefore, AsBefore-refl, SameObject-trans, Acquired-Undone, rollback_blocks-AsBefore,
  rollback_blocks-SameObject,
}
use initra_os.Fs.Write.{Written, write_live}
use initra_os.Fs.Write.Cases.{
  transfer, grown, grown_inode, IsReady, Case, idle, refused, out_of_space, broken, done,
  write_live-Case,
}
use initra_os.Fs.Write.Ready.{IsReady-Ended}
use initra_os.Fs.Write.Stored.{write_loop-Stored}
use initra_os.Fs.Write.Reach.{write_loop-Elsewhere}

module _ (device : Device) (inode : FsInode) (i : DiskInode) (m : List ℕ) (a : BlockAllocator)
    (d : device.State) (offset : ℕ) (buffer : List ℕ) (size : ℕ) (s : IsSound i) (v : IsValid m a)
    (covered : a.total_blocks ≤ device.block_count) where
  -- What a call that returns a number of bytes has done: all bytes of the buffer are in the file from
  -- the offset on, every other byte that was there is still there, and the file has grown to the end
  -- of the transfer or has its old size.
  pub record IsStored (n : ℕ) (w : Written device) : Type 0 where
    pub all : n ≡ size
    pub inside :
        (k : ℕ)
        → k < size
        → content device.block_count (device.read w.storage) w.disk_inode (offset + k)
          ≡ some (get_or buffer k 0)
    pub outside :
        (p x : ℕ)
        → (p < offset) ⊎ (offset + size ≤ p)
        → content device.block_count (device.read d) i p ≡ some x
        → content device.block_count (device.read w.storage) w.disk_inode p ≡ some x
    pub length : w.disk_inode.size ≡ (
        if size == 0 then i.size else if ltb i.size (offset + size) then offset + size else i.size)

  abbrev ended : DiskInode → List (ℕ × ℕ) → BlockAllocator → Written device
  ended i' news a' = record {
    result = some size;
    inode = grown_inode device inode i m a d offset buffer size;
    disk_inode = grown device inode i m a d offset buffer size i';
    allocator = a';
    storage = (transfer device inode i m a d offset buffer size i' news).1;
  }

  done-IsStored :
      IsStorage device
      → Owned (get_live i) (is_marked m)
      → (i' : DiskInode) (a' : BlockAllocator) (news : List (ℕ × ℕ))
      → IsReady device inode i m a d offset buffer size i' a' news
      → (transfer device inode i m a d offset buffer size i' news).0 ≡ some size
      → IsStored size (ended i' news a')
  done-IsStored storage o i' a' news ready good =
      let e = IsReady-Ended device inode i m a d offset buffer size s v i' a' news ready in
      let o' = e.owned o in
      let g = grown device inode i m a d offset buffer size i' in
      let d' = (transfer device inode i m a d offset buffer size i' news).1 in
      let stored =
        write_loop-Stored device storage i' news offset size buffer (omega (arith, ready.ends))
          (λ l k b f h. o'.apart l k b (e.mapped l ∙ f) (e.mapped k ∙ h)) (size + 1) d 0
          (omega arith) (omega arith) in
      record {
        all = refl;
        inside = λ k lt.
            content_same device.block_count (device.read d') (device.read d') i' g (offset + k)
              (e.mapped ((offset + k) / 512)) (λ b _. refl)
            ∙ stored.inside good k (omega arith) lt;
        outside = λ p x away there. elim (Option-cases (get_live i (p / 512))) [
          | inl gone ↦
              absurd (
                ground (arith, there, content_unmapped device.block_count (device.read d) i p gone))
          | inr (b, f) ↦
              content_same device.block_count (device.read d') (device.read d') i' g p
                (e.mapped (p / 512)) (λ b _. refl)
              ∙ (stored.outside good p (inr (inr (ground arith, e.not_new (p / 512) b f)))
                  ∙ (content_same device.block_count (device.read d) (device.read d) i i' p
                        (ready.kept (p / 512) b f ∙ sym f) (λ b _. refl)
                      ∙ there))
        ];
        length = e.length ∙ ground (arith, ready.nonempty);
      }

  abbrev w : Written device
  w = write_live device inode i a d offset buffer size

  cases : Case device inode i m a d offset buffer size s v w
  cases = write_live-Case device inode i m a d offset buffer size s v covered

  -- For a sound inode, a valid block allocator whose blocks are all on the device, a device that
  -- keeps what is written, and a file whose blocks are marked and stand for one logical block
  -- each: where `initrafs_file_write`, behind its first guards, which are about the pointers, the
  -- two inodes and the device, returns a number of bytes, it is the size asked for; all bytes of
  -- the buffer are in the file from the offset on, every byte outside the range that was readable
  -- before is still there, and the file's size is the end of the transfer if that is larger.
  pub write_live-IsStored :
      (n : ℕ)
      → IsStorage device
      → Owned (get_live i) (is_marked m)
      → w.result ≡ some n
      → IsStored n w
  write_live-IsStored n storage o e = elim cases [
    | idle z q ↦ subst (IsStored n) (sym q) (record {
      all = ground (arith, ap (λ t. t.result) q);
      inside = λ k lt. absurd (omega arith);
      outside = λ p x away there. there;
      length = ground arith;
    })
    | refused why q ↦ absurd (ground (arith, ap (λ t. t.result) q))
    | out_of_space back b same few q ↦ absurd (ground (arith, ap (λ t. t.result) q))
    | broken i' a' news ready bad q ↦ absurd (ground (arith, ap (λ t. t.result) q))
    | done i' a' news ready good q ↦
        let same : n ≡ size = ground (arith, ap (λ t. t.result) q) in
        subst (IsStored n) (sym q) (
          subst (λ t. IsStored t (ended i' news a')) (sym same)
            (done-IsStored storage o i' a' news ready good))
  ]

  -- For a sound inode and a valid block allocator whose blocks are all on the device: where
  -- `initrafs_file_write`, behind its first guards, which are about the pointers, the two inodes
  -- and the device, fails, whatever the device does, the inode in memory is as before, and so are
  -- the disk inode's number, type, size and block map, and the allocator's marks and counts.
  pub write_live-AsBefore :
      w.result ≡ none
      → (w.inode ≡ inode)
        × AsBefore i m a s v (w.disk_inode, w.allocator)
        × SameObject i w.disk_inode
  write_live-AsBefore e = elim cases [
    | idle z q ↦ absurd (ground (arith, ap (λ t. t.result) q))
    | refused why q ↦ subst Undone_to (sym q) (refl, before, (refl, refl, refl))
    | out_of_space back b same few q ↦ subst Undone_to (sym q) (refl, b, same)
    | broken i' a' news ready bad q ↦
        let u = Acquired-Undone i m a s v news i' a' ready.acquired in
        let r = rollback_blocks-SameObject news i' a' u.now.sound in
        subst Undone_to (sym q) (
          refl,
          rollback_blocks-AsBefore i m a s v news i' a' ready.acquired,
          SameObject-trans i i' (rollback_blocks i' a' news).0 u.same r,
        )
    | done i' a' news ready good q ↦ absurd (ground (arith, ap (λ t. t.result) q))
  ]
    where
      Undone_to : Written device → Type 0
      Undone_to t =
          (t.inode ≡ inode)
          × AsBefore i m a s v (t.disk_inode, t.allocator)
          × SameObject i t.disk_inode

      before : AsBefore i m a s v (i, a)
      before = AsBefore-refl i m a s v

  -- For a sound inode, a valid block allocator whose blocks are all on the device, and a device
  -- that keeps what is written: a block that is marked before and is none of the file's reads the
  -- same after `initrafs_file_write`, behind its first guards, whatever the call returns.
  pub write_live_elsewhere :
      (b : ℕ)
      → IsStorage device
      → is_marked m b ≡ true
      → ((l : ℕ) → get_live i l ≢ some b)
      → device.read w.storage b ≡ device.read d b
  write_live_elsewhere b storage used foreign = elim cases [
    | idle z q ↦ ap (λ t. device.read t.storage b) q
    | refused why q ↦ ap (λ t. device.read t.storage b) q
    | out_of_space back c same few q ↦ ap (λ t. device.read t.storage b) q
    | broken i' a' news ready bad q ↦
        ap (λ t. device.read t.storage b) q ∙ left_alone i' a' news ready
    | done i' a' news ready good q ↦
        ap (λ t. device.read t.storage b) q ∙ left_alone i' a' news ready
  ]
    where
      left_alone :
          (i' : DiskInode) (a' : BlockAllocator) (news : List (ℕ × ℕ))
          → IsReady device inode i m a d offset buffer size i' a' news
          → device.read (transfer device inode i m a d offset buffer size i' news).1 b
            ≡ device.read d b
      left_alone i' a' news ready =
          let e = IsReady-Ended device inode i m a d offset buffer size s v i' a' news ready in
          write_loop-Elsewhere device storage i' news offset size buffer (omega (arith, ready.ends))
            (size + 1) d 0 (omega arith) (omega arith) b
            (λ l f. ground (arith, e.origin l b f, foreign l, used))
