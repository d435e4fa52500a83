-- ===== src/Fs/Write/Keeps.antt =====
-- The invariant of a file and its block allocator under `initrafs_file_write`.
use initra_os.Base.{
  ℕ, ◌+◌, ◌≤◌, ◌≡◌, ◌∙◌, inl, inr, sym, ap, subst, some, List, arith, ltb, if◌then◌else◌,
  Option-cases, Bool-cases,
}
use initra_os.Fs.Format.{DiskInode, FsInode}
use initra_os.Fs.Device.{Device}
use initra_os.Fs.Blocks.{BlockAllocator, is_marked}
use initra_os.Fs.Blocks.Inv.{IsValid}
use initra_os.Fs.Mapping.{get_live}
use initra_os.Fs.Mapping.Laws.{IsSound, SameObject}
use initra_os.Fs.File.Pair.{IsOneFile}
use initra_os.Fs.File.Rollback.{Owned, AsBefore}
use initra_os.Fs.Write.{Written, write_live}
use initra_os.Fs.Write.Cases.{
  grown_inode, idle, refused, out_of_space, broken, done, write_live-Case,
}
use initra_os.Fs.Write.Ready.{IsReady-Ended}
use initra_os.Fs.Write.Laws.{write_live-AsBefore}

-- A regular file whose two inodes agree, over a valid block allocator where every block of the file
-- is marked and stands for one logical block.
pub record IsWellFormed (inode : FsInode) (i : DiskInode) (a : BlockAllocator) : Type 0 where
  pub bitmap : List ℕ
  pub valid : IsValid bitmap a
  pub sound : IsSound i
  pub owned : Owned (get_live i) (is_marked bitmap)
  pub pair : IsOneFile inode i

module _ (inode : FsInode) (i : DiskInode) (a : BlockAllocator) (h : IsWellFormed inode i a) where
  same-IsOneFile : (j : DiskInode) → IsSound j → SameObject i j → IsOneFile inode j
  same-IsOneFile j sound same = record {
    numbers = h.pair.numbers ∙ sym same.0;
    memory_type = h.pair.memory_type;
    disk_type = same.1 ∙ h.pair.disk_type;
    sizes = h.pair.sizes ∙ sym same.2;
    verified = sound.verified;
  }

  AsBefore-IsWellFormed :
      (i' : DiskInode) (a' : BlockAllocator)
      → AsBefore i h.bitmap a h.sound h.valid (i', a')
      → SameObject i i'
      → IsWellFormed inode i' a'
  AsBefore-IsWellFormed i' a' b same = record {
    bitmap = b.bitmap;
    valid = b.valid;
    sound = b.sound;
    owned = record {
      used = λ l c e. b.marked c ∙ h.owned.used l c (sym (b.mapped l) ∙ e);
      apart = λ l k c e f. h.owned.apart l k c (sym (b.mapped l) ∙ e) (sym (b.mapped k) ∙ f);
    };
    pair = same-IsOneFile i' b.sound same;
  }

  module _ (device : Device) (d : device.State) (offset : ℕ) (buffer : List ℕ) (size : ℕ)
      (covered : a.total_blocks ≤ device.block_count) where
    abbrev w : Written device
    w = write_live device inode i a d offset buffer size

    grown-IsOneFile :
        (g : DiskInode)
        → IsSound g
        → (g.inode_number ≡ i.inode_number) × (g.type ≡ i.type)
        → g.size ≡ (if ltb i.size (offset + size) then offset + size else i.size)
        → IsOneFile (grown_inode device inode i h.bitmap a d offset buffer size) g
    grown-IsOneFile g sound same length = elim (Bool-cases (ltb i.size (offset + size))) [
      | inl e ↦ rw (e) (record {
        numbers = h.pair.numbers ∙ sym same.0;
        memory_type = h.pair.memory_type;
        disk_type = same.1 ∙ h.pair.disk_type;
        sizes = ground (arith, length);
        verified = sound.verified;
      })
      | inr e ↦ rw (e) (same-IsOneFile g sound (same.0, same.1, ground (arith, length)))
    ]

    done-IsWellFormed : (n : ℕ) → w.result ≡ some n → IsWellFormed w.inode w.disk_inode w.allocator
    done-IsWellFormed n e =
        elim (write_live-Case device inode i h.bitmap a d offset buffer size h.sound h.valid
          covered) [
            | idle z q ↦ subst Good (sym q) h
            | refused why q ↦ subst Good (sym q) h
            | out_of_space back b same few q ↦ absurd (ground (arith, ap (λ t. t.result) q))
            | broken i' a' news ready bad q ↦ absurd (ground (arith, ap (λ t. t.result) q))
            | done i' a' news ready good q ↦
                let g =
                  IsReady-Ended device inode i h.bitmap a d offset buffer size h.sound h.valid i' a'
                    news ready in
                subst Good (sym q) (record {
                  bitmap = g.bitmap;
                  valid = g.valid;
                  sound = g.sound;
                  owned = g.owned h.owned;
                  pair = grown-IsOneFile _ g.sound (g.number, g.type) g.length;
                })
          ]
      where
        Good : Written device → Type 0
        Good t = IsWellFormed t.inode t.disk_inode t.allocator

    -- With a block allocator whose blocks are all on the device, `initrafs_file_write`, behind its
    -- first guards, whatever it returns and whatever the device does, keeps a file well-formed:
    -- the allocator is valid, the disk inode sound and in agreement with the inode in memory, and
    -- every block of the file is marked and stands for one logical block.
    pub write_live-IsWellFormed : IsWellFormed w.inode w.disk_inode w.allocator
    write_live-IsWellFormed = elim (Option-cases w.result) [
      | inr (n, e) ↦ done-IsWellFormed n e
      | inl e ↦
          let b =
            write_live-AsBefore device inode i h.bitmap a d offset buffer size h.sound h.valid
              covered e in
          subst (λ x. IsWellFormed x w.disk_inode w.allocator) (sym b.0)
            (AsBefore-IsWellFormed w.disk_inode w.allocator b.1 b.2)
    ]
