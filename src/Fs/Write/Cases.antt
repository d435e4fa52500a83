-- ===== src/Fs/Write/Cases.antt =====
-- The ways through `initrafs_file_write` behind its first guards.
use native.Mathlib.Decide.{ℕ_discrete}
use initra_os.Base.{
  ℕ, ◌+◌, ◌-◌, ◌/◌, ◌^◌, ◌≤◌, ◌<◌, ◌≡◌, ◌≢◌, ◌⊎◌, ◌∙◌, inl, inr, refl, Bool, true, false, ◌||◌,
  Option, none, some, List, [], arith, ltb, ◌==◌, u32, if◌then◌else◌, Bool-cases,
}
use initra_os.Fs.Format.{DiskInode, FsInode}
use initra_os.Fs.Device.{Device}
use initra_os.Fs.Integrity.{integrity_update}
use initra_os.Fs.Blocks.{BlockAllocator}
use initra_os.Fs.Blocks.Inv.{IsValid}
use initra_os.Fs.Mapping.{get_live}
use initra_os.Fs.Mapping.Laws.{IsSound, SameObject}
use initra_os.Fs.File.{rollback_blocks}
use initra_os.Fs.File.Rollback.{Acquired, nothing, AsBefore}
use initra_os.Fs.Write.{
  Allocation, allocate_blocks, allocated, rolled_back, write_loop, Written, write_data, write_live,
}
use initra_os.Fs.Write.Data.{write_loop_done}
use initra_os.Fs.Write.Blocks.{complete, exhausted, allocate_blocks-Phase}

-- The logical blocks that a transfer touches.
abbrev pub blocks_needed : ℕ → ℕ → ℕ
blocks_needed offset size = (offset + size - 1) / 512 + 1 - offset / 512

module _ (device : Device) (inode : FsInode) (i : DiskInode) (m : List ℕ) (a : BlockAllocator)
    (d : device.State) (offset : ℕ) (buffer : List ℕ) (size : ℕ) where
  -- A call that changes nothing.
  abbrev pub unchanged : Option ℕ → Written device
  unchanged r = record { result = r; inode = inode; disk_inode = i; allocator = a; storage = d }

  abbrev pub transfer : DiskInode → List (ℕ × ℕ) → Option ℕ × device.State
  transfer i' news = write_loop device (size + 1) d i' news offset size buffer 0

  abbrev pub grown_inode : FsInode
  grown_inode = if ltb i.size (offset + size) then record inode { size = offset + size } else inode

  abbrev pub grown : DiskInode → DiskInode
  grown i' =
      if ltb i.size (offset + size)
      then integrity_update (record i' { size = offset + size })
      else i'

  -- After the first phase, all the blocks of the range are mapped, the new ones were taken and
  -- mapped one after the other, and the mappings from before are there.
  pub record IsReady (i' : DiskInode) (a' : BlockAllocator) (news : List (ℕ × ℕ)) : Type 0 where
    pub nonempty : 0 < size
    pub starts : offset ≤ i.size
    pub ends : offset + size ≤ 4096
    pub acquired : Acquired i a news i' a'
    pub all_mapped :
        (l : ℕ)
        → offset / 512 ≤ l
        → l < offset / 512 + blocks_needed offset size
        → get_live i' l ≢ none
    pub kept : (l b : ℕ) → get_live i l ≡ some b → get_live i' l ≡ some b

  pub data Case (s : IsSound i) (v : IsValid m a) (w : Written device) : Type 0 where
    idle : size ≡ 0 → w ≡ unchanged (some 0) → Case s v w
    refused :
        (i.size < offset) ⊎ ((4096 < i.size) ⊎ (4096 < offset + size))
        → w ≡ unchanged none
        → Case s v w
    out_of_space :
        (back : DiskInode × BlockAllocator)
        → AsBefore i m a s v back
        → SameObject i back.0
        → a.free_blocks < blocks_needed offset size
        → w ≡ record {
          result = none;
          inode = inode;
          disk_inode = back.0;
          allocator = back.1;
          storage = d;
        }
        → Case s v w
    broken :
        (i' : DiskInode) (a' : BlockAllocator) (news : List (ℕ × ℕ))
        → IsReady i' a' news
        → (transfer i' news).0 ≡ none
        → w ≡ record {
          result = none;
          inode = inode;
          disk_inode = (rollback_blocks i' a' news).0;
          allocator = (rollback_blocks i' a' news).1;
          storage = (transfer i' news).1;
        }
        → Case s v w
    done :
        (i' : DiskInode) (a' : BlockAllocator) (news : List (ℕ × ℕ))
        → IsReady i' a' news
        → (transfer i' news).0 ≡ some size
        → w ≡ record {
          result = some size;
          inode = grown_inode;
          disk_inode = grown i';
          allocator = a';
          storage = (transfer i' news).1;
        }
        → Case s v w

  write_data-true :
      (i' : DiskInode) (a' : BlockAllocator) (news : List (ℕ × ℕ))
      → offset + size < 2 ^ 32
      → (transfer i' news).0 ≡ some size
      → write_data device inode d i.size offset buffer size i' a' news ≡ record {
        result = some size;
        inode = grown_inode;
        disk_inode = grown i';
        allocator = a';
        storage = (transfer i' news).1;
      }
  unfolding write_data
  write_data-true i' a' news b e =
      let q : u32 (offset + size) ≡ offset + size = omega arith in
      elim (Bool-cases (ltb i.size (offset + size))) [
        | inl f ↦ rw (write_data, e, q, f) refl
        | inr f ↦ rw (write_data, e, q, f) refl
      ]

  write_data-false :
      (i' : DiskInode) (a' : BlockAllocator) (news : List (ℕ × ℕ))
      → (transfer i' news).0 ≡ none
      → write_data device inode d i.size offset buffer size i' a' news ≡ record {
        result = none;
        inode = inode;
        disk_inode = (rollback_blocks i' a' news).0;
        allocator = (rollback_blocks i' a' news).1;
        storage = (transfer i' news).1;
      }
  unfolding write_data
  write_data-false i' a' news e = rw (write_data, e) refl

  guards : Bool
  guards = ltb i.size offset || ltb 4096 i.size || ltb (4096 - offset) size

  write_live_idle : size ≡ 0 → write_live device inode i a d offset buffer size ≡ unchanged (some 0)
  unfolding write_live
  write_live_idle z = let e : (size == 0) ≡ true = ground arith in rw (write_live, e) refl

  write_live_refused :
      (size == 0) ≡ false
      → guards ≡ true
      → write_live device inode i a d offset buffer size ≡ unchanged none
  unfolding write_live guards
  write_live_refused e f = rw (write_live, e, f) refl

  write_live_allocated :
      (r : Allocation)
      → (size == 0) ≡ false
      → guards ≡ false
      → offset + size ≤ 4096
      → allocate_blocks device.block_count (blocks_needed offset size) (offset / 512) i a [] ≡ r
      → write_live device inode i a d offset buffer size ≡ elim r as (λ _. Written device) [
        | rolled_back back ↦ record {
          result = none;
          inode = inode;
          disk_inode = back.0;
          allocator = back.1;
          storage = d;
        }
        | allocated i' a' news ↦ write_data device inode d i.size offset buffer size i' a' news
      ]
  unfolding write_live guards
  write_live_allocated r e f b p =
      let q : u32 (offset + size) ≡ offset + size = omega arith in rw (write_live, e, f, q, p) refl

  accepted-Case :
      (s : IsSound i) (v : IsValid m a)
      → a.total_blocks ≤ device.block_count
      → 0 < size
      → offset ≤ i.size
      → i.size ≤ 4096
      → offset + size ≤ 4096
      → Case s v (write_live device inode i a d offset buffer size)
  unfolding guards
  accepted-Case s v covered n starts small ends =
      let e : (size == 0) ≡ false = ground arith in
      let f : guards ≡ false = ground arith in
      elim (allocate_blocks-Phase i m a s v device.block_count covered (blocks_needed offset size)
        (offset / 512) i a [] (omega arith) nothing) [
          | exhausted back q as_before same few ↦
              out_of_space back as_before same few
                (write_live_allocated (rolled_back back) e f ends q)
          | complete i' a' news q acquired all kept ↦
              let ready : IsReady i' a' news = record {
                nonempty = n;
                starts = starts;
                ends = ends;
                acquired = acquired;
                all_mapped = all;
                kept = kept;
              } in
              let w = write_live_allocated (allocated i' a' news) e f ends q in
              elim (write_loop_done device i' news offset size buffer (omega arith) (size + 1) d 0
                (omega arith) (omega arith)) [
                  | inr good ↦
                      done i' a' news ready good (w ∙ write_data-true i' a' news (omega arith) good)
                  | inl bad ↦ broken i' a' news ready bad (w ∙ write_data-false i' a' news bad)
                ]
        ]

  pub write_live-Case :
      (s : IsSound i) (v : IsValid m a)
      → a.total_blocks ≤ device.block_count
      → Case s v (write_live device inode i a d offset buffer size)
  unfolding guards
  write_live-Case s v covered = elim (ℕ_discrete size 0) [
    | yes z ↦ idle z (write_live_idle z)
    | no n ↦ elim (Bool-cases guards) [
      | inl f ↦ refused (ground arith) (write_live_refused (ground arith) f)
      | inr f ↦ accepted-Case s v covered (omega arith) (ground arith) (ground arith) (ground arith)
    ]
  ]
