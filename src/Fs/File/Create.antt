-- ===== src/Fs/File/Create.antt =====
-- What `initrafs_file_create` makes.
use initra_os.Base.{
  ℕ, ◌-◌, ◌≡◌, ◌≢◌, refl, ◌∙◌, true, Option, none, some, List, arith, set_bit, is_clear, IsFirst,
}
use initra_os.Fs.Format.{FsInode, DiskInode}
use initra_os.Fs.Inodes.{InodeAllocator, inode_alloc_live, inode_type_valid, inode_init}
use initra_os.Fs.Inodes.Laws.{IsValid, Allocated, full, taken, inode_alloc-Allocated}
use initra_os.Fs.Integrity.{integrity_update}
use initra_os.Fs.Integrity.Laws.{mode-update, identity-update, direct_blocks-update}
use initra_os.Fs.Mapping.{get_live}
use initra_os.Fs.Mapping.Laws.{IsSound, update-IsSound, get_live-blank}
use initra_os.Fs.File.{pair_valid_live, new_file, file_create}

-- The disk inode of an empty file: sound, of size 0, without any block.
pub record IsEmptyFile (i : ℕ) (d : DiskInode) : Type 0 where
  pub number : d.inode_number ≡ i
  pub kind : d.type ≡ 1
  pub empty : d.size ≡ 0
  pub sound : IsSound d
  pub unmapped : (j : ℕ) → get_live d j ≡ none

new_file-IsEmptyFile : (i mode : ℕ) → IsEmptyFile i (integrity_update (new_file i mode))
unfolding new_file
new_file-IsEmptyFile i mode =
    let same = identity-update (new_file i mode) in
    record {
      number = same.0;
      kind = same.1;
      empty = same.2;
      sound = update-IsSound (new_file i mode) refl (omega arith);
      unmapped = λ j. get_live-blank _ j (direct_blocks-update (new_file i mode));
    }

-- The results of `initrafs_file_create`: no free inode, with the allocator left as it was, or a pair
-- of matching inodes of an empty file under the lowest free number.
pub data FileCreated (m : List ℕ) (a : InodeAllocator) (mode : ℕ)
    (result : Option (FsInode × DiskInode) × Option InodeAllocator) : Type 0 where
  exhausted : a.free_inodes ≡ 0 → result ≡ (none, some a) → FileCreated m a mode result
  created :
      (i : ℕ) (inode : FsInode) (d : DiskInode) (a' : InodeAllocator)
      → result ≡ (some (inode, d), some a')
      → IsFirst
          (is_clear m)
          (a.total_inodes - a.first_allocatable_inode)
          a.first_allocatable_inode
          i
      → IsValid (set_bit m i) a'
      → IsEmptyFile i d
      → pair_valid_live inode d ≡ true
      → (inode.mode ≡ mode) × (d.mode ≡ mode)
      → FileCreated m a mode result

new_pair :
    (inode : FsInode) (d : DiskInode)
    → inode.type ≡ 1
    → inode.size ≡ 0
    → IsEmptyFile inode.inode_number d
    → pair_valid_live inode d ≡ true
unfolding pair_valid_live
new_pair inode d t z e = ground (arith, e.number, e.kind, e.empty, e.sound.verified)

file_create_live-FileCreated :
    (m : List ℕ) (a : InodeAllocator) (mode : ℕ) {r : ℕ × InodeAllocator}
    → IsValid m a
    → inode_alloc_live a ≡ r
    → Allocated m a r
    → FileCreated m a mode (file_create (some a) true true mode)
unfolding file_create inode_init inode_type_valid
file_create_live-FileCreated m a mode v e (full z q) = exhausted z (ground (arith, e ∙ q))
file_create_live-FileCreated m a mode v e (taken i a' q first v' total less) =
    let live : i ≢ 0 = omega (arith, first.from_start, v.first_is) in
    let blank = new_file-IsEmptyFile i mode in
    let inode : FsInode = record {
      inode_number = i;
      type = 1;
      mode = mode;
      flags = 0;
      size = 0;
      owner = 0;
      group = 0;
      link_count = 1;
      created_time = 0;
      modified_time = 0;
      accessed_time = 0;
    } in
    created i inode (integrity_update (new_file i mode)) a' (ground (arith, e ∙ q)) first v' blank
      (new_pair inode (integrity_update (new_file i mode)) refl refl blank)
      (refl, unfold new_file in mode-update (new_file i mode))

-- On a valid inode allocator, `initrafs_file_create` with pointers that are not null has one of
-- two results: a matching pair of inodes of the given mode under the lowest free number, for an
-- empty file whose disk inode is sound and without any block, and the allocator valid with that
-- number marked; or no inode is free, and then nothing changes.
pub file_create-FileCreated :
    (m : List ℕ) (a : InodeAllocator) (mode : ℕ)
    → IsValid m a
    → FileCreated m a mode (file_create (some a) true true mode)
file_create-FileCreated m a mode v =
    file_create_live-FileCreated m a mode v refl (inode_alloc-Allocated m a v)
