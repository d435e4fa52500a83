-- ===== src/Fs/Creation/Laws.antt =====
-- What the new objects are.
use initra_os.Base.{
  ℕ, ◌-◌, ◌≤◌, ◌≡◌, ◌≢◌, refl, ◌∙◌, true, Option, none, some, List, arith, ◌==◌, if◌then◌else◌,
  length, set_bit, is_clear, IsFirst,
}
use initra_os.Fs.Format.{Superblock, DiskInode, Dirent}
use initra_os.Fs.Superblock.{IsFormatted}
use initra_os.Fs.Inodes.{InodeAllocator, inode_alloc_live, inode_type_valid, inode_init}
use initra_os.Fs.Inodes.Laws.{IsValid, Allocated, full, taken, inode_alloc-Allocated}
use initra_os.Fs.Integrity.{integrity_update}
use initra_os.Fs.Integrity.Laws.{identity-update, direct_blocks-update}
use initra_os.Fs.Mapping.{get_live}
use initra_os.Fs.Mapping.Laws.{
  IsSound, SameObject, update-IsSound, get_live-blank, get_live_same, get_live_first,
}
use initra_os.Fs.Directory.Root.{
  HasDots, dots_only, dots_only-HasDots, root_directory_init-dots_only, relinked,
}
use initra_os.Fs.Creation.{
  root_blank, root_inode_init, set_owner_group_live, new_directory, Made, directory_create,
}

-- With a superblock of the expected layout, `initrafs_root_inode_init` makes a sound disk inode of
-- number 1, the type of a directory and the mode 0755, whose first logical block is the first data
-- block, and which has no other block.
pub root_inode_init_lem :
    (sb : Superblock)
    → IsFormatted sb
    → (i : DiskInode) × (root_inode_init true (some sb) ≡ some i)
      × IsSound i
      × ((i.inode_number ≡ 1) × (i.type ≡ 2) × (i.mode ≡ 0o755))
      × ((j : ℕ) → get_live i j ≡ (if j == 0 then some sb.data_start else none))
unfolding root_inode_init integrity_update root_blank
root_inode_init_lem sb f = (
  integrity_update (root_blank sb.data_start),
  ground (arith, f.layout),
  update-IsSound (root_blank sb.data_start) (unfold root_blank in refl)
      (unfold root_blank in omega arith),
  (refl, refl, refl),
  λ j.
      get_live_first (integrity_update (root_blank sb.data_start)) sb.data_start j
        (ground (arith, f.layout)) (direct_blocks-update (root_blank sb.data_start)),
)

-- On a sound inode, `initrafs_inode_set_owner_group` sets the owner and the group and leaves a
-- sound inode of the same number, type, size and block map.
pub set_owner_group_live_lem :
    (i : DiskInode) (owner group : ℕ)
    → IsSound i
    → let i' = set_owner_group_live i owner group in
      IsSound i'
      × SameObject i i'
      × ((i'.owner ≡ owner) × (i'.group ≡ group))
      × ((j : ℕ) → get_live i' j ≡ get_live i j)
unfolding set_owner_group_live integrity_update
set_owner_group_live_lem i owner group s =
    let c = record i { owner = owner; group = group } in
    (
      update-IsSound c s.blocks s.spare,
      identity-update c,
      (refl, refl),
      λ j. get_live_same i (integrity_update c) j (direct_blocks-update c),
    )

-- The two inodes and the entries of a new directory.
pub record IsNewDirectory (i mode parent size : ℕ) (made : Made) : Type 0 where
  pub in_memory :
      (made.0.inode_number ≡ i) × (made.0.type ≡ 2) × (made.0.mode ≡ mode) × (made.0.link_count ≡ 2)
  pub on_disk : (made.1.inode_number ≡ i) × (made.1.type ≡ 2) × (made.1.mode ≡ mode)
  pub sound : IsSound made.1
  pub unmapped : (j : ℕ) → get_live made.1 j ≡ none
  pub dots : HasDots i parent size made.2

-- The results of `initrafs_directory_create` on arguments that it accepts.
pub data DirectoryCreated (m : List ℕ) (a : InodeAllocator) (mode parent size : ℕ)
    (result : Option Made × Option InodeAllocator) : Type 0 where
  exhausted :
      a.free_inodes ≡ 0 → result ≡ (none, some a) → DirectoryCreated m a mode parent size result
  created :
      (i : ℕ) (made : Made) (a' : InodeAllocator)
      → result ≡ (some made, some a')
      → IsFirst
          (is_clear m)
          (a.total_inodes - a.first_allocatable_inode)
          a.first_allocatable_inode
          i
      → IsValid (set_bit m i) a'
      → IsNewDirectory i mode parent size made
      → DirectoryCreated m a mode parent size result

module _ (m : List ℕ) (a : InodeAllocator) (es : List Dirent) (mode parent : ℕ) (v : IsValid m a)
    (room : 2 ≤ length es) (live : parent ≢ 0) where
  made_with : ℕ → Made
  made_with i = (
    record {
      inode_number = i;
      type = 2;
      mode = mode;
      flags = 0;
      size = 0;
      owner = 0;
      group = 0;
      link_count = 2;
      created_time = 0;
      modified_time = 0;
      accessed_time = 0;
    },
    integrity_update (new_directory i mode),
    dots_only i parent (length es),
  )

  made_with-IsNewDirectory :
      (i : ℕ) → i ≢ 0 → IsNewDirectory i mode parent (length es) (made_with i)
  unfolding made_with new_directory integrity_update
  made_with-IsNewDirectory i h = record {
    in_memory = (refl, refl, refl, refl);
    on_disk = (refl, refl, refl);
    sound = update-IsSound (new_directory i mode) refl (omega arith);
    unmapped = λ j. get_live-blank _ j (direct_blocks-update (new_directory i mode));
    dots = dots_only-HasDots i parent (length es) h live room;
  }

  directory_create_live-DirectoryCreated :
      {r : ℕ × InodeAllocator}
      → inode_alloc_live a ≡ r
      → Allocated m a r
      → DirectoryCreated m a mode parent
          (length es)
          (directory_create (some a) true true (some es) mode parent)
  unfolding directory_create inode_init inode_type_valid
  directory_create_live-DirectoryCreated e (full z q) = exhausted z (ground (arith, e ∙ q))
  directory_create_live-DirectoryCreated e (taken i a' q first v' total less) =
      let h : i ≢ 0 = omega (arith, first.from_start, v.first_is) in
      created i (made_with i) a'
        (unfold made_with in
          ground (
            arith,
            e ∙ q,
            root_directory_init-dots_only es room,
            relinked i parent 1 1 (length es),
          ))
        first v' (made_with-IsNewDirectory i h)

  -- On a valid inode allocator, with at least two entries and a parent that is not 0,
  -- `initrafs_directory_create` with pointers that are not null has one of two results: a pair of
  -- inodes of a directory of the given mode under the lowest free number, the disk inode sound and
  -- without any block, a valid array of entries in which exactly `.` and `..` are found, as the
  -- new number and the parent, and the allocator valid with that number marked; or no inode is
  -- free, and then nothing changes.
  pub directory_create-DirectoryCreated :
      DirectoryCreated m a mode parent
        (length es)
        (directory_create (some a) true true (some es) mode parent)
  directory_create-DirectoryCreated =
      directory_create_live-DirectoryCreated refl (inode_alloc-Allocated m a v)
