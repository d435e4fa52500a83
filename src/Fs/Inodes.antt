-- ===== src/Fs/Inodes.antt =====
-- The inode allocator of fs/initrafs.c, and the inodes in memory that it numbers. It only reads the
-- superblock that it points to, and only at initialisation.
pub mod Laws
pub mod Create
mod Tests
use initra_os.Base.{
  ℕ, ◌+◌, ◌-◌, ◌/◌, ◌%◌, Bool, true, false, not, ◌||◌, Option, none, some, List, ltb, leb, ◌==◌,
  if◌then◌else◌, u32, sub32, get_or, set, byte_mask, test_mask, set_mask, clear_mask, first_from,
  zero_bytes,
}
use initra_os.Fs.Format.{
  Superblock, FsInode, unused_inode, root_inode_number, type_file, type_directory, type_symlink,
  type_device,
}

pub record InodeAllocator : Type 0 where
  pub bitmap : Option (List ℕ)
  pub bitmap_bytes : ℕ
  pub total_inodes : ℕ
  pub first_allocatable_inode : ℕ
  pub free_inodes : ℕ

pub inode_bitmap_bytes : ℕ → ℕ
inode_bitmap_bytes inode_count = u32 (inode_count + 7) / 8

pub inode_bitmap_index : ℕ → ℕ
inode_bitmap_index inode = inode / 8

pub inode_bitmap_mask : ℕ → ℕ
inode_bitmap_mask inode = byte_mask (inode % 8)

unfoldable pub inode_is_marked : List ℕ → ℕ → Bool
unfolding inode_bitmap_index inode_bitmap_mask
inode_is_marked bitmap inode =
    test_mask (get_or bitmap (inode_bitmap_index inode) 0) (inode_bitmap_mask inode)

pub inode_mark_used : List ℕ → ℕ → List ℕ
unfolding inode_bitmap_index inode_bitmap_mask
inode_mark_used bitmap inode =
    set bitmap (inode_bitmap_index inode)
      (set_mask (get_or bitmap (inode_bitmap_index inode) 0) (inode_bitmap_mask inode))

pub inode_mark_free : List ℕ → ℕ → List ℕ
unfolding inode_bitmap_index inode_bitmap_mask
inode_mark_free bitmap inode =
    set bitmap (inode_bitmap_index inode)
      (clear_mask (get_or bitmap (inode_bitmap_index inode) 0) (inode_bitmap_mask inode))

inode_init_live : Superblock → List ℕ → ℕ → Option InodeAllocator
inode_init_live superblock bitmap bitmap_bytes =
    let required = inode_bitmap_bytes superblock.inode_count in
    let first = root_inode_number + 1 in
    let cleared = zero_bytes required bitmap in
    if leb superblock.inode_count root_inode_number
    then none
    else if ltb bitmap_bytes required
    then none
    else some (record {
      bitmap = some (inode_mark_used (inode_mark_used cleared unused_inode) root_inode_number);
      bitmap_bytes = required;
      total_inodes = superblock.inode_count;
      first_allocatable_inode = first;
      free_inodes = sub32 superblock.inode_count first;
    })

pub inode_allocator_init : Bool → Option Superblock → Option (List ℕ) → ℕ → Option InodeAllocator
unfolding inode_init_live
inode_allocator_init true (some superblock) (some bitmap) bitmap_bytes =
    inode_init_live superblock bitmap bitmap_bytes
inode_allocator_init _ _ _ _ = none

inode_alloc_in : InodeAllocator → List ℕ → ℕ × InodeAllocator
inode_alloc_in a bitmap =
    elim (first_from (λ inode. not (inode_is_marked bitmap inode))
      (a.total_inodes - a.first_allocatable_inode) a.first_allocatable_inode) [
        | none ↦ (unused_inode, a)
        | some inode ↦ (
          inode,
          record a {
            bitmap = some (inode_mark_used bitmap inode);
            free_inodes = sub32 a.free_inodes 1;
          },
        )
      ]

-- `initrafs_inode_alloc` after its null tests of the allocator.
pub inode_alloc_live : InodeAllocator → ℕ × InodeAllocator
unfolding inode_alloc_in
inode_alloc_live a = elim (a.bitmap) [ none ↦ (0, a) | some bitmap ↦ inode_alloc_in a bitmap ]

pub inode_alloc : Option InodeAllocator → ℕ × Option InodeAllocator
unfolding inode_alloc_live
inode_alloc none = (0, none)
inode_alloc (some a) = let (inode, a') = inode_alloc_live a in (inode, some a')

inode_free_in : InodeAllocator → List ℕ → ℕ → Bool × InodeAllocator
inode_free_in a bitmap inode =
    if ltb inode a.first_allocatable_inode || leb a.total_inodes inode
    then (false, a)
    else if not (inode_is_marked bitmap inode)
    then (false, a)
    else (
      true,
      record a {
        bitmap = some (inode_mark_free bitmap inode);
        free_inodes = u32 (a.free_inodes + 1);
      },
    )

unfoldable pub inode_free_live : InodeAllocator → ℕ → Bool × InodeAllocator
unfolding inode_free_in
inode_free_live a inode = elim (a.bitmap) [
  | none ↦ (false, a)
  | some bitmap ↦ inode_free_in a bitmap inode
]

pub inode_free : Option InodeAllocator → ℕ → Bool × Option InodeAllocator
unfolding inode_free_live
inode_free none inode = (false, none)
inode_free (some a) inode = let (done, a') = inode_free_live a inode in (done, some a')

unfoldable pub inode_type_valid : ℕ → Bool
inode_type_valid t = t == type_file || t == type_directory || t == type_symlink || t == type_device

-- Every field is written; `none` is the return value 0, with nothing written.
unfoldable pub inode_init : Bool → ℕ → ℕ → ℕ → Option FsInode
unfolding inode_type_valid
inode_init has_inode inode_number t mode =
    if not has_inode || inode_number == unused_inode || not (inode_type_valid t)
    then none
    else some (record {
      inode_number = inode_number;
      type = t;
      mode = mode;
      flags = 0;
      size = 0;
      owner = 0;
      group = 0;
      link_count = if t == type_directory then 2 else 1;
      created_time = 0;
      modified_time = 0;
      accessed_time = 0;
    })

inode_create_live : InodeAllocator → ℕ → ℕ → Option FsInode × InodeAllocator
inode_create_live a t mode =
    let (inode_number, a') = inode_alloc_live a in
    if inode_number == unused_inode
    then (none, a')
    else elim (inode_init true inode_number t mode) [
      | none ↦ (none, (inode_free_live a' inode_number).1)
      | some inode ↦ (some inode, a')
    ]

-- The inode is `none` where the call returns 0.
pub inode_create : Option InodeAllocator → Bool → ℕ → ℕ → Option FsInode × Option InodeAllocator
unfolding inode_create_live
inode_create none has_inode t mode = (none, none)
inode_create (some a) has_inode t mode =
    if not has_inode || not (inode_type_valid t)
    then (none, some a)
    else let (inode, a') = inode_create_live a t mode in (inode, some a')
