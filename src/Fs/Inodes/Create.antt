-- ===== src/Fs/Inodes/Create.antt =====
-- Setting up the allocator, and creating an inode with it.
use initra_os.Base.{
  ℕ, ◌+◌, ◌-◌, ◌*◌, ◌/◌, ◌^◌, ◌≤◌, ◌<◌, ◌≡◌, ◌≢◌, refl, sym, ◌∙◌, true, false, ◌||◌, ◌==◌,
  if◌then◌else◌, Option, none, some, List, arith, sub32, length, IsBytes, bit_at, set_bit,
  set_bit-IsBytes, length-set_bit, bit_at-set_bit, is_clear, IsFirst, zero_bytes, bit_at-zero_bytes,
  zero_bytes-IsBytes, length-zero_bytes, count_from_all, inl, inr, Bool-cases,
}
use initra_os.Fs.Format.{Superblock, FsInode}
use initra_os.Fs.Inodes.{
  InodeAllocator, inode_bitmap_bytes, inode_mark_used, inode_allocator_init, inode_alloc_live,
  inode_type_valid, inode_init, inode_create,
}
use initra_os.Fs.Inodes.Laws.{IsValid, Allocated, full, taken, inode_alloc-Allocated}

module _ (sb : Superblock) (bitmap : List ℕ) (n : ℕ) (bytes : IsBytes bitmap)
    (given : n ≤ length bitmap) (room : 2 ≤ sb.inode_count) (small : sb.inode_count + 7 < 2 ^ 32)
    (enough : (sb.inode_count + 7) / 8 ≤ n) where
  pub zeros : List ℕ
  zeros = zero_bytes ((sb.inode_count + 7) / 8) bitmap

  abbrev pub fresh_bitmap : List ℕ
  fresh_bitmap = set_bit (set_bit zeros 0) 1

  abbrev pub fresh_allocator : InodeAllocator
  fresh_allocator = record {
    bitmap = some fresh_bitmap;
    bitmap_bytes = (sb.inode_count + 7) / 8;
    total_inodes = sb.inode_count;
    first_allocatable_inode = 2;
    free_inodes = sb.inode_count - 2;
  }

  zeros-IsBytes : IsBytes zeros
  unfolding zeros
  zeros-IsBytes = zero_bytes-IsBytes ((sb.inode_count + 7) / 8) bitmap bytes

  zeros-covers : sb.inode_count ≤ 8 * length zeros
  unfolding zeros
  zeros-covers = omega (arith, length-zero_bytes ((sb.inode_count + 7) / 8) bitmap)

  marks : (j : ℕ) → j < sb.inode_count → bit_at fresh_bitmap j ≡ (j == 0 || j == 1)
  marks j h = ground (
    arith,
    bit_at-set_bit (set_bit zeros 0) 1
        (set_bit-IsBytes zeros 0 zeros-IsBytes (omega (arith, zeros-covers)))
        (omega (arith, length-set_bit zeros 0, zeros-covers)) j,
    bit_at-set_bit zeros 0 zeros-IsBytes (omega (arith, zeros-covers)) j,
    zero j h,
  )
    where
      zero : (j : ℕ) → j < sb.inode_count → bit_at zeros j ≡ false
      zero j h = unfold zeros in bit_at-zero_bytes ((sb.inode_count + 7) / 8) bitmap j (omega arith)

  fresh-IsValid : IsValid fresh_bitmap fresh_allocator
  fresh-IsValid = record {
    holds = refl;
    bytes =
        set_bit-IsBytes (set_bit zeros 0) 1
          (set_bit-IsBytes zeros 0 zeros-IsBytes (omega (arith, zeros-covers)))
          (omega (arith, length-set_bit zeros 0, zeros-covers));
    covers =
        omega (arith, length-set_bit (set_bit zeros 0) 1, length-set_bit zeros 0, zeros-covers);
    first_is = refl;
    root_fits = room;
    fits = omega arith;
    reserved = (ground (arith, marks 0), ground (arith, marks 1));
    counted = sym (
        count_from_all (is_clear fresh_bitmap) (sb.inode_count - 2) 2
          (λ j lo hi. ground (arith, marks j)));
  }

  -- With a bitmap of bytes that is large enough, and a superblock with at least 2 and fewer than 2
  -- ^ 32 - 7 inodes, `initrafs_inode_allocator_init` succeeds; the allocator is valid, and of the
  -- inodes only 0 and the root are marked.
  pub inode_allocator_init-IsValid :
      (inode_allocator_init true (some sb) (some bitmap) n ≡ some fresh_allocator)
      × IsValid fresh_bitmap fresh_allocator
      × ((j : ℕ) → j < sb.inode_count → bit_at fresh_bitmap j ≡ (j == 0 || j == 1))
  unfolding inode_allocator_init inode_mark_used set_bit zeros
  inode_allocator_init-IsValid =
      let size : inode_bitmap_bytes sb.inode_count ≡ (sb.inode_count + 7) / 8 =
        unfold inode_bitmap_bytes in omega arith in
      let free : sub32 sb.inode_count 2 ≡ sb.inode_count - 2 = omega arith in
      (ground (arith, size, free), fresh-IsValid, marks)

-- The results of `initrafs_inode_create`: bad arguments or no free inode, with the allocator left
-- as it was, or a blank inode of the asked type under the lowest free number.
pub data Created (m : List ℕ) (a : InodeAllocator) (t mode : ℕ)
    (result : Option FsInode × Option InodeAllocator) : Type 0 where
  bad_type : inode_type_valid t ≡ false → result ≡ (none, some a) → Created m a t mode result
  exhausted : a.free_inodes ≡ 0 → result ≡ (none, some a) → Created m a t mode result
  created :
      (i : ℕ) (inode : FsInode) (a' : InodeAllocator)
      → result ≡ (some inode, some a')
      → IsFirst
          (is_clear m)
          (a.total_inodes - a.first_allocatable_inode)
          a.first_allocatable_inode
          i
      → IsValid (set_bit m i) a'
      → (inode.inode_number ≡ i) × (inode.type ≡ t) × (inode.mode ≡ mode) × (inode.size ≡ 0)
      → inode.link_count ≡ (if t == 2 then 2 else 1)
      → Created m a t mode result

inode_create_live-Created :
    (m : List ℕ) (a : InodeAllocator) (t mode : ℕ) {r : ℕ × InodeAllocator}
    → IsValid m a
    → inode_type_valid t ≡ true
    → inode_alloc_live a ≡ r
    → Allocated m a r
    → Created m a t mode (inode_create (some a) true t mode)
unfolding inode_create inode_init
inode_create_live-Created m a t mode v good e (full z q) = exhausted z (ground (arith, e ∙ q))
inode_create_live-Created m a t mode v good e (taken i a' q first v' total less) =
    let live : i ≢ 0 = omega (arith, first.from_start, v.first_is) in
    created i
      (record {
        inode_number = i;
        type = t;
        mode = mode;
        flags = 0;
        size = 0;
        owner = 0;
        group = 0;
        link_count = if t == 2 then 2 else 1;
        created_time = 0;
        modified_time = 0;
        accessed_time = 0;
      })
      a' (ground (arith, e ∙ q)) first v' (refl, refl, refl, refl) refl

-- On a valid inode allocator, `initrafs_inode_create` with pointers that are not null has one of
-- three results: an inode of the lowest free number and of the given type and mode, with size 0
-- and the link count of its type, and the allocator valid with that number marked; or the type is
-- not valid, or no inode is free, and then nothing changes.
pub inode_create-Created :
    (m : List ℕ) (a : InodeAllocator) (t mode : ℕ)
    → IsValid m a
    → Created m a t mode (inode_create (some a) true t mode)
unfolding inode_create
inode_create-Created m a t mode v = elim (Bool-cases (inode_type_valid t)) [
  | inr bad ↦ bad_type bad (ground arith)
  | inl good ↦ inode_create_live-Created m a t mode v good refl (inode_alloc-Allocated m a v)
]
