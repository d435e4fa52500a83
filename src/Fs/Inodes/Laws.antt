-- ===== src/Fs/Inodes/Laws.antt =====
-- The invariant of the inode allocator, and what allocation and release promise.
use native.Mathlib.Decide.{dec_lt}
use initra_os.Base.{
  ℕ, ◌+◌, ◌-◌, ◌*◌, ◌/◌, ◌^◌, ◌≤◌, ◌<◌, ◌≡◌, ◌⊎◌, inl, inr, refl, Bool, true, false, Option, none,
  some, List, arith, sub32, u32, length, IsBytes, bit_at, set_bit, clear_bit, set_bit-IsBytes,
  clear_bit-IsBytes, length-set_bit, length-clear_bit, bit_at-set_bit, bit_at-clear_bit, is_clear,
  clear_count, clear_count-set_bit, clear_count-clear_bit, IsFirst, first_from, first_from-some,
  first_from-none, count_from-le, count_from_zero, Option-cases, Bool-cases,
}
use initra_os.Fs.Inodes.{
  InodeAllocator, inode_is_marked, inode_mark_used, inode_mark_free, inode_alloc_in, inode_free_in,
  inode_alloc_live, inode_free_live,
}

pub record IsValid (m : List ℕ) (a : InodeAllocator) : Type 0 where
  pub holds : a.bitmap ≡ some m
  pub bytes : IsBytes m
  pub covers : a.total_inodes ≤ 8 * length m
  pub first_is : a.first_allocatable_inode ≡ 2
  pub root_fits : 2 ≤ a.total_inodes
  pub fits : a.total_inodes < 2 ^ 32
  pub reserved : (bit_at m 0 ≡ true) × (bit_at m 1 ≡ true)
  pub counted :
      a.free_inodes
      ≡ clear_count m (a.total_inodes - a.first_allocatable_inode) a.first_allocatable_inode

-- Each result of an allocation: none is left and nothing changes, or the lowest free inode, which
-- is never 0 or the root, is taken.
pub data Allocated (m : List ℕ) (a : InodeAllocator) (result : ℕ × InodeAllocator) : Type 0 where
  full : a.free_inodes ≡ 0 → result ≡ (0, a) → Allocated m a result
  taken :
      (i : ℕ) (a' : InodeAllocator)
      → result ≡ (i, a')
      → IsFirst
          (is_clear m)
          (a.total_inodes - a.first_allocatable_inode)
          a.first_allocatable_inode
          i
      → IsValid (set_bit m i) a'
      → a'.total_inodes ≡ a.total_inodes
      → a'.free_inodes + 1 ≡ a.free_inodes
      → Allocated m a result

pub data Released (m : List ℕ) (a : InodeAllocator) (i : ℕ) (result : Bool × InodeAllocator)
    : Type 0 where
  released :
      (a' : InodeAllocator)
      → result ≡ (true, a')
      → 2 ≤ i
      → i < a.total_inodes
      → bit_at m i ≡ true
      → IsValid (clear_bit m i) a'
      → a'.total_inodes ≡ a.total_inodes
      → a'.free_inodes ≡ a.free_inodes + 1
      → Released m a i result
  refused :
      result ≡ (false, a)
      → ((i < 2) ⊎ ((a.total_inodes ≤ i) ⊎ (bit_at m i ≡ false)))
      → Released m a i result

module _ (m : List ℕ) (a : InodeAllocator) (v : IsValid m a) where
  abbrev search : Option ℕ
  search =
      first_from (is_clear m) (a.total_inodes - a.first_allocatable_inode) a.first_allocatable_inode

  free-lt : a.free_inodes + 1 < 2 ^ 32
  free-lt = omega (
    arith,
    v.counted,
    v.first_is,
    v.root_fits,
    v.fits,
    count_from-le (is_clear m) (a.total_inodes - a.first_allocatable_inode)
        a.first_allocatable_inode,
  )

  search-none : search ≡ none → a.free_inodes ≡ 0
  search-none e = omega (
    arith,
    v.counted,
    count_from_zero (is_clear m) (a.total_inodes - a.first_allocatable_inode)
        a.first_allocatable_inode
        (λ j lo hi.
          first_from-none (is_clear m) (a.total_inodes - a.first_allocatable_inode)
            a.first_allocatable_inode j e lo hi),
  )

  search-some :
      (i : ℕ)
      → search ≡ some i
      → IsFirst
          (is_clear m)
          (a.total_inodes - a.first_allocatable_inode)
          a.first_allocatable_inode
          i
  search-some i =
      first_from-some (is_clear m) (a.total_inodes - a.first_allocatable_inode)
        a.first_allocatable_inode i

  module _ (i : ℕ) (lo : 2 ≤ i) (hi : i < a.total_inodes) where
    inside : i / 8 < length m
    inside = omega (arith, v.covers)

    free-pos : bit_at m i ≡ false → 0 < a.free_inodes
    free-pos clear = omega (
      arith,
      v.counted,
      v.first_is,
      clear_count-set_bit m (a.total_inodes - a.first_allocatable_inode) a.first_allocatable_inode i
          v.bytes inside (omega (arith, v.first_is)) (omega (arith, v.first_is)) clear,
    )

    taken-IsValid :
        bit_at m i ≡ false
        → IsValid
            (set_bit m i)
            (record a { bitmap = some (set_bit m i); free_inodes = a.free_inodes - 1 })
    taken-IsValid clear = record {
      holds = refl;
      bytes = set_bit-IsBytes m i v.bytes inside;
      covers = omega (arith, v.covers, length-set_bit m i);
      first_is = v.first_is;
      root_fits = v.root_fits;
      fits = v.fits;
      reserved = (
        ground (arith, bit_at-set_bit m i v.bytes inside 0, v.reserved),
        ground (arith, bit_at-set_bit m i v.bytes inside 1, v.reserved),
      );
      counted = omega (
        arith,
        v.counted,
        clear_count-set_bit m (a.total_inodes - a.first_allocatable_inode) a.first_allocatable_inode
            i v.bytes inside (omega (arith, v.first_is)) (omega (arith, v.first_is)) clear,
      );
    }

    given-IsValid :
        bit_at m i ≡ true
        → IsValid
            (clear_bit m i)
            (record a { bitmap = some (clear_bit m i); free_inodes = a.free_inodes + 1 })
    given-IsValid used = record {
      holds = refl;
      bytes = clear_bit-IsBytes m i v.bytes inside;
      covers = omega (arith, v.covers, length-clear_bit m i);
      first_is = v.first_is;
      root_fits = v.root_fits;
      fits = v.fits;
      reserved = (
        ground (arith, bit_at-clear_bit m i v.bytes inside 0, v.reserved),
        ground (arith, bit_at-clear_bit m i v.bytes inside 1, v.reserved),
      );
      counted = omega (
        arith,
        v.counted,
        clear_count-clear_bit m (a.total_inodes - a.first_allocatable_inode)
            a.first_allocatable_inode i v.bytes inside (omega (arith, v.first_is))
            (omega (arith, v.first_is)) used,
      );
    }

  -- On a valid inode allocator, `initrafs_inode_alloc` has one of two results: the lowest unmarked
  -- inode from 2 on is returned and marked, the count of free inodes drops by one and the
  -- allocator is valid; or no inode is free, and then 0 is returned and nothing changes.
  pub inode_alloc-Allocated : Allocated m a (inode_alloc_live a)
  unfolding inode_alloc_live inode_is_marked inode_mark_used bit_at set_bit
  inode_alloc-Allocated = elim (Option-cases search) [
    | inl e ↦ full (search-none e) (rw (v.holds, inode_alloc_in, e))
    | inr (i, e) ↦
        let f = search-some i e in
        let lo : 2 ≤ i = omega (arith, f.from_start, v.first_is) in
        let hi : i < a.total_inodes = omega (arith, f.before_end, v.first_is, v.root_fits) in
        let clear : bit_at m i ≡ false = ground (arith, f.passes) in
        let less : sub32 a.free_inodes 1 ≡ a.free_inodes - 1 =
          omega (arith, free-lt, free-pos i lo hi clear) in
        taken i (record a { bitmap = some (set_bit m i); free_inodes = a.free_inodes - 1 })
          (rw (v.holds, inode_alloc_in, e, less)) f (taken-IsValid i lo hi clear) refl
          (omega (arith, free-pos i lo hi clear))
  ]

  -- On a valid inode allocator, `initrafs_inode_free` of any number has one of two results: it was
  -- a marked inode from 2 on, and then it is unmarked, the count of free inodes grows by one and
  -- the allocator is valid; or it is below 2, out of range or not marked, and then the call is
  -- refused and nothing changes.
  pub inode_free-Released : (i : ℕ) → Released m a i (inode_free_live a i)
  unfolding inode_free_live inode_is_marked inode_mark_free bit_at clear_bit
  inode_free-Released i = elim (dec_lt i 2) [
    | yes lo ↦ refused (rw (v.holds, inode_free_in) (ground (arith, v.first_is))) (inl lo)
    | no lo ↦ elim (dec_lt i a.total_inodes) [
      | no hi ↦ refused (rw (v.holds, inode_free_in) (ground arith)) (inr (inl (omega arith)))
      | yes hi ↦ elim (Bool-cases (bit_at m i)) [
        | inr e ↦ refused (rw (v.holds, inode_free_in) (ground arith)) (inr (inr e))
        | inl e ↦
            let more : u32 (a.free_inodes + 1) ≡ a.free_inodes + 1 = omega (arith, free-lt) in
            released (record a { bitmap = some (clear_bit m i); free_inodes = a.free_inodes + 1 })
              (rw (v.holds, inode_free_in) (ground (arith, v.first_is))) (omega arith) hi e
              (given-IsValid i (omega arith) hi e) refl refl
      ]
    ]
  ]
