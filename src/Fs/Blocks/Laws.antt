-- ===== src/Fs/Blocks/Laws.antt =====
-- What `initrafs_block_alloc` and `initrafs_block_free` promise on a valid allocator.
use native.Mathlib.Decide.{dec_lt}
use initra_os.Base.{
  ℕ, ◌+◌, ◌-◌, ◌/◌, ◌^◌, ◌≤◌, ◌<◌, ◌≡◌, ◌≢◌, ◌⊎◌, inl, inr, refl, Bool, true, false, sub32, u32,
  Option, none, some, List, arith, length, IsFirst, first_from, first_from-some, first_from-none,
  count_from_drop, count_from_zero, count_from-le, Option-cases, Bool-cases,
}
use initra_os.Fs.Blocks.{
  BlockAllocator, is_marked, mark_used, mark_free, set_free_blocks, alloc_in, alloc_live, free_in,
  free_live,
}
use initra_os.Fs.Blocks.Inv.{
  IsValid, is_free, is_marked-mark_used, is_marked-mark_free, mark_used-IsBytes, mark_free-IsBytes,
  length-mark_used, length-mark_free,
}

abbrev search : List ℕ → BlockAllocator → Option ℕ
search m a = first_from (is_free m) (a.total_blocks - a.first_data_block) a.first_data_block

module _ (m : List ℕ) (a : BlockAllocator) (v : IsValid m a) where
  free-lt : a.free_blocks + 1 < 2 ^ 32
  free-lt = omega (
    arith,
    v.counted,
    v.fits,
    v.starts,
    v.nonempty,
    count_from-le (is_free m) (a.total_blocks - a.first_data_block) a.first_data_block,
  )

  -- Taking a free data block, or giving back a used one other than the root's, keeps the invariant.
  taken-IsValid :
      (b : ℕ)
      → a.first_data_block ≤ b
      → b < a.total_blocks
      → is_marked m b ≡ false
      → IsValid
          (mark_used m b)
          (set_free_blocks (record a { bitmap = some (mark_used m b) }) (a.free_blocks - 1))
  unfolding set_free_blocks
  taken-IsValid b lo hi clear =
      let inside : b / 8 < length m = omega (arith, v.covers) in
      let after = is_marked-mark_used m b v.bytes inside in
      let count =
        count_from_drop (is_free m) (is_free (mark_used m b)) (a.total_blocks - a.first_data_block)
          a.first_data_block b lo (omega arith) (ground arith) (λ j _ _. ground (arith, after j)) in
      record {
        holds = refl;
        bytes = mark_used-IsBytes m b v.bytes inside;
        covers = omega (arith, v.covers, length-mark_used m b);
        starts = v.starts;
        nonempty = v.nonempty;
        fits = v.fits;
        root_taken = ground (arith, after a.first_data_block, v.root_taken);
        counted = omega (arith, v.counted, count);
        layout = v.layout;
        synced = refl;
      }

  given-IsValid :
      (b : ℕ)
      → a.first_data_block < b
      → b < a.total_blocks
      → is_marked m b ≡ true
      → IsValid
          (mark_free m b)
          (set_free_blocks (record a { bitmap = some (mark_free m b) }) (a.free_blocks + 1))
  unfolding set_free_blocks
  given-IsValid b lo hi used =
      let inside : b / 8 < length m = omega (arith, v.covers) in
      let after = is_marked-mark_free m b v.bytes inside in
      let count =
        count_from_drop (is_free (mark_free m b)) (is_free m) (a.total_blocks - a.first_data_block)
          a.first_data_block b (omega arith) (omega arith) (ground (arith, after b))
          (λ j _ _. ground (arith, after j)) in
      record {
        holds = refl;
        bytes = mark_free-IsBytes m b v.bytes inside;
        covers = omega (arith, v.covers, length-mark_free m b);
        starts = v.starts;
        nonempty = v.nonempty;
        fits = v.fits;
        root_taken = ground (arith, after a.first_data_block, v.root_taken);
        counted = omega (arith, v.counted, count);
        layout = v.layout;
        synced = refl;
      }

  search-none : search m a ≡ none → a.free_blocks ≡ 0
  search-none e = omega (
    arith,
    v.counted,
    count_from_zero (is_free m) (a.total_blocks - a.first_data_block) a.first_data_block (λ j lo hi.
        first_from-none (is_free m) (a.total_blocks - a.first_data_block) a.first_data_block j e lo
          hi),
  )

  search-some :
      (b : ℕ)
      → search m a ≡ some b
      → IsFirst (is_free m) (a.total_blocks - a.first_data_block) a.first_data_block b
  search-some b =
      first_from-some (is_free m) (a.total_blocks - a.first_data_block) a.first_data_block b

  free-pos :
      (b : ℕ)
      → a.first_data_block ≤ b
      → b < a.total_blocks
      → is_marked m b ≡ false
      → 0 < a.free_blocks
  free-pos b lo hi clear = omega (
    arith,
    v.counted,
    count_from_drop (is_free m) (is_free (mark_used m b)) (a.total_blocks - a.first_data_block)
        a.first_data_block b lo (omega arith) (ground arith)
        (λ j _ _. ground (arith, is_marked-mark_used m b v.bytes (omega (arith, v.covers)) j)),
  )

-- The two results of an allocation: the disk is full and nothing changes, or the lowest free data
-- block is taken, which is never the root's, and one fewer is free.
pub data Allocated (m : List ℕ) (a : BlockAllocator) (result : ℕ × BlockAllocator) : Type 0 where
  full : a.free_blocks ≡ 0 → result ≡ (0, a) → Allocated m a result
  taken :
      (b : ℕ) (a' : BlockAllocator)
      → result ≡ (b, a')
      → IsFirst (is_free m) (a.total_blocks - a.first_data_block) a.first_data_block b
      → b ≢ a.first_data_block
      → IsValid (mark_used m b) a'
      → (a'.total_blocks ≡ a.total_blocks) × (a'.first_data_block ≡ a.first_data_block)
      → a'.free_blocks + 1 ≡ a.free_blocks
      → Allocated m a result

-- The two results of giving a block back: it was a used data block other than the root's, which is
-- now free, or the call is refused and nothing changes.
pub data Released (m : List ℕ) (a : BlockAllocator) (b : ℕ) (result : Bool × BlockAllocator)
    : Type 0 where
  released :
      (a' : BlockAllocator)
      → result ≡ (true, a')
      → a.first_data_block < b
      → b < a.total_blocks
      → is_marked m b ≡ true
      → IsValid (mark_free m b) a'
      → (a'.total_blocks ≡ a.total_blocks) × (a'.first_data_block ≡ a.first_data_block)
      → a'.free_blocks ≡ a.free_blocks + 1
      → Released m a b result
  refused :
      result ≡ (false, a)
      → ((b ≤ a.first_data_block) ⊎ ((a.total_blocks ≤ b) ⊎ (is_marked m b ≡ false)))
      → Released m a b result

module _ (m : List ℕ) (a : BlockAllocator) (v : IsValid m a) where
  -- On a valid allocator, `initrafs_block_alloc` has one of two results: the lowest unmarked data
  -- block, never the root's, is returned and marked, the count of free blocks drops by one and the
  -- allocator is valid; or no block is free, and then 0 is returned and nothing changes.
  pub alloc_live-Allocated : Allocated m a (alloc_live a)
  unfolding alloc_live
  alloc_live-Allocated = elim (Option-cases (search m a)) [
    | inl e ↦ full (search-none m a v e) (rw (v.holds, alloc_in, e))
    | inr (b, e) ↦
        let f = search-some m a v b e in
        let hi : b < a.total_blocks = omega (arith, f.before_end, v.nonempty) in
        let clear : is_marked m b ≡ false = ground (arith, f.passes) in
        let pos = free-pos m a v b f.from_start hi clear in
        let less : sub32 a.free_blocks 1 ≡ a.free_blocks - 1 = omega (arith, free-lt m a v) in
        taken b (set_free_blocks (record a { bitmap = some (mark_used m b) }) (a.free_blocks - 1))
          (rw (v.holds, alloc_in, e, less)) f (ground (arith, v.root_taken))
          (taken-IsValid m a v b f.from_start hi clear) (unfold set_free_blocks in (refl, refl))
          (unfold set_free_blocks in omega arith)
  ]

  -- On a valid allocator, `initrafs_block_free` of any block number has one of two results: the
  -- block was a marked data block other than the root's, and then it is unmarked, the count of
  -- free blocks grows by one and the allocator is valid; or the block is outside the data blocks,
  -- the root's or not marked, and then the call is refused and nothing changes.
  pub free_live-Released : (b : ℕ) → Released m a b (free_live a b)
  unfolding free_live
  free_live-Released b = elim (dec_lt a.first_data_block b) [
    | no lo ↦ refused (rw (v.holds, free_in) (ground arith)) (inl (omega arith))
    | yes lo ↦ elim (dec_lt b a.total_blocks) [
      | no hi ↦ refused (rw (v.holds, free_in) (ground arith)) (inr (inl (omega arith)))
      | yes hi ↦ elim (Bool-cases (is_marked m b)) [
        | inr e ↦ refused (rw (v.holds, free_in) (ground arith)) (inr (inr e))
        | inl e ↦
            let more : u32 (a.free_blocks + 1) ≡ a.free_blocks + 1 = omega (arith, free-lt m a v) in
            released
              (set_free_blocks (record a { bitmap = some (mark_free m b) }) (a.free_blocks + 1))
              (rw (v.holds, free_in) (ground arith)) lo hi e (given-IsValid m a v b lo hi e)
              (unfold set_free_blocks in (refl, refl)) (unfold set_free_blocks in refl)
      ]
    ]
  ]
