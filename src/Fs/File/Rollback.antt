-- ===== src/Fs/File/Rollback.antt =====
-- `initrafs_file_rollback_blocks` after new blocks have been taken and mapped.
use initra_os.Base.{
  ℕ, ◌+◌, ◌<◌, ◌≡◌, ◌≢◌, ◌∙◌, inl, inr, sym, ap, ap₂, subst, refl, Bool, true, false, Option, none,
  some, List, [], ◌∷◌, arith, ◌==◌, if◌then◌else◌, All, Option-cases, Bool-cases, ◌⊎◌,
}
use initra_os.Fs.Format.{DiskInode}
use initra_os.Fs.Blocks.{BlockAllocator, is_marked, mark_used, mark_free, alloc_live, free_live}
use initra_os.Fs.Blocks.Inv.{IsValid, is_marked-mark_used, is_marked-mark_free}
use initra_os.Fs.Blocks.Laws.{
  Allocated, full, taken, Released, released, refused, alloc_live-Allocated, free_live-Released,
}
use initra_os.Fs.Mapping.{get_live, map_live, unmap_live}
use initra_os.Fs.Mapping.Laws.{IsSound, SameObject, map_live_iff, map_live_lem, unmap_live_lem}
use initra_os.Fs.File.{rollback_blocks}

-- A sound inode and a valid allocator with the given block map and the given marks.
pub record Like (blocks : ℕ → Option ℕ) (marks : ℕ → Bool) (total first free : ℕ) (i : DiskInode)
    (a : BlockAllocator) : Type 0 where
  pub sound : IsSound i
  pub mapped : (l : ℕ) → get_live i l ≡ blocks l
  pub bitmap : List ℕ
  pub valid : IsValid bitmap a
  pub marked : (b : ℕ) → is_marked bitmap b ≡ marks b
  pub size : (a.total_blocks ≡ total) × (a.first_data_block ≡ first)
  pub count : a.free_blocks ≡ free

-- The map and the marks with one more block.
abbrev with_map : (ℕ → Option ℕ) → ℕ → ℕ → ℕ → Option ℕ
with_map blocks l b j = if l == j then some b else blocks j

abbrev with_mark : (ℕ → Bool) → ℕ → ℕ → Bool
with_mark marks b j = if b == j then true else marks j

module _ (blocks : ℕ → Option ℕ) (marks : ℕ → Bool) (total first free l b : ℕ)
    (fresh : blocks l ≡ none) (clear : marks b ≡ false)
    (data_block : (first < b) × (b < total)) where
  unmapped : DiskInode → DiskInode
  unmapped i = elim (unmap_live i l) [ none ↦ i | some i' ↦ i' ]

  undo_map :
      (i : DiskInode)
      → IsSound i
      → ((j : ℕ) → get_live i j ≡ with_map blocks l b j)
      → IsSound (unmapped i) × ((j : ℕ) → get_live (unmapped i) j ≡ blocks j)
  unfolding unmapped
  undo_map i s same = elim (unmap_live_lem i l s) [
    | inl absent ↦ absurd (ground (arith, absent.0, same l))
    | inr (i', e, changed) ↦
        let q : unmapped i ≡ i' = rw (unmapped, e) refl in
        subst (λ x. IsSound x × ((j : ℕ) → get_live x j ≡ blocks j)) (sym q)
          (changed.0, λ j. changed.2 j ∙ ground (arith, same j, fresh, ap blocks))
  ]

  -- What a release needs to know of the allocator.
  Released-Like :
      (i : DiskInode) (m : List ℕ) (a : BlockAllocator) {r : Bool × BlockAllocator}
      → IsSound (unmapped i) × ((j : ℕ) → get_live (unmapped i) j ≡ blocks j)
      → IsValid m a
      → ((j : ℕ) → is_marked m j ≡ with_mark marks b j)
      → (a.total_blocks ≡ total) × (a.first_data_block ≡ first)
      → a.free_blocks + 1 ≡ free
      → Released m a b r
      → Like blocks marks total first free (unmapped i) r.1
  Released-Like i m a undone v marked size count (refused q why) =
      absurd (ground (arith, why, marked b, data_block, size))
  Released-Like i m a undone v marked size count (released a' q lo hi used v' same more) =
      subst (λ x. Like blocks marks total first free (unmapped i) x) (sym (ap (λ p. p.1) q))
        (record {
          sound = undone.0;
          mapped = undone.1;
          bitmap = mark_free m b;
          valid = v';
          marked = λ j.
              is_marked-mark_free m b v.bytes (omega (arith, v.covers)) j
              ∙ ground (arith, marked j, clear, ap marks);
          size = (same.0 ∙ size.0, same.1 ∙ size.1);
          count = omega arith;
        })

  undo-Like :
      (i : DiskInode) (a : BlockAllocator) (free' : ℕ)
      → free' + 1 ≡ free
      → Like (with_map blocks l b) (with_mark marks b) total first free' i a
      → Like blocks marks total first free (unmapped i) (free_live a b).1
  undo-Like i a free' less k =
      Released-Like i k.bitmap a (undo_map i k.sound k.mapped) k.valid k.marked k.size
        (omega (arith, k.count)) (free_live-Released k.bitmap a k.valid b)

-- Every mapped block is marked, and no two logical blocks share one.
pub record Owned (blocks : ℕ → Option ℕ) (marks : ℕ → Bool) : Type 0 where
  pub used : (l b : ℕ) → blocks l ≡ some b → marks b ≡ true
  pub apart : (l k b : ℕ) → blocks l ≡ some b → blocks k ≡ some b → l ≡ k

with-Owned :
    (blocks : ℕ → Option ℕ) (marks : ℕ → Bool) (l b : ℕ)
    → blocks l ≡ none
    → marks b ≡ false
    → Owned blocks marks
    → Owned (with_map blocks l b) (with_mark marks b)
with-Owned blocks marks l b fresh clear o = record {
  used = λ j c e. ground (arith, o.used j c, e);
  apart = λ j k c e f. ground (arith, o.apart j k c, o.used j c, o.used k c, e, f, clear, ap marks);
}

pub SameObject-trans : (i j k : DiskInode) → SameObject i j → SameObject j k → SameObject i k
SameObject-trans i j k p q = (q.0 ∙ p.0, q.1 ∙ p.1, q.2 ∙ p.2)

module _ (i₀ : DiskInode) (a₀ : BlockAllocator) where
  -- What taking and mapping the blocks of a list, the last first, makes of an inode and an allocator.
  pub data Acquired : List (ℕ × ℕ) → DiskInode → BlockAllocator → Type 0 where
    nothing : Acquired [] i₀ a₀
    another :
        {pairs : List (ℕ × ℕ)} {i i' : DiskInode} {a a' : BlockAllocator} (l b : ℕ)
        → Acquired pairs i a
        → alloc_live a ≡ (b, a')
        → b ≢ 0
        → map_live i a'.superblock l b ≡ some i'
        → Acquired ((l, b) ∷ pairs) i' a'

-- Taking and mapping one more block.
module _ (blocks : ℕ → Option ℕ) (marks : ℕ → Bool) (total first free : ℕ) where
  record OneMore (l b : ℕ) (i : DiskInode) (a : BlockAllocator) : Type 0 where
    fresh : blocks l ≡ none
    clear : marks b ≡ false
    data_block : (first < b) × (b < total)
    left : ℕ
    less : left + 1 ≡ free
    after : Like (with_map blocks l b) (with_mark marks b) total first left i a

  mapped-OneMore :
      (i i' : DiskInode) (a a' : BlockAllocator) (l b : ℕ)
      → (k : Like blocks marks total first free i a) → map_live i a'.superblock l b ≡ some i'
      → (a.first_data_block < b) × (b < a.total_blocks) × (is_marked k.bitmap b ≡ false)
      → IsValid (mark_used k.bitmap b) a'
      → (a'.total_blocks ≡ a.total_blocks) × (a'.first_data_block ≡ a.first_data_block)
      → a'.free_blocks + 1 ≡ a.free_blocks
      → OneMore l b i' a'
  mapped-OneMore i i' a a' l b k e place v' same less =
      let accepted = (map_live_iff i a'.superblock l b).0 (λ n. ground (arith, n, e)) in
      let changed = map_live_lem i i' a'.superblock l b k.sound e in
      record {
        fresh = sym (k.mapped l) ∙ accepted.1;
        clear = sym (k.marked b) ∙ place.2;
        data_block = omega (arith, place, k.size);
        left = a'.free_blocks;
        less = less ∙ k.count;
        after = record {
          sound = changed.0;
          mapped = λ j. changed.2 j ∙ ground (arith, k.mapped j);
          bitmap = mark_used k.bitmap b;
          valid = v';
          marked = λ j.
              is_marked-mark_used k.bitmap b k.valid.bytes (omega (arith, k.valid.covers, place)) j
              ∙ ground (arith, k.marked j);
          size = (same.0 ∙ k.size.0, same.1 ∙ k.size.1);
          count = refl;
        };
      }

  taken-OneMore :
      (i i' : DiskInode) (a a' : BlockAllocator) (l b : ℕ) {r : ℕ × BlockAllocator}
      → (k : Like blocks marks total first free i a) → r ≡ (b, a')
      → b ≢ 0
      → map_live i a'.superblock l b ≡ some i'
      → Allocated k.bitmap a r
      → OneMore l b i' a'
  taken-OneMore i i' a a' l b k e live mapped (full z q) = absurd (live (ap (λ p. p.0) (sym e ∙ q)))
  taken-OneMore i i' a a' l b k e live mapped (taken b₁ a₁ q found root v' same less) =
      let eb : b₁ ≡ b = ap (λ p. p.0) (sym q ∙ e) in
      let ea : a₁ ≡ a' = ap (λ p. p.1) (sym q ∙ e) in
      let place : (a.first_data_block < b₁)
          × (b₁ < a.total_blocks)
          × (is_marked k.bitmap b₁ ≡ false) =
        (
          omega (arith, found.from_start, root),
          omega (arith, found.before_end, k.valid.nonempty),
          ground (arith, found.passes),
        ) in
      subst (λ x. OneMore l x i' a') eb
        (subst (λ x. OneMore l b₁ i' x) ea
          (mapped-OneMore i i' a a₁ l b₁ k (ap₂ (λ x y. map_live i x.superblock l y) ea eb ∙ mapped)
            place v' same less))

module _ (i₀ : DiskInode) (m₀ : List ℕ) (a₀ : BlockAllocator) (s : IsSound i₀)
    (v : IsValid m₀ a₀) where
  -- An inode and an allocator with the block map and the marks from the start.
  abbrev pub AsBefore : DiskInode × BlockAllocator → Type 0
  AsBefore r =
      Like (get_live i₀) (is_marked m₀) a₀.total_blocks a₀.first_data_block a₀.free_blocks r.0 r.1

  fresh_before :
      (blocks : ℕ → Option ℕ) (l : ℕ)
      → ((j b : ℕ) → get_live i₀ j ≡ some b → blocks j ≡ some b)
      → blocks l ≡ none
      → get_live i₀ l ≡ none
  fresh_before blocks l kept fresh = elim (Option-cases (get_live i₀ l)) [
    | inl e ↦ e
    | inr (b, e) ↦ absurd (ground (arith, kept l b e))
  ]

  pub AsBefore-refl : AsBefore (i₀, a₀)
  AsBefore-refl = record {
    sound = s;
    mapped = λ l. refl;
    bitmap = m₀;
    valid = v;
    marked = λ b. refl;
    size = (refl, refl);
    count = refl;
  }

  -- Of a list of blocks that were taken: the map and the marks that it leads to, from which every
  -- inode and allocator alike is rolled back to the start.
  pub record Undone (pairs : List (ℕ × ℕ)) (i : DiskInode) (a : BlockAllocator) : Type 0 where
    pub blocks : ℕ → Option ℕ
    pub marks : ℕ → Bool
    pub free : ℕ
    pub now : Like blocks marks a₀.total_blocks a₀.first_data_block free i a
    pub back :
        (j : DiskInode) (c : BlockAllocator)
        → Like blocks marks a₀.total_blocks a₀.first_data_block free j c
        → AsBefore (rollback_blocks j c pairs)
    pub same : SameObject i₀ i
    pub news : All (λ pair. get_live i₀ pair.0 ≡ none) pairs
    pub kept : (l b : ℕ) → get_live i₀ l ≡ some b → blocks l ≡ some b
    pub owned : Owned (get_live i₀) (is_marked m₀) → Owned blocks marks
    pub still : (b : ℕ) → is_marked m₀ b ≡ true → marks b ≡ true
    pub origin :
        (l b : ℕ)
        → blocks l ≡ some b
        → (get_live i₀ l ≡ some b) ⊎ ((is_marked m₀ b ≡ false) × (b < a₀.total_blocks))

  pub Acquired-Undone :
      (pairs : List (ℕ × ℕ)) (i : DiskInode) (a : BlockAllocator)
      → Acquired i₀ a₀ pairs i a
      → Undone pairs i a
  unfolding rollback_blocks unmapped
  Acquired-Undone _ _ _ nothing = record {
    blocks = get_live i₀;
    marks = is_marked m₀;
    free = a₀.free_blocks;
    now = AsBefore-refl;
    back = λ j c k. k;
    same = (refl, refl, refl);
    news = tt;
    kept = λ l b e. e;
    owned = λ o. o;
    still = λ b e. e;
    origin = λ l b e. inl e;
  }
  Acquired-Undone _ i' a' (another {pairs = pairs} {i = i} {a = a} l b before e live mapped) =
      let u = Acquired-Undone pairs i a before in
      let more = map_live_lem i i' a'.superblock l b u.now.sound mapped in
      let t =
        taken-OneMore u.blocks u.marks a₀.total_blocks a₀.first_data_block u.free i i' a a' l b
          u.now e live mapped (alloc_live-Allocated u.now.bitmap a u.now.valid) in
      record {
        blocks = with_map u.blocks l b;
        marks = with_mark u.marks b;
        free = t.left;
        now = t.after;
        back = λ j c k. u.back _ _ (
            undo-Like u.blocks u.marks a₀.total_blocks a₀.first_data_block u.free l b t.fresh
              t.clear t.data_block j c t.left t.less k);
        same = SameObject-trans i₀ i i' u.same more.1;
        news = (fresh_before u.blocks l u.kept t.fresh, u.news);
        kept = λ j c e. ground (arith, u.kept j c e, t.fresh, ap u.blocks);
        owned = λ o. with-Owned u.blocks u.marks l b t.fresh t.clear (u.owned o);
        still = λ c e. ground (arith, u.still c e);
        origin = λ j c e.
            ground (
              arith,
              u.origin j c,
              u.still c,
              t.clear,
              t.data_block,
              e,
              Bool-cases (is_marked m₀ c),
            );
      }

  -- On a sound inode and a valid block allocator, after any number of blocks have been taken with
  -- `initrafs_block_alloc` and mapped with `initrafs_inode_map_block`,
  -- `initrafs_file_rollback_blocks` of their list leaves a sound inode and a valid allocator with
  -- the block map, the marks, the range of data blocks and the count of free blocks from before.
  pub rollback_blocks-AsBefore :
      (pairs : List (ℕ × ℕ)) (i : DiskInode) (a : BlockAllocator)
      → Acquired i₀ a₀ pairs i a
      → AsBefore (rollback_blocks i a pairs)
  rollback_blocks-AsBefore pairs i a taken_so =
      let u = Acquired-Undone pairs i a taken_so in u.back i a u.now

-- The rollback leaves an inode of the same number, type and size.
pub rollback_blocks-SameObject :
    (pairs : List (ℕ × ℕ)) (i : DiskInode) (a : BlockAllocator)
    → IsSound i
    → SameObject i (rollback_blocks i a pairs).0
unfolding rollback_blocks
rollback_blocks-SameObject [] i a s = (refl, refl, refl)
rollback_blocks-SameObject (pair ∷ pairs) i a s = elim (unmap_live_lem i pair.0 s) [
  | inl absent ↦
      subst After (sym absent.1) (rollback_blocks-SameObject pairs i (free_live a pair.1).1 s)
  | inr (i', e, changed) ↦ subst After (sym e) (
      SameObject-trans i i' (rollback_blocks i' (free_live a pair.1).1 pairs).0 changed.1
        (rollback_blocks-SameObject pairs i' (free_live a pair.1).1 changed.0))
]
  where
    After : Option DiskInode → Type 0
    After o =
        SameObject i
          (rollback_blocks (elim o [ none ↦ i | some x ↦ x ]) (free_live a pair.1).1 pairs).0
