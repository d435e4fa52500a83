-- ===== src/Fs/File/Content.antt =====
-- The bytes of a file, as its inode's blocks hold them on the device.
use initra_os.Base.{
  false, ℕ, ◌/◌, ◌%◌, ◌<◌, ◌≡◌, refl, Option, none, some, List, arith, leb, get_or, if◌then◌else◌,
  Option-cases, inl, inr,
}
use initra_os.Fs.Format.{DiskInode}
use initra_os.Fs.Mapping.{get_live}

module _ (block_count : ℕ) (read : ℕ → Option (List ℕ)) where
  -- The bytes of a file's logical block, if it is mapped and the device reads it.
  unfoldable pub block_at : DiskInode → ℕ → Option (List ℕ)
  block_at i l = elim (get_live i l) [
    | none ↦ none
    | some b ↦ if leb block_count b then none else read b
  ]

  -- The byte of a file at a position.
  unfoldable pub content : DiskInode → ℕ → Option ℕ
  unfolding block_at
  content i p = elim (block_at i (p / 512)) [
    | none ↦ none
    | some block ↦ some (get_or block (p % 512) 0)
  ]

  pub content_live :
      (i : DiskInode) (p b : ℕ) (block : List ℕ)
      → get_live i (p / 512) ≡ some b
      → b < block_count
      → read b ≡ some block
      → content i p ≡ some (get_or block (p % 512) 0)
  unfolding content block_at
  content_live i p b block e h q =
      let inside : leb block_count b ≡ false = ground arith in
      rw (content, block_at, e, inside, q) refl

-- The content depends on the mapping and on what the mapped block reads.
pub content_same :
    (block_count : ℕ) (read read' : ℕ → Option (List ℕ)) (i i' : DiskInode) (p : ℕ)
    → get_live i' (p / 512) ≡ get_live i (p / 512)
    → ((b : ℕ) → get_live i (p / 512) ≡ some b → read' b ≡ read b)
    → content block_count read' i' p ≡ content block_count read i p
unfolding content block_at
content_same block_count read read' i i' p e h = elim (Option-cases (get_live i (p / 512))) [
  | inl f ↦ rw (content, block_at, e, f) refl
  | inr (b, f) ↦ rw (content, block_at, e, f, h b f) refl
]

-- No byte of a block that is not mapped is there.
pub content_unmapped :
    (block_count : ℕ) (read : ℕ → Option (List ℕ)) (i : DiskInode) (p : ℕ)
    → get_live i (p / 512) ≡ none
    → content block_count read i p ≡ none
unfolding content block_at
content_unmapped block_count read i p e = rw (content, block_at, e) refl
