-- ===== src/Fs/Mapping/Laws.antt =====
-- The direct blocks as a partial map from logical to physical blocks.
use initra_os.Base.{
  ℕ, ◌≤◌, ◌<◌, ◌≡◌, refl, ◌≢◌, ◌↔◌, ◌∙◌, ◌⊎◌, inl, inr, subst, true, Option, none, some, arith,
  ◌==◌, if◌then◌else◌, length, set, length-set, get_or-set_self, get_or-set_ne, replicate,
  get_or-replicate,
}
use initra_os.Fs.Format.{DiskInode, Superblock}
use initra_os.Fs.Integrity.{integrity_update, inode_integrity_verify}
use initra_os.Fs.Integrity.Laws.{
  verify-update, direct_blocks-update, length-reserved-update, identity-update,
}
use initra_os.Fs.Mapping.{map_live, get_live, unmap_live}

-- The arrays have the sizes that the structure declares, and the checksum is right.
pub record IsSound (i : DiskInode) : Type 0 where
  pub blocks : length i.direct_blocks ≡ 8
  pub spare : 4 ≤ length i.reserved
  pub verified : inode_integrity_verify (some i) ≡ true

pub update-IsSound :
    (i : DiskInode)
    → length i.direct_blocks ≡ 8
    → 4 ≤ length i.reserved
    → IsSound (integrity_update i)
update-IsSound i h k = record {
  blocks = rw (direct_blocks-update i) h;
  spare = omega (arith, length-reserved-update i);
  verified = (verify-update i k).0;
}

-- The same inode but for its blocks and its checksum.
abbrev pub SameObject : DiskInode → DiskInode → Type 0
SameObject i j = (j.inode_number ≡ i.inode_number) × (j.type ≡ i.type) × (j.size ≡ i.size)

-- The inode with one direct block changed, sealed again.
abbrev with_block : DiskInode → ℕ → ℕ → DiskInode
with_block i l p = record i { direct_blocks = set i.direct_blocks l p }

get_live-with_block :
    (i : DiskInode) (l p j : ℕ)
    → IsSound i
    → l < 8
    → get_live (integrity_update (with_block i l p)) j
      ≡ (if l == j then (if p == 0 then none else some p) else get_live i j)
unfolding get_live
get_live-with_block i l p j s h = rw (direct_blocks-update (with_block i l p)) (
    ground (
      arith,
      get_or-set_self i.direct_blocks l p 0 (omega (arith, s.blocks)),
      get_or-set_ne i.direct_blocks l j p 0,
    ))

-- Only the direct blocks count.
pub get_live_same :
    (i i' : DiskInode) (j : ℕ) → i'.direct_blocks ≡ i.direct_blocks → get_live i' j ≡ get_live i j
unfolding get_live
get_live_same i i' j e = rw (e) refl

pub get_live_first :
    (i : DiskInode) (p j : ℕ)
    → p ≢ 0
    → i.direct_blocks ≡ set (replicate 8 0) 0 p
    → get_live i j ≡ (if j == 0 then some p else none)
unfolding get_live
get_live_first i p j h e = rw (e) (
    ground (
      arith,
      get_or-set_self (replicate 8 0) 0 p 0 (omega arith),
      get_or-set_ne (replicate 8 0) 0 j p 0,
      get_or-replicate {A = ℕ} 8 j 0,
    ))

pub get_live-blank : (i : DiskInode) (j : ℕ) → i.direct_blocks ≡ replicate 8 0 → get_live i j ≡ none
unfolding get_live
get_live-blank i j e = rw (e) (ground (arith, get_or-replicate {A = ℕ} 8 j 0 0))

sealed-IsSound :
    (i : DiskInode) (l p : ℕ) → IsSound i → IsSound (integrity_update (with_block i l p))
sealed-IsSound i l p s =
    update-IsSound (with_block i l p) (length-set i.direct_blocks l p ∙ s.blocks) s.spare

-- `initrafs_inode_map_block` succeeds exactly for a logical block below 8 that is not mapped and a
-- physical block of the disk behind the root's.
pub map_live_iff :
    (i : DiskInode) (sb : Superblock) (l p : ℕ)
    → (map_live i sb l p ≢ none)
      ↔ ((l < 8) × (get_live i l ≡ none) × (sb.data_start < p) × (p < sb.total_blocks))
unfolding map_live get_live
map_live_iff i sb l p = (λ h. ground arith, λ h e. ground arith)

map_live-accepted :
    (i i' : DiskInode) (sb : Superblock) (l p : ℕ)
    → map_live i sb l p ≡ some i'
    → (l < 8) × (0 < p) × (integrity_update (with_block i l p) ≡ i')
unfolding map_live
map_live-accepted i i' sb l p e = ground arith

-- What holds of the inode that the changed block leaves.
abbrev pub Changed : DiskInode → DiskInode → ℕ → Option ℕ → Type 0
Changed i i' l b =
    IsSound i' × SameObject i i' × ((j : ℕ) → get_live i' j ≡ (if l == j then b else get_live i j))

with_block-Changed :
    (i : DiskInode) (l p : ℕ)
    → IsSound i
    → l < 8
    → Changed i (integrity_update (with_block i l p)) l (if p == 0 then none else some p)
with_block-Changed i l p s h = (
  sealed-IsSound i l p s,
  identity-update (with_block i l p),
  λ j. get_live-with_block i l p j s h,
)

-- On a sound inode, a successful `initrafs_inode_map_block` leaves a sound inode of the same
-- number, type and size, whose logical block is mapped to the physical one, and every other
-- logical block as before.
pub map_live_lem :
    (i i' : DiskInode) (sb : Superblock) (l p : ℕ)
    → IsSound i
    → map_live i sb l p ≡ some i'
    → Changed i i' l (some p)
map_live_lem i i' sb l p s e =
    let (h, k, q) = map_live-accepted i i' sb l p e in
    subst (λ d. Changed i d l (some p)) q
      (subst (λ b. Changed i (integrity_update (with_block i l p)) l b) (ground arith)
        (with_block-Changed i l p s h))

unmap_live-cases :
    (i : DiskInode) (l : ℕ)
    → ((get_live i l ≡ none) × (unmap_live i l ≡ none))
      ⊎ ((l < 8) × (unmap_live i l ≡ some (integrity_update (with_block i l 0))))
unfolding unmap_live get_live
unmap_live-cases i l = ground arith

-- On a sound inode, `initrafs_inode_unmap_block` fails where the logical block is not mapped; else
-- it leaves a sound inode of the same number, type and size without that mapping, and every other
-- logical block as before.
pub unmap_live_lem :
    (i : DiskInode) (l : ℕ)
    → IsSound i
    → ((get_live i l ≡ none) × (unmap_live i l ≡ none))
      ⊎ ((i' : DiskInode) × (unmap_live i l ≡ some i') × Changed i i' l none)
unmap_live_lem i l s = elim (unmap_live-cases i l) [
  | inl h ↦ inl h
  | inr h ↦ inr (integrity_update (with_block i l 0), h.1, with_block-Changed i l 0 s h.0)
]
