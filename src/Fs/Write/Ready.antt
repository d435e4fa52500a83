-- ===== src/Fs/Write/Ready.antt =====
-- What the first phase of `initrafs_file_write` prepares for the second, and the end of the call.
use initra_os.Base.{
  ℕ, ◌+◌, ◌<◌, ◌≡◌, ◌⊎◌, ◌∙◌, inl, inr, sym, ap, refl, true, false, none, some, List, [], ◌∷◌, All,
  arith, ltb, ◌==◌, if◌then◌else◌, Bool-cases,
}
use initra_os.Fs.Format.{DiskInode, FsInode}
use initra_os.Fs.Integrity.{integrity_update}
use initra_os.Fs.Integrity.Laws.{direct_blocks-update, identity-update}
use initra_os.Fs.Blocks.{BlockAllocator, is_marked}
use initra_os.Fs.Blocks.Inv.{IsValid}
use initra_os.Fs.Mapping.{get_live}
use initra_os.Fs.Mapping.Laws.{IsSound, SameObject, update-IsSound, get_live_same}
use initra_os.Fs.File.Rollback.{Owned, Acquired-Undone}
use initra_os.Fs.Device.{Device}
use initra_os.Fs.Write.{is_new}
use initra_os.Fs.Write.Cases.{IsReady, grown}

is_new-All :
    (i : DiskInode) (news : List (ℕ × ℕ)) (l : ℕ)
    → All (λ pair. get_live i pair.0 ≡ none) news
    → is_new news l ≡ true
    → get_live i l ≡ none
unfolding is_new
is_new-All i [] l h e = absurd (ground arith)
is_new-All i (pair ∷ pairs) l h e = elim (Bool-cases (pair.0 == l)) [
  | inl here ↦ ap (get_live i) (ground arith) ∙ h.0
  | inr there ↦ is_new-All i pairs l h.1 (ground arith)
]

module _ (device : Device) (inode : FsInode) (i : DiskInode) (m : List ℕ) (a : BlockAllocator)
    (d : device.State) (offset : ℕ) (buffer : List ℕ) (size : ℕ) (s : IsSound i)
    (v : IsValid m a) where
  -- The inode at the end: that of the first phase, with the size of the grown file.
  pub record Ended (i' : DiskInode) (a' : BlockAllocator) (news : List (ℕ × ℕ)) (g : DiskInode)
      : Type 0 where
    pub sound : IsSound g
    pub mapped : (l : ℕ) → get_live g l ≡ get_live i' l
    pub number : g.inode_number ≡ i.inode_number
    pub type : g.type ≡ i.type
    pub length : g.size ≡ (if ltb i.size (offset + size) then offset + size else i.size)
    pub bitmap : List ℕ
    pub valid : IsValid bitmap a'
    pub owned : Owned (get_live i) (is_marked m) → Owned (get_live g) (is_marked bitmap)
    pub not_new : (l b : ℕ) → get_live i l ≡ some b → is_new news l ≡ false
    pub origin :
        (l b : ℕ)
        → get_live i' l ≡ some b
        → (get_live i l ≡ some b) ⊎ ((is_marked m b ≡ false) × (b < a.total_blocks))

  grown_cases :
      (i' : DiskInode)
      → IsSound i'
      → SameObject i i'
      → let g = grown device inode i m a d offset buffer size i' in
        IsSound g
        × ((l : ℕ) → get_live g l ≡ get_live i' l)
        × (g.inode_number ≡ i.inode_number)
        × (g.type ≡ i.type)
        × (g.size ≡ (if ltb i.size (offset + size) then offset + size else i.size))
  grown_cases i' sound same = elim (Bool-cases (ltb i.size (offset + size))) [
    | inr e ↦ rw (e) (sound, λ l. refl, same.0, same.1, same.2)
    | inl e ↦
        let j : DiskInode = record i' { size = offset + size } in
        rw (e) (
          update-IsSound j sound.blocks sound.spare,
          λ l. get_live_same i' (integrity_update j) l (direct_blocks-update j),
          (identity-update j).0 ∙ same.0,
          (identity-update j).1 ∙ same.1,
          (identity-update j).2,
        )
  ]

  pub IsReady-Ended :
      (i' : DiskInode) (a' : BlockAllocator) (news : List (ℕ × ℕ))
      → IsReady device inode i m a d offset buffer size i' a' news
      → Ended i' a' news (grown device inode i m a d offset buffer size i')
  IsReady-Ended i' a' news ready =
      let u = Acquired-Undone i m a s v news i' a' ready.acquired in
      let g = grown_cases i' u.now.sound u.same in
      record {
        sound = g.0;
        mapped = g.1;
        number = g.2;
        type = g.3;
        length = g.4;
        bitmap = u.now.bitmap;
        valid = u.now.valid;
        owned = λ o.
            let o' = u.owned o in
            record {
              used =
                  λ l b e. u.now.marked b ∙ o'.used l b (sym (u.now.mapped l) ∙ (sym (g.1 l) ∙ e));
              apart = λ l k b e f.
                  o'.apart l k b (sym (u.now.mapped l) ∙ (sym (g.1 l) ∙ e))
                    (sym (u.now.mapped k) ∙ (sym (g.1 k) ∙ f));
            };
        not_new = λ l b e. elim (Bool-cases (is_new news l)) [
          | inl fresh ↦ absurd (ground (arith, is_new-All i news l u.news fresh))
          | inr old ↦ old
        ];
        origin = λ l b e. u.origin l b (sym (u.now.mapped l) ∙ e);
      }
