-- ===== src/Vfs/Reopen.antt =====
-- Closing a file that was just opened.
use initra_os.Base.{
  ℕ, ◌<◌, ◌≡◌, ◌∙◌, sym, ap, subst, true, Option, none, some, List, arith, set, set-set,
  get_or-set_self, is_some, ltb,
}
use initra_os.Vfs.{Vfs, Filesystem, File, closed_file, file_is_open, vfs_open, vfs_close}
use initra_os.Vfs.Files.{file_at, set-file_at}
use initra_os.Vfs.Inv.{IsValid}
use initra_os.Vfs.Calls.{not_found, no_slot, in_slot, opened, vfs_open-Opened}

module _ (World : Type 0) (table : ℕ → Filesystem World) (s : Vfs World)
    (v : IsValid World table s) where
  close_opened :
      (slot inode flags private : ℕ) (world : World)
      → slot < 32
      → (file_at s.files slot).inode ≡ none
      → vfs_close World table (some slot) (opened World table s v slot inode flags private world)
        ≡ (true, record s { world = world })
  unfolding vfs_close file_is_open
  close_opened slot inode flags private world h free =
      let f : File = file_at (opened World table s v slot inode flags private world).files slot in
      let live : is_some f.inode ≡ true =
        ap (λ t. is_some t.inode)
          (get_or-set_self s.files slot _ closed_file (omega (arith, v.file_slots))) in
      let back : set (opened World table s v slot inode flags private world).files slot closed_file
          ≡ s.files =
        set-set s.files slot _ closed_file
        ∙ set-file_at s.files slot closed_file (v.blank slot free) (omega (arith, v.file_slots)) in
      let small : ltb slot 32 ≡ true = ground arith in
      rw (vfs_close, small, live) (ap (λ t. (true, record s { files = t; world = world })) back)

  -- In a valid state of the VFS, after `vfs_open` has returned a slot, `vfs_close` of it succeeds
  -- and restores the state from before the open, but for what the lookup has changed.
  pub vfs_close-vfs_open :
      (path : Option (List ℕ)) (flags slot : ℕ)
      → (vfs_open World table path flags true s).0 ≡ some slot
      → let s' = (vfs_open World table path flags true s).1 in
        vfs_close World table (some slot) s' ≡ (true, record s { world = s'.world })
  vfs_close-vfs_open path flags slot e = elim (vfs_open-Opened World table s v path flags) [
    | not_found world _ q ↦ absurd (ground (arith, e, ap (λ r. r.0) q))
    | no_slot _ world _ _ q ↦ absurd (ground (arith, e, ap (λ r. r.0) q))
    | in_slot p at inode world on _ h free before q ↦
        let private = (table p).private_data in
        let same : at ≡ slot = ground (arith, e, ap (λ r. r.0) q) in
        subst (λ r. vfs_close World table (some slot) r.1 ≡ (true, record s { world = r.1.world }))
          (sym q)
          (subst
            (λ t.
              vfs_close World table (some t) (opened World table s v at inode flags private world)
              ≡ (true, record s { world = world }))
            same (close_opened at inode flags private world h free))
  ]
