-- ===== src/Vfs/Stays.antt =====
-- An open file through sequences of calls.
use initra_os.Base.{
  ℕ, zero, suc, ◌≡◌, ◌≢◌, ◌∙◌, refl, sym, ap, some, List, [], ◌∷◌, All, arith, set,
}
use initra_os.Fs.Format.{FsInode}
use initra_os.Vfs.{Vfs, Filesystem, File, closed_file}
use initra_os.Vfs.Files.{file_at}
use initra_os.Vfs.Step.{
  Call, call_close, Step, moved_world, registers, unregisters, identifies, mounts, unmounts, opens,
  moves, closes,
}
use initra_os.Vfs.Inv.{IsValid}
use initra_os.Vfs.Steps.{run, runs, run-Step, run-IsValid}

-- A slot that is written elsewhere, or with a file of the same inode, keeps its inode.
set-inode :
    (files : List File) (slot k i : ℕ) (f : File)
    → (slot ≡ k → f.inode ≡ some i)
    → (file_at files k).inode ≡ some i
    → (file_at (set files slot f) k).inode ≡ some i
set-inode [] slot k i f here e = e
set-inode (file ∷ files) zero zero i f here e = here refl
set-inode (file ∷ files) zero (suc k) i f here e = e
set-inode (file ∷ files) (suc slot) zero i f here e = e
set-inode (file ∷ files) (suc slot) (suc k) i f here e =
    set-inode files slot k i f (λ q. here (ap suc q)) e

module _ (World : Type 0) (table : ℕ → Filesystem World) (k i : ℕ) where
  step_keeps_open :
      (c : Call) (s r : Vfs World)
      → IsValid World table s
      → Step World table c s r
      → c ≢ call_close (some k)
      → (file_at s.files k).inode ≡ some i
      → ((file_at r.files k).inode ≡ some i) × (r.active ≡ s.active)
  step_keeps_open c s _ v (moved_world world) other e = (e, refl)
  step_keeps_open c s _ v (registers p slots' name a) other e = (e, refl)
  step_keeps_open c s _ v (unregisters p slots' idle a) other e = (e, refl)
  step_keeps_open c s _ v (identifies uid gid) other e = (e, refl)
  step_keeps_open c s _ v (mounts p world none_yet held) other e =
      absurd (ground (arith, v.active k i e, none_yet))
  step_keeps_open c s _ v (unmounts world all_closed) other e =
      absurd (ground (arith, e, all_closed k))
  step_keeps_open c s _ v (opens slot j f world h on free q) other e = (
    set-inode s.files slot k i f
        (λ x. absurd (ground (arith, e, free, ap (λ t. (file_at s.files t).inode) x))) e,
    refl,
  )
  step_keeps_open c s _ v (moves slot j f world h q same) other e = (
    set-inode s.files slot k i f (λ x. same ∙ (sym q ∙ (ap (λ t. (file_at s.files t).inode) x ∙ e)))
        e,
    refl,
  )
  step_keeps_open c s _ v (closes slot h q) other e = (
    set-inode s.files slot k i closed_file
        (λ x. absurd (other (q ∙ ap (λ t. call_close (some t)) x))) e,
    refl,
  )

  module _ (inode_at : World → ℕ → FsInode) where
    -- In a valid state of the VFS, a file that is open in a slot stays open there, with its inode
    -- and under the same mounted filesystem, through any sequence of calls none of which is
    -- `vfs_close` of this slot.
    pub runs_keep_open :
        (calls : List Call) (s : Vfs World)
        → IsValid World table s
        → All (λ c. c ≢ call_close (some k)) calls
        → (file_at s.files k).inode ≡ some i
        → ((file_at (runs World table inode_at calls s).files k).inode ≡ some i)
          × ((runs World table inode_at calls s).active ≡ s.active)
    unfolding runs
    runs_keep_open [] s v others e = (e, refl)
    runs_keep_open (c ∷ calls) s v others e =
        let here =
          step_keeps_open c s (run World table inode_at c s) v (run-Step World table inode_at c s v)
            others.0 e in
        let there =
          runs_keep_open calls (run World table inode_at c s)
            (run-IsValid World table inode_at c s v) others.1 here.0 in
        (there.0, there.1 ∙ here.1)
