-- ===== src/Vfs/Files.antt =====
-- The table of open files of fs/vfs.c.
use initra_os.Base.{
  ℕ, zero, suc, ◌<◌, ◌≡◌, ◌≢◌, ◌⊎◌, inl, inr, refl, sym, ap, false, none, some, List, [], ◌∷◌,
  arith, length, get_or, set, Option-cases,
}
use initra_os.Vfs.{File, closed_file, file_slot, any_open}

abbrev pub file_at : List File → ℕ → File
file_at files k = get_or files k closed_file

-- The outcome of the search for a free slot: all are open, or the lowest that is not.
pub file_slot_lem :
    (files : List File)
    → ((file_slot files ≡ none) × ((k : ℕ) → k < length files → (file_at files k).inode ≢ none))
      ⊎ ((slot : ℕ) × (file_slot files ≡ some slot)
          × (slot < length files)
          × ((file_at files slot).inode ≡ none)
          × ((k : ℕ) → k < slot → (file_at files k).inode ≢ none))
unfolding file_slot
file_slot_lem [] = inl (refl, λ k h. absurd (omega arith))
file_slot_lem (file ∷ files) = elim (Option-cases (file.inode)) [
  | inl e ↦ inr (0, rw (e) refl, omega arith, e, λ k h. absurd (omega arith))
  | inr (i, e) ↦ elim (file_slot_lem files) [
    | inl (f, all) ↦ inl (rw (e, f) refl, λ k h. later k h i e all)
    | inr (slot, f, inside, free, before) ↦
        inr (suc slot, rw (e, f) refl, omega arith, free, λ k h. before_slot k slot h i e before)
  ]
]
  where
    later :
        (k : ℕ)
        → k < suc (length files)
        → (i : ℕ) → file.inode ≡ some i
        → ((j : ℕ) → j < length files → (file_at files j).inode ≢ none)
        → (file_at (file ∷ files) k).inode ≢ none
    later zero h i e all q = ground (arith, e, q)
    later (suc k) h i e all q = all k (omega arith) q

    before_slot :
        (k slot : ℕ)
        → k < suc slot
        → (i : ℕ) → file.inode ≡ some i
        → ((j : ℕ) → j < slot → (file_at files j).inode ≢ none)
        → (file_at (file ∷ files) k).inode ≢ none
    before_slot zero slot h i e all q = ground (arith, e, q)
    before_slot (suc k) slot h i e all q = all k (omega arith) q

-- No file is open exactly when every slot is free.
pub any_open-false :
    (files : List File) → any_open files ≡ false → (k : ℕ) → (file_at files k).inode ≡ none
unfolding any_open
any_open-false [] h k = refl
any_open-false (file ∷ files) h zero = ground (arith, h, Option-cases file.inode)
any_open-false (file ∷ files) h (suc k) = any_open-false files (ground (arith, h)) k

pub any_open-true :
    (files : List File) → ((k : ℕ) → (file_at files k).inode ≡ none) → any_open files ≡ false
unfolding any_open
any_open-true [] h = refl
any_open-true (file ∷ files) h = rw (h 0) (any_open-true files (λ k. h (suc k)))

-- A slot that is written back leaves the table as it was.
pub set-file_at :
    (files : List File) (k : ℕ) (f : File)
    → file_at files k ≡ f
    → k < length files
    → set files k f ≡ files
set-file_at [] k f e h = refl
set-file_at (file ∷ files) zero f e h = ap (λ x. x ∷ files) (sym e)
set-file_at (file ∷ files) (suc k) f e h =
    ap (λ x. file ∷ x) (set-file_at files k f e (omega arith))
