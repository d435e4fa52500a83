-- ===== src/Vfs/Calls.antt =====
-- The calls on paths and open files are steps.
use initra_os.Base.{
  ℕ, ◌<◌, ◌≡◌, ◌≢◌, ◌⊎◌, ◌∙◌, inl, inr, refl, sym, ap, subst, Bool, true, false, Option, none, some,
  List, arith, set, is_some, Option-cases, Bool-cases,
}
use initra_os.Fs.Format.{FsInode}
use initra_os.Vfs.{
  vfs_get_caller_identity, Caller, ℤ, pos, negsuc, Vfs, Filesystem, File, file_slot, file_is_open,
  vfs_lookup, vfs_open, vfs_close, vfs_seek, vfs_get_security_info, advanced,
}
use initra_os.Vfs.Files.{file_at, file_slot_lem}
use initra_os.Vfs.Step.{Call, call_close, Step, moved_world, opens, moves, closes, unchanged}
use initra_os.Vfs.Inv.{IsValid}

pub file_is_open_lem :
    (files : List File) (slot : ℕ)
    → file_is_open files (some slot) ≡ true
    → (slot < 32) × (i : ℕ) × ((file_at files slot).inode ≡ some i)
unfolding file_is_open
file_is_open_lem files slot e = elim (Option-cases (file_at files slot).inode) [
  | inl f ↦ absurd (ground arith)
  | inr (i, f) ↦ (ground arith, i, f)
]

pub advanced-inode : (file : File) (result : ℤ) → (advanced file result).inode ≡ file.inode
unfolding advanced
advanced-inode file (pos n) = refl
advanced-inode file (negsuc n) = refl

module _ (World : Type 0) (table : ℕ → Filesystem World) (s : Vfs World) where
  -- A lookup finds nothing, or an inode under an active filesystem. Only the world changes.
  pub vfs_lookup-cases :
      (path : Option (List ℕ))
      → ((world : World) × (vfs_lookup World table path s ≡ (none, record s { world = world })))
        ⊎ ((inode : ℕ) × (world : World) × (vfs_lookup World table path s
              ≡ (some inode, record s { world = world }))
            × (is_some s.active ≡ true))
  unfolding vfs_lookup
  vfs_lookup-cases none = inl (s.world, refl)
  vfs_lookup-cases (some path) = elim (Option-cases (s.active)) [
    | inl e ↦ inl (s.world, ground arith)
    | inr (p, e) ↦ elim (Option-cases ((table p).lookup)) [
      | inl f ↦ inl (s.world, ground arith)
      | inr (lookup, f) ↦ elim (Option-cases (lookup (vfs_get_caller_identity s) s.world path).0) [
        | inl g ↦ inl ((lookup (vfs_get_caller_identity s) s.world path).1, ground arith)
        | inr (inode, g) ↦
            inr (
              inode,
              (lookup (vfs_get_caller_identity s) s.world path).1,
              ground arith,
              ground arith,
            )
      ]
    ]
  ]

module _ (World : Type 0) (table : ℕ → Filesystem World) (s : Vfs World) where
  -- What is found under a path, and the world after the search: nothing where there is no path, no
  -- mounted filesystem or no lookup in it; else the answer of the mounted filesystem's lookup of the
  -- path for the caller.
  pub data Looked (path : Option (List ℕ)) : Option ℕ → World → Type 0 where
    no_lookup :
        ((path ≡ none)
          ⊎ ((s.active ≡ none) ⊎ ((p : ℕ) × (s.active ≡ some p) × ((table p).lookup ≡ none))))
        → Looked path none s.world
    asked :
        (p : ℕ) (bytes : List ℕ) (lookup : Caller → World → List ℕ → Option ℕ × World)
        → path ≡ some bytes
        → s.active ≡ some p
        → (table p).lookup ≡ some lookup
        → Looked path
            (lookup (s.caller_uid, s.caller_gid) s.world bytes).0
            (lookup (s.caller_uid, s.caller_gid) s.world bytes).1

  vfs_lookup-Looked :
      (path : Option (List ℕ))
      → (inode : Option ℕ) × (world : World) × (vfs_lookup World table path s
          ≡ (inode, record s { world = world }))
        × Looked path inode world
  unfolding vfs_lookup
  vfs_lookup-Looked none = (none, s.world, refl, no_lookup (inl refl))
  vfs_lookup-Looked (some path) = elim (Option-cases (s.active)) [
    | inl e ↦ (none, s.world, ground arith, no_lookup (inr (inl e)))
    | inr (p, e) ↦ elim (Option-cases ((table p).lookup)) [
      | inl f ↦ (none, s.world, ground arith, no_lookup (inr (inr (p, e, f))))
      | inr (lookup, f) ↦ (
        (lookup (s.caller_uid, s.caller_gid) s.world path).0,
        (lookup (s.caller_uid, s.caller_gid) s.world path).1,
        ground arith,
        asked p path lookup refl e f,
      )
    ]
  ]

module _ (World : Type 0) (table : ℕ → Filesystem World) (s : Vfs World)
    (v : IsValid World table s) where
  -- What a successful open makes of the state.
  abbrev pub opened : ℕ → ℕ → ℕ → ℕ → World → Vfs World
  opened slot inode flags private world = record s {
    files =
        set s.files slot (record {
          inode = some inode;
          position = 0;
          flags = flags;
          filesystem_private = private;
        });
    world = world;
  }

  -- The three results of an open: no inode is found; none of the slots is free; or the lowest free
  -- slot holds the file.
  pub data Opened (path : Option (List ℕ)) (flags : ℕ) (r : Option ℕ × Vfs World) : Type 0 where
    not_found :
        (world : World)
        → Looked World table s path none world
        → r ≡ (none, record s { world = world })
        → Opened path flags r
    no_slot :
        (inode : ℕ) (world : World)
        → Looked World table s path (some inode) world
        → ((k : ℕ) → k < 32 → (file_at s.files k).inode ≢ none)
        → r ≡ (none, record s { world = world })
        → Opened path flags r
    in_slot :
        (p slot inode : ℕ) (world : World)
        → s.active ≡ some p
        → Looked World table s path (some inode) world
        → slot < 32
        → (file_at s.files slot).inode ≡ none
        → ((k : ℕ) → k < slot → (file_at s.files k).inode ≢ none)
        → r ≡ (some slot, opened slot inode flags (table p).private_data world)
        → Opened path flags r

  Looked_active :
      (path : Option (List ℕ)) (r : Option ℕ) (inode : ℕ) (world : World)
      → Looked World table s path r world
      → r ≡ some inode
      → (p : ℕ) × (s.active ≡ some p)
  Looked_active path r inode world (no_lookup why) e = absurd (ground (arith, e))
  Looked_active path r inode world (asked p bytes lookup q on f) e = (p, on)

  found-Opened :
      (path : Option (List ℕ)) (flags : ℕ) (inode : Option ℕ) (world : World)
      → vfs_lookup World table path s ≡ (inode, record s { world = world })
      → Looked World table s path inode world
      → Opened path flags (vfs_open World table path flags true s)
  unfolding vfs_open
  found-Opened path flags none world e l = not_found world l (ground (arith, e))
  found-Opened path flags (some inode) world e l =
      let (p, on) = Looked_active path (some inode) inode world l refl in
      elim (file_slot_lem s.files) [
        | inl (f, all) ↦
            no_slot inode world l (λ k h. all k (omega (arith, v.file_slots)))
              (ground (arith, e, f, ap file_slot))
        | inr (slot, f, inside, free, before) ↦
            in_slot p slot inode world on l (omega (arith, v.file_slots)) free before
              (ground (arith, e, f, on))
      ]

  -- In a valid state of the VFS, `vfs_open` with a file pointer that is not null has one of three
  -- results: no inode is found, since there is no path, no mounted filesystem or no lookup in it,
  -- or since its lookup of the path for the caller gives none; the lookup gives an inode and all
  -- thirty-two slots are taken; or the lowest free slot is returned and holds this inode, the
  -- position 0, the flags and the private data of the mounted filesystem. Only this slot and what
  -- the lookup works on change.
  pub vfs_open-Opened :
      (path : Option (List ℕ)) (flags : ℕ)
      → Opened path flags (vfs_open World table path flags true s)
  vfs_open-Opened path flags =
      let (inode, world, e, l) = vfs_lookup-Looked World table s path in
      found-Opened path flags inode world e l

module _ (World : Type 0) (table : ℕ → Filesystem World) (s : Vfs World) (v : IsValid World table s)
    (c : Call) where
  lookup-Step : (path : Option (List ℕ)) → Step World table c s (vfs_lookup World table path s).1
  lookup-Step path = elim (vfs_lookup-cases World table s path) [
    | inl (world, e) ↦ subst (λ r. Step World table c s r.1) (sym e) (moved_world world)
    | inr (inode, world, e, on) ↦ subst (λ r. Step World table c s r.1) (sym e) (moved_world world)
  ]

  pub info-Step :
      (inode_at : World → ℕ → FsInode) (path : Option (List ℕ)) (ready : Bool)
      → Step World table c s (vfs_get_security_info World table inode_at path ready s).1
  unfolding vfs_get_security_info
  info-Step inode_at path false = unchanged World table c s
  info-Step inode_at path true = elim (Option-cases (vfs_lookup World table path s).0) [
    | inl e ↦ rw (vfs_get_security_info, e) (lookup-Step path)
    | inr (i, e) ↦ rw (vfs_get_security_info, e) (lookup-Step path)
  ]

  pub open-Step :
      (path : Option (List ℕ)) (flags : ℕ) (ready : Bool)
      → Step World table c s (vfs_open World table path flags ready s).1
  unfolding vfs_open
  open-Step path flags false = unchanged World table c s
  open-Step path flags true = elim (vfs_open-Opened World table s v path flags) [
    | not_found world _ e ↦ subst (λ r. Step World table c s r.1) (sym e) (moved_world world)
    | no_slot _ world _ _ e ↦ subst (λ r. Step World table c s r.1) (sym e) (moved_world world)
    | in_slot p slot inode world on _ h free before e ↦
        subst (λ r. Step World table c s r.1) (sym e)
          (opens slot inode _ world h (ground (arith, on)) free refl)
  ]

  -- Another position of an open file.
  pub advanced-Step :
      (world : World) (slot : ℕ) (f : File)
      → file_is_open s.files (some slot) ≡ true
      → f.inode ≡ (file_at s.files slot).inode
      → Step World table c s (record s { files = set s.files slot f; world = world })
  advanced-Step world slot f e same =
      let (h, i, q) = file_is_open_lem s.files slot e in moves slot i f world h q (same ∙ q)

  pub seek-Step :
      (file : Option ℕ) (position : ℕ)
      → Step World table c s (vfs_seek World table file position s).1
  unfolding vfs_seek
  seek-Step none position = unchanged World table c s
  seek-Step (some slot) position = elim (Bool-cases (file_is_open s.files (some slot))) [
    | inr e ↦ rw (vfs_seek, e) (unchanged World table c s)
    | inl e ↦ rw (vfs_seek, e) (advanced-Step s.world slot _ e refl)
  ]

pub close-Step :
    (World : Type 0) (table : ℕ → Filesystem World) (s : Vfs World) (file : Option ℕ)
    → Step World table (call_close file) s (vfs_close World table file s).1
unfolding vfs_close
close-Step World table s none = unchanged World table (call_close none) s
close-Step World table s (some slot) = elim (Bool-cases (file_is_open s.files (some slot))) [
  | inr e ↦ rw (vfs_close, e) (unchanged World table (call_close (some slot)) s)
  | inl e ↦ rw (vfs_close, e) (closes slot (file_is_open_lem s.files slot e).0 refl)
]
