-- ===== src/Vfs/Transfer.antt =====
-- Reading and writing through the VFS, and the calls that only pass a path on.
use initra_os.Base.{
  ℕ, ◌≡◌, ◌⊎◌, inl, inr, sym, subst, Bool, true, false, not, ◌||◌, Option, none, some, List, [],
  arith, ◌==◌, set, Option-cases, Bool-cases,
}
use initra_os.Vfs.{
  ℤ, negsuc, Caller, vfs_get_caller_identity, Vfs, Filesystem, file_is_open, vfs_read, vfs_write,
  vfs_readdir, path_call, advanced,
}
use initra_os.Vfs.Files.{file_at}
use initra_os.Vfs.Step.{Call, Step, moved_world, unchanged}
use initra_os.Vfs.Inv.{IsValid}
use initra_os.Vfs.Calls.{file_is_open_lem, advanced-inode, advanced-Step}

module _ (World : Type 0) (table : ℕ → Filesystem World) (s : Vfs World) where
  -- The two outcomes of a read from a slot: it is refused, where no file is open there, there is no
  -- buffer or the filesystem cannot read; or the active filesystem reads from the file's position
  -- on, and a result above 0 is added to the position.
  pub data Read (slot : ℕ) (ready : Bool) (size : ℕ) (r : (ℤ × List ℕ) × Vfs World) : Type 0 where
    read_refused :
        ((file_is_open s.files (some slot) ≡ false)
          ⊎ ((ready ≡ false)
              ⊎ ((s.active ≡ none) ⊎ ((p : ℕ) × (s.active ≡ some p) × ((table p).read ≡ none)))))
        → r ≡ ((negsuc 0, []), s)
        → Read slot ready size r
    read_done :
        (p inode : ℕ) (read : Caller → World → ℕ → ℕ → ℕ → (ℤ × List ℕ) × World)
        → file_is_open s.files (some slot) ≡ true
        → s.active ≡ some p
        → (table p).read ≡ some read
        → (file_at s.files slot).inode ≡ some inode
        → (let file = file_at s.files slot in
            let answer = read (vfs_get_caller_identity s) s.world inode file.position size in
            r ≡ (
              answer.0,
              record s { files = set s.files slot (advanced file answer.0.0); world = answer.1 },
            ))
        → Read slot ready size r

  -- `vfs_read` from a slot has one of two outcomes: it returns -1 and changes nothing, where no
  -- file is open there, no buffer is given, nothing is mounted or the filesystem cannot read; or
  -- the mounted filesystem reads from the file's position on, its result is returned, and a result
  -- above 0 is added to the position modulo 2 ^ 32.
  pub vfs_read-Read :
      (slot : ℕ) (ready : Bool) (size : ℕ)
      → Read slot ready size (vfs_read World table (some slot) ready size s)
  unfolding vfs_read
  vfs_read-Read slot ready size =
      elim (Bool-cases (not (file_is_open s.files (some slot)) || not ready)) [
        | inl e ↦
            read_refused
              (elim (Bool-cases ready) [ inl on ↦ inl (ground arith) | inr off ↦ inr (inl off) ])
              (ground arith)
        | inr e ↦ elim (Option-cases (s.active)) [
          | inl f ↦ read_refused (inr (inr (inl f))) (ground arith)
          | inr (p, f) ↦ elim (Option-cases ((table p).read)) [
            | inl g ↦ read_refused (inr (inr (inr (p, f, g)))) (ground arith)
            | inr (read, g) ↦
                let (h, i, q) = file_is_open_lem s.files slot (ground arith) in
                read_done p i read (ground arith) f g q (ground arith)
          ]
        ]
      ]

module _ (World : Type 0) (table : ℕ → Filesystem World) (s : Vfs World) (v : IsValid World table s)
    (c : Call) where
  pub read-Step :
      (file : Option ℕ) (ready : Bool) (size : ℕ)
      → Step World table c s (vfs_read World table file ready size s).1
  unfolding vfs_read
  read-Step none ready size = unchanged World table c s
  read-Step (some slot) ready size = elim (vfs_read-Read World table s slot ready size) [
    | read_refused why e ↦ subst (λ r. Step World table c s r.1) (sym e) (unchanged World table c s)
    | read_done p i read e f g q r ↦
        subst (λ r. Step World table c s r.1) (sym r)
          (advanced-Step World table s v c _ slot _ e (advanced-inode (file_at s.files slot) _))
  ]

  same-Step : {r : Vfs World} → r ≡ s → Step World table c s r
  same-Step e = subst (Step World table c s) (sym e) (unchanged World table c s)

  pub write-Step :
      (file : Option ℕ) (buffer : Option (List ℕ)) (size : ℕ)
      → Step World table c s (vfs_write World table file buffer size s).1
  unfolding vfs_write
  write-Step none buffer size = unchanged World table c s
  write-Step (some slot) none size = unchanged World table c s
  write-Step (some slot) (some buffer) size = elim (Bool-cases (file_is_open s.files (some slot))) [
    | inr e ↦ rw (vfs_write, e) (unchanged World table c s)
    | inl e ↦ elim (Option-cases (s.active)) [
      | inl f ↦ same-Step (ground arith)
      | inr (p, f) ↦ elim (Option-cases ((table p).write)) [
        | inl g ↦ same-Step (ground arith)
        | inr (write, g) ↦
            let (h, i, q) = file_is_open_lem s.files slot e in
            let answer =
              write (vfs_get_caller_identity s) s.world i (file_at s.files slot).position buffer
                size in
            let done : (vfs_write World table (some slot) (some buffer) size s).1 ≡ record s {
              files = set s.files slot (advanced (file_at s.files slot) answer.0);
              world = answer.1;
            } =
              ground arith in
            subst (Step World table c s) (sym done) (
              advanced-Step World table s v c answer.1 slot _ e
                (advanced-inode (file_at s.files slot) _))
      ]
    ]
  ]

  -- `vfs_mkdir`, `vfs_rmdir` and `vfs_unlink`.
  pub path_call-Step :
      (which : Filesystem World → Option (Caller → World → List ℕ → ℤ × World))
      (path : Option (List ℕ))
      → Step World table c s (path_call World table which path s).1
  unfolding path_call
  path_call-Step which none = unchanged World table c s
  path_call-Step which (some path) = elim (Option-cases (s.active)) [
    | inl e ↦ same-Step (ground arith)
    | inr (p, e) ↦ elim (Option-cases (which (table p))) [
      | inl f ↦ same-Step (ground arith)
      | inr (call, f) ↦
          let done : (path_call World table which (some path) s).1
              ≡ record s { world = (call (vfs_get_caller_identity s) s.world path).1 } =
            ground arith in
          subst (Step World table c s) (sym done) (moved_world _)
    ]
  ]

  pub readdir-Step :
      (path : Option (List ℕ)) (ready : Bool) (size : ℕ)
      → Step World table c s (vfs_readdir World table path ready size s).1
  unfolding vfs_readdir
  readdir-Step none ready size = unchanged World table c s
  readdir-Step (some path) false size = unchanged World table c s
  readdir-Step (some path) true size = elim (Bool-cases (size == 0)) [
    | inl z ↦ same-Step (ground arith)
    | inr z ↦ elim (Option-cases (s.active)) [
      | inl e ↦ same-Step (ground arith)
      | inr (p, e) ↦ elim (Option-cases ((table p).readdir)) [
        | inl f ↦ same-Step (ground arith)
        | inr (call, f) ↦
            let done : (vfs_readdir World table (some path) true size s).1
                ≡ record s { world = (call (vfs_get_caller_identity s) s.world path size).1 } =
              ground arith in
            subst (Step World table c s) (sym done) (moved_world _)
      ]
    ]
  ]
