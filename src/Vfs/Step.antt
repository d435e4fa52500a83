-- ===== src/Vfs/Step.antt =====
-- The steps of the VFS: what a call can make of the state.
use initra_os.Base.{
  ℕ, ◌<◌, ◌≡◌, inl, inr, refl, Bool, true, false, not, ◌||◌, Option, none, some, List, arith, ◌==◌,
  set, is_some, Option-cases, Bool-cases,
}
use initra_os.Vfs.{
  vfs_get_caller_identity, Vfs, Filesystem, File, closed_file, holds, named, is_active, any_open,
  filesystem_register, filesystem_unregister, vfs_mount, vfs_unmount,
}
use initra_os.Vfs.Registry.{Once, Added, Removed, fill_lem, empty_slot_lem}
use initra_os.Vfs.Files.{file_at, any_open-false}

-- The calls of fs/vfs.h that can change the state, with their arguments.
pub data Call : Type 0 where
  call_register : Option ℕ → Call
  call_unregister : Option ℕ → Call
  call_mount : Option ℕ → Option ℕ → Call
  call_unmount : Option ℕ → Call
  call_set_identity : ℕ → ℕ → Call
  call_security_info : Option (List ℕ) → Bool → Call
  call_open : Option (List ℕ) → ℕ → Bool → Call
  call_close : Option ℕ → Call
  call_read : Option ℕ → Bool → ℕ → Call
  call_write : Option ℕ → Option (List ℕ) → ℕ → Call
  call_seek : Option ℕ → ℕ → Call
  call_mkdir : Option (List ℕ) → Call
  call_rmdir : Option (List ℕ) → Call
  call_unlink : Option (List ℕ) → Call
  call_readdir : Option (List ℕ) → Bool → ℕ → Call

pub is_active_lem : (active : Option ℕ) (p q : ℕ) → active ≡ some q → is_active active p ≡ (q == p)
unfolding is_active
is_active_lem active p q e = rw (e) refl

module _ (World : Type 0) (table : ℕ → Filesystem World) (c : Call) (s : Vfs World) where
  -- What a call can do: move the world alone; register a named filesystem, or unregister one that
  -- is not active; set the caller; mount where nothing is, or unmount where no file is open; open a
  -- file in a free slot under an active filesystem, change an open one's position, or close one.
  pub data Step : Vfs World → Type 0 where
    moved_world : (world : World) → Step (record s { world = world })
    registers :
        (p : ℕ) (slots' : List (Option ℕ))
        → named World table p ≡ true
        → Added s.filesystems p slots'
        → Step (record s { filesystems = slots' })
    unregisters :
        (p : ℕ) (slots' : List (Option ℕ))
        → is_active s.active p ≡ false
        → Removed s.filesystems p slots'
        → Step (record s { filesystems = slots' })
    identifies : (uid gid : ℕ) → Step (record s { caller_uid = uid; caller_gid = gid })
    mounts :
        (p : ℕ) (world : World)
        → s.active ≡ none
        → holds s.filesystems p ≡ true
        → Step (record s { active = some p; world = world })
    unmounts :
        (world : World)
        → ((k : ℕ) → (file_at s.files k).inode ≡ none)
        → Step (record s { active = none; world = world })
    opens :
        (slot inode : ℕ) (f : File) (world : World)
        → slot < 32
        → is_some s.active ≡ true
        → (file_at s.files slot).inode ≡ none
        → f.inode ≡ some inode
        → Step (record s { files = set s.files slot f; world = world })
    moves :
        (slot inode : ℕ) (f : File) (world : World)
        → slot < 32
        → (file_at s.files slot).inode ≡ some inode
        → f.inode ≡ some inode
        → Step (record s { files = set s.files slot f; world = world })
    closes :
        (slot : ℕ)
        → slot < 32
        → c ≡ call_close (some slot)
        → Step (record s { files = set s.files slot closed_file })

  pub unchanged : Step s
  unchanged = moved_world s.world

  module _ (once : Once s.filesystems) where
    pub register-Step : (p : Option ℕ) → Step (filesystem_register World table p s).1
    unfolding filesystem_register
    register-Step none = unchanged
    register-Step (some p) =
        elim (Bool-cases (not (named World table p) || holds s.filesystems p)) [
          | inl e ↦ rw (filesystem_register, e) unchanged
          | inr e ↦ elim (fill_lem s.filesystems p (ground arith) once) [
            | inl full ↦ rw (filesystem_register, e, full.0) unchanged
            | inr (slots', f, a) ↦
                rw (filesystem_register, e, f) (registers p slots' (ground arith) a)
          ]
        ]

    pub unregister-Step : (p : Option ℕ) → Step (filesystem_unregister World table p s).1
    unfolding filesystem_unregister
    unregister-Step none = unchanged
    unregister-Step (some p) =
        elim (Bool-cases (not (holds s.filesystems p) || is_active s.active p)) [
          | inl e ↦ rw (filesystem_unregister, e) unchanged
          | inr e ↦
              let (slots', f, a) = empty_slot_lem s.filesystems p (ground arith) once in
              rw (filesystem_unregister, e, f) (unregisters p slots' (ground arith) a)
        ]

    pub mount-Step : (p d : Option ℕ) → Step (vfs_mount World table p d s).1
    unfolding vfs_mount
    mount-Step none d = unchanged
    mount-Step (some p) none = unchanged
    mount-Step (some p) (some d) =
        elim (Bool-cases (not (holds s.filesystems p) || is_some s.active)) [
          | inl e ↦ rw (vfs_mount, e) unchanged
          | inr e ↦ elim (Option-cases ((table p).mount)) [
            | inl f ↦ rw (vfs_mount, e, f) unchanged
            | inr (mount, f) ↦ elim (Bool-cases (mount (vfs_get_caller_identity s) s.world d).0) [
              | inr g ↦
                  rw (vfs_mount, e, f, g)
                    (moved_world (mount (vfs_get_caller_identity s) s.world d).1)
              | inl g ↦
                  rw (vfs_mount, e, f, g)
                    (mounts p (mount (vfs_get_caller_identity s) s.world d).1 (ground arith)
                      (ground arith))
            ]
          ]
        ]

    pub unmount-Step : (p : Option ℕ) → Step (vfs_unmount World table p s).1
    unfolding vfs_unmount
    unmount-Step none = unchanged
    unmount-Step (some p) = elim (Bool-cases (not (is_active s.active p))) [
      | inl e ↦ rw (vfs_unmount, e) unchanged
      | inr e ↦ elim (Option-cases ((table p).unmount)) [
        | inl f ↦ rw (vfs_unmount, e, f) unchanged
        | inr (unmount, f) ↦ elim (Bool-cases (any_open s.files)) [
          | inl g ↦ rw (vfs_unmount, e, f, g) unchanged
          | inr g ↦ elim (Bool-cases (unmount (vfs_get_caller_identity s) s.world).0) [
            | inr h ↦
                rw (vfs_unmount, e, f, g, h)
                  (moved_world (unmount (vfs_get_caller_identity s) s.world).1)
            | inl h ↦
                rw (vfs_unmount, e, f, g, h)
                  (unmounts (unmount (vfs_get_caller_identity s) s.world).1
                    (any_open-false s.files g))
          ]
        ]
      ]
    ]
