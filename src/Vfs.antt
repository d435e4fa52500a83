-- ===== src/Vfs.antt =====
-- fs/vfs.c and fs/vfs.h: the registry of filesystems, the mount and the open files. A pointer is a
-- number, or `none` for null. What the filesystems' functions work on is `World`; `table` gives the
-- structure behind a filesystem's pointer and `inode_at` the inode behind an inode's.
pub mod Registry
pub mod Files
pub mod Step
pub mod Inv
pub mod Steps
pub mod Stays
pub mod Members
pub mod Reopen
pub mod Calls
pub mod Transfer
pub mod Sequence
mod Tests
use initra_os.Base.{
  ℕ, zero, suc, ◌+◌, Bool, true, false, not, ◌&&◌, ◌||◌, Option, none, some, List, [], ◌∷◌, ltb,
  ◌==◌, if◌then◌else◌, get_or, set, replicate, u32, is_some,
}
use initra_os.Fs.Format.{FsInode}

-- An `int`: `pos n` is n and `negsuc n` is -(n + 1).
pub data ℤ : Type 0 where
  pos : ℕ → ℤ
  negsuc : ℕ → ℤ

abbrev pub max_filesystems : ℕ
max_filesystems = 8

abbrev pub max_open_files : ℕ
max_open_files = 32

-- The caller's user and group.
abbrev pub Caller : Type 0
Caller = ℕ × ℕ

-- `struct filesystem`: a function that is not there is `none`. A lookup gives the inode's pointer, or
-- `none` where it returns 0 or the pointer is null. A read also gives the bytes that it stored, and a
-- directory read the entry. Every function may ask for the caller's identity by
-- `vfs_get_caller_identity`, so the two numbers are its first argument.
pub record Filesystem (World : Type 0) : Type 0 where
  pub name : Option (List ℕ)
  pub mount : Option (Caller → World → ℕ → Bool × World)
  pub unmount : Option (Caller → World → Bool × World)
  pub lookup : Option (Caller → World → List ℕ → Option ℕ × World)
  pub remove : Option (Caller → World → List ℕ → ℤ × World)
  pub read : Option (Caller → World → ℕ → ℕ → ℕ → (ℤ × List ℕ) × World)
  pub write : Option (Caller → World → ℕ → ℕ → List ℕ → ℕ → ℤ × World)
  pub mkdir : Option (Caller → World → List ℕ → ℤ × World)
  pub rmdir : Option (Caller → World → List ℕ → ℤ × World)
  pub readdir : Option (Caller → World → List ℕ → ℕ → (ℤ × List ℕ) × World)
  pub private_data : ℕ

-- `vfs_file_t`: a slot without an inode is free.
pub record File : Type 0 where
  pub inode : Option ℕ
  pub position : ℕ
  pub flags : ℕ
  pub filesystem_private : ℕ

abbrev pub closed_file : File
closed_file = record { inode = none; position = 0; flags = 0; filesystem_private = 0 }

-- The static variables, and the world that they point into.
pub record Vfs (World : Type 0) : Type 0 where
  pub filesystems : List (Option ℕ)
  pub active : Option ℕ
  pub files : List File
  pub caller_uid : ℕ
  pub caller_gid : ℕ
  pub world : World

abbrev pub vfs_get_caller_identity : {World : Type 0} → Vfs World → Caller
vfs_get_caller_identity s = (s.caller_uid, s.caller_gid)

-- Static variables start as zero.
abbrev pub initial : {World : Type 0} → World → Vfs World
initial world = record {
  filesystems = replicate max_filesystems none;
  active = none;
  files = replicate max_open_files closed_file;
  caller_uid = 0;
  caller_gid = 0;
  world = world;
}

-- The loops over the registry: whether a slot holds the pointer, the first free slot filled, and the
-- first slot with the pointer emptied.
pub holds : List (Option ℕ) → ℕ → Bool
holds [] filesystem = false
holds (none ∷ slots) filesystem = holds slots filesystem
holds (some p ∷ slots) filesystem = p == filesystem || holds slots filesystem

pub fill : List (Option ℕ) → ℕ → Option (List (Option ℕ))
fill [] filesystem = none
fill (none ∷ slots) filesystem = some (some filesystem ∷ slots)
fill (some p ∷ slots) filesystem = elim (fill slots filesystem) [
  | none ↦ none
  | some filled ↦ some (some p ∷ filled)
]

pub empty_slot : List (Option ℕ) → ℕ → Option (List (Option ℕ))
empty_slot [] filesystem = none
empty_slot (none ∷ slots) filesystem = elim (empty_slot slots filesystem) [
  | none ↦ none
  | some emptied ↦ some (none ∷ emptied)
]
empty_slot (some p ∷ slots) filesystem =
    let rest = empty_slot slots filesystem in
    if p == filesystem
    then some (none ∷ slots)
    else elim rest [ none ↦ none | some emptied ↦ some (some p ∷ emptied) ]

-- The loops over the open files: the first slot that is free, and whether one is not.
pub file_slot : List File → Option ℕ
file_slot [] = none
file_slot (file ∷ files) =
    let rest = file_slot files in
    elim (file.inode) [
      | none ↦ some 0
      | some _ ↦ elim rest [ none ↦ none | some slot ↦ some (suc slot) ]
    ]

pub any_open : List File → Bool
any_open [] = false
any_open (file ∷ files) = is_some file.inode || any_open files

-- `vfs_file_is_open`; numbers from 32 on stand for pointers to elsewhere.
pub file_is_open : List File → Option ℕ → Bool
file_is_open files none = false
file_is_open files (some file) =
    ltb file max_open_files && is_some (get_or files file closed_file).inode

-- Whether an active filesystem is the given one.
pub is_active : Option ℕ → ℕ → Bool
is_active none filesystem = false
is_active (some p) filesystem = p == filesystem

-- `vfs_security_info_t`.
pub record SecurityInfo : Type 0 where
  pub inode_number : ℕ
  pub type : ℕ
  pub mode : ℕ
  pub owner : ℕ
  pub group : ℕ
  pub flags : ℕ

module _ (World : Type 0) (table : ℕ → Filesystem World) where
  -- A name that is there and not empty.
  pub named : ℕ → Bool
  named filesystem = elim ((table filesystem).name) [
    | none ↦ false
    | some name ↦ not (get_or name 0 0 == 0)
  ]

  pub filesystem_register : Option ℕ → Vfs World → Bool × Vfs World
  unfolding named
  filesystem_register none s = (false, s)
  filesystem_register (some filesystem) s =
      if not (named filesystem) || holds s.filesystems filesystem
      then (false, s)
      else elim (fill s.filesystems filesystem) [
        | none ↦ (false, s)
        | some filled ↦ (true, record s { filesystems = filled })
      ]

  pub filesystem_unregister : Option ℕ → Vfs World → Bool × Vfs World
  filesystem_unregister none s = (false, s)
  filesystem_unregister (some filesystem) s =
      if not (holds s.filesystems filesystem) || is_active s.active filesystem
      then (false, s)
      else elim (empty_slot s.filesystems filesystem) [
        | none ↦ (false, s)
        | some emptied ↦ (true, record s { filesystems = emptied })
      ]

  -- The second pointer is the device's.
  pub vfs_mount : Option ℕ → Option ℕ → Vfs World → Bool × Vfs World
  vfs_mount (some filesystem) (some device) s =
      if not (holds s.filesystems filesystem) || is_some s.active
      then (false, s)
      else elim ((table filesystem).mount) [
        | none ↦ (false, s)
        | some mount ↦
            let (mounted, world) = mount (vfs_get_caller_identity s) s.world device in
            if mounted
            then (true, record s { active = some filesystem; world = world })
            else (false, record s { world = world })
      ]
  vfs_mount _ _ s = (false, s)

  pub vfs_unmount : Option ℕ → Vfs World → Bool × Vfs World
  vfs_unmount none s = (false, s)
  vfs_unmount (some filesystem) s =
      if not (is_active s.active filesystem)
      then (false, s)
      else elim ((table filesystem).unmount) [
        | none ↦ (false, s)
        | some unmount ↦
            if any_open s.files
            then (false, s)
            else let (unmounted, world) = unmount (vfs_get_caller_identity s) s.world in
              if unmounted
              then (true, record s { active = none; world = world })
              else (false, record s { world = world })
      ]

  pub vfs_set_caller_identity : ℕ → ℕ → Vfs World → Vfs World
  vfs_set_caller_identity uid gid s = record s { caller_uid = uid; caller_gid = gid }

  -- The lookup that the calls with a path begin with.
  pub vfs_lookup : Option (List ℕ) → Vfs World → Option ℕ × Vfs World
  vfs_lookup none s = (none, s)
  vfs_lookup (some path) s = elim (s.active) [
    | none ↦ (none, s)
    | some filesystem ↦ elim ((table filesystem).lookup) [
      | none ↦ (none, s)
      | some lookup ↦
          let (inode, world) = lookup (vfs_get_caller_identity s) s.world path in
          (inode, record s { world = world })
    ]
  ]

  -- The Boolean is whether `info` is not null.
  pub vfs_get_security_info :
      (World → ℕ → FsInode) → Option (List ℕ) → Bool → Vfs World → Option SecurityInfo × Vfs World
  unfolding vfs_lookup
  vfs_get_security_info inode_at path false s = (none, s)
  vfs_get_security_info inode_at path true s =
      let (inode, s') = vfs_lookup path s in
      elim inode [
        | none ↦ (none, s')
        | some pointer ↦
            let i = inode_at s'.world pointer in
            (
              some (record {
                inode_number = i.inode_number;
                type = i.type;
                mode = i.mode;
                owner = i.owner;
                group = i.group;
                flags = i.flags;
              }),
              s',
            )
      ]

  abbrev pub private_of : Option ℕ → ℕ
  private_of none = 0
  private_of (some filesystem) = (table filesystem).private_data

  -- The Boolean is whether `file` is not null; the result is the slot.
  pub vfs_open : Option (List ℕ) → ℕ → Bool → Vfs World → Option ℕ × Vfs World
  unfolding vfs_lookup
  vfs_open path flags false s = (none, s)
  vfs_open path flags true s =
      let (inode, s') = vfs_lookup path s in
      elim inode [
        | none ↦ (none, s')
        | some pointer ↦ elim (file_slot s'.files) [
          | none ↦ (none, s')
          | some slot ↦ (
            some slot,
            record s' {
              files = set s'.files slot (record {
                inode = some pointer;
                position = 0;
                flags = flags;
                filesystem_private = private_of s'.active;
              });
            },
          )
        ]
      ]

  pub vfs_close : Option ℕ → Vfs World → Bool × Vfs World
  vfs_close none s = (false, s)
  vfs_close (some file) s =
      if file_is_open s.files (some file)
      then (true, record s { files = set s.files file closed_file })
      else (false, s)

-- `file->position += result` for a result above 0.
pub advanced : File → ℤ → File
advanced file (pos n) = record file { position = u32 (file.position + n) }
advanced file (negsuc n) = file

module _ (World : Type 0) (table : ℕ → Filesystem World) where
  -- The result, and the bytes that the buffer receives. The Boolean is whether there is a buffer.
  pub vfs_read : Option ℕ → Bool → ℕ → Vfs World → (ℤ × List ℕ) × Vfs World
  unfolding advanced
  vfs_read none ready size s = ((negsuc 0, []), s)
  vfs_read (some slot) ready size s =
      let file = get_or s.files slot closed_file in
      if not (file_is_open s.files (some slot)) || not ready
      then ((negsuc 0, []), s)
      else elim (s.active) [
        | none ↦ ((negsuc 0, []), s)
        | some filesystem ↦ elim ((table filesystem).read) [
          | none ↦ ((negsuc 0, []), s)
          | some read ↦ elim (file.inode) [
            | none ↦ ((negsuc 0, []), s)
            | some inode ↦
                let (result, world) =
                  read (vfs_get_caller_identity s) s.world inode file.position size in
                (
                  result,
                  record s { files = set s.files slot (advanced file result.0); world = world },
                )
          ]
        ]
      ]

  pub vfs_write : Option ℕ → Option (List ℕ) → ℕ → Vfs World → ℤ × Vfs World
  unfolding advanced
  vfs_write (some slot) (some buffer) size s =
      let file = get_or s.files slot closed_file in
      if not (file_is_open s.files (some slot)) then (negsuc 0, s) else elim (s.active) [
        | none ↦ (negsuc 0, s)
        | some filesystem ↦ elim ((table filesystem).write) [
          | none ↦ (negsuc 0, s)
          | some write ↦ elim (file.inode) [
            | none ↦ (negsuc 0, s)
            | some inode ↦
                let (result, world) =
                  write (vfs_get_caller_identity s) s.world inode file.position buffer size in
                (
                  result,
                  record s { files = set s.files slot (advanced file result); world = world },
                )
          ]
        ]
      ]
  vfs_write _ _ size s = (negsuc 0, s)

  pub vfs_seek : Option ℕ → ℕ → Vfs World → Bool × Vfs World
  vfs_seek none position s = (false, s)
  vfs_seek (some slot) position s =
      if file_is_open s.files (some slot)
      then (
        true,
        record s {
          files =
              set s.files slot (record (get_or s.files slot closed_file) { position = position });
        },
      )
      else (false, s)

  -- `vfs_mkdir`, `vfs_rmdir` and `vfs_unlink` differ in the function that they call.
  pub path_call :
      (Filesystem World → Option (Caller → World → List ℕ → ℤ × World))
      → Option (List ℕ)
      → Vfs World
      → ℤ × Vfs World
  path_call which none s = (pos 0, s)
  path_call which (some path) s = elim (s.active) [
    | none ↦ (pos 0, s)
    | some filesystem ↦ elim (which (table filesystem)) [
      | none ↦ (pos 0, s)
      | some call ↦
          let (result, world) = call (vfs_get_caller_identity s) s.world path in
          (result, record s { world = world })
    ]
  ]

  pub vfs_mkdir : Option (List ℕ) → Vfs World → ℤ × Vfs World
  unfolding path_call
  vfs_mkdir path s = path_call (λ f. f.mkdir) path s

  pub vfs_rmdir : Option (List ℕ) → Vfs World → ℤ × Vfs World
  unfolding path_call
  vfs_rmdir path s = path_call (λ f. f.rmdir) path s

  pub vfs_unlink : Option (List ℕ) → Vfs World → ℤ × Vfs World
  unfolding path_call
  vfs_unlink path s = path_call (λ f. f.remove) path s

  -- The Boolean is whether `entry` is not null; the list is what it receives.
  pub vfs_readdir : Option (List ℕ) → Bool → ℕ → Vfs World → (ℤ × List ℕ) × Vfs World
  vfs_readdir (some path) true entry_size s =
      if entry_size == 0 then ((pos 0, []), s) else elim (s.active) [
        | none ↦ ((pos 0, []), s)
        | some filesystem ↦ elim ((table filesystem).readdir) [
          | none ↦ ((pos 0, []), s)
          | some readdir ↦
              let (result, world) = readdir (vfs_get_caller_identity s) s.world path entry_size in
              (result, record s { world = world })
        ]
      ]
  vfs_readdir _ _ entry_size s = ((pos 0, []), s)
