-- ===== src/Fs/Path.antt =====
-- Paths in fs/initrafs.c. A path is the list of its bytes, and a position in it the list from there
-- on; a read past the end is the terminator 0.
pub mod Split
pub mod Lookup
pub mod Walk
mod Tests
use initra_os.Base.{
  ℕ, zero, suc, ◌+◌, ◌-◌, Bool, true, false, not, ◌&&◌, ◌||◌, Option, none, some, List, [], ◌∷◌,
  ltb, leb, ◌==◌, ◌!=◌, if◌then◌else◌, length, get_or, u32,
}
use initra_os.Fs.Format.{DiskInode, FsInode, Dirent, max_name_length, type_directory}
use initra_os.Fs.Directory.{dot, directory_lookup}
use initra_os.Fs.Namespace.{Node, Namespace, node_of}

abbrev pub slash : ℕ
slash = b'/'

-- The results 0, -1 and 1 of the search for the next component.
pub data Next : Type 0 where
  finished : Next
  too_long : Next
  component : List ℕ → List ℕ → Next

pub skip_slashes : List ℕ → List ℕ
skip_slashes [] = []
skip_slashes (c ∷ cs) = let rest = skip_slashes cs in if c == slash then rest else c ∷ cs

-- The bytes up to a slash or the end, and the rest; `none` past 48 bytes.
pub read_component : List ℕ → ℕ → Option (List ℕ × List ℕ)
read_component [] index = some ([], [])
read_component (c ∷ cs) index =
    let next = read_component cs (index + 1) in
    if c == 0 || c == slash
    then some ([], c ∷ cs)
    else if leb max_name_length index
    then none
    else elim next [ none ↦ none | some read ↦ some (c ∷ read.0, read.1) ]

unfoldable pub path_next_component : List ℕ → Next
unfolding skip_slashes read_component
path_next_component path =
    let cursor = skip_slashes path in
    if get_or cursor 0 0 == 0
    then finished
    else elim (read_component cursor 0) [ none ↦ too_long | some read ↦ component read.0 read.1 ]

-- The entries of a directory that the name space has.
pub directory_of : Node → Option (List Dirent)
directory_of node = elim (node.inode) [
  | none ↦ none
  | some inode ↦ elim (node.disk_inode) [
    | none ↦ none
    | some disk_inode ↦ elim (node.entries) [
      | none ↦ none
      | some entries ↦
          if inode.type != type_directory
            || disk_inode.type != type_directory
            || length entries == 0
          then none
          else some entries
    ]
  ]
]

abbrev pub is_dot : List ℕ → Bool
is_dot name = get_or name 0 0 == dot && get_or name 1 0 == 0

abbrev pub is_dot_dot : List ℕ → Bool
is_dot_dot name = get_or name 0 0 == dot && get_or name 1 0 == dot && get_or name 2 0 == 0

abbrev pub dot_dot : List ℕ
dot_dot = dot ∷ dot ∷ []

-- One component: the next current inode and its depth below the root.
unfoldable pub path_step : Namespace → List ℕ → ℕ → ℕ → Option (ℕ × ℕ)
unfolding directory_of
path_step namespace name current_inode depth = elim (node_of namespace current_inode) [
  | none ↦ none
  | some node ↦ elim (directory_of node) [
    | none ↦ none
    | some entries ↦
        if is_dot name
        then some (current_inode, depth)
        else if is_dot_dot name
        then if depth == 0
          then none
          else elim (directory_lookup (some entries) (some dot_dot) true) [
            | none ↦ none
            | some inode_number ↦ some (inode_number, depth - 1)
          ]
        else elim (directory_lookup (some entries) (some name) true) [
          | none ↦ none
          | some inode_number ↦ some (inode_number, u32 (depth + 1))
        ]
  ]
]

-- The result of the loop, which has fuel.
pub data Found : Type 0 where
  out_of_fuel : Found
  failed : Found
  found : ℕ → Found

pub path_loop : ℕ → Namespace → List ℕ → ℕ → ℕ → Found
unfolding path_next_component path_step
path_loop zero namespace path current_inode depth = out_of_fuel
path_loop (suc fuel) namespace path current_inode depth = elim (path_next_component path) [
  | finished ↦ found current_inode
  | too_long ↦ failed
  | component name rest ↦ elim (path_step namespace name current_inode depth) [
    | none ↦ failed
    | some next ↦ path_loop fuel namespace rest next.0 next.1
  ]
]

-- `none` is the return value 0. The Boolean is whether `inode_number` is not null.
unfoldable pub path_lookup : Option Namespace → Option (List ℕ) → Bool → Option ℕ
unfolding path_loop
path_lookup (some namespace) (some path) true =
    if get_or path 0 0 == 0
    then none
    else elim (path_loop (length path + 1) namespace path namespace.root_inode 0) [
      | out_of_fuel ↦ none
      | failed ↦ none
      | found inode_number ↦ some inode_number
    ]
path_lookup _ _ _ = none
