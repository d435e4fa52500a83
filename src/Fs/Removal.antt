-- ===== src/Fs/Removal.antt =====
-- `initrafs_path_remove_directory` of fs/initrafs.c.
pub mod Name
pub mod Facts
pub mod Laws
mod Tests
use initra_os.Base.{
  ℕ, zero, suc, ◌+◌, ◌-◌, Bool, true, false, not, ◌&&◌, ◌||◌, Option, none, some, List, [], ◌∷◌,
  ltb, ◌==◌, ◌!=◌, if◌then◌else◌, length, get_or, set, ◌>>=◌, ◌>>◌, guard,
}
use initra_os.Fs.Format.{DiskInode, FsInode, Dirent, type_directory}
use initra_os.Fs.Integrity.{integrity_update}
use initra_os.Fs.Inodes.{InodeAllocator, inode_free_live}
use initra_os.Fs.Directory.{directory_lookup, directory_remove}
use initra_os.Fs.Directory.Empty.{directory_is_empty}
use initra_os.Fs.Namespace.{Node, Namespace, namespace_find, node_of, namespace_unregister}
use initra_os.Fs.Path.{
  slash, Next, finished, too_long, component, skip_slashes, path_next_component, is_dot, is_dot_dot,
  dot_dot, path_lookup,
}

-- The loop that recovers the end of the path: what follows the last slash and the slashes after it.
pub last_component : List ℕ → List ℕ → List ℕ
last_component [] last = last
last_component (c ∷ cs) last =
    let same = last_component cs last in
    let later = last_component cs (skip_slashes cs) in
    if c == 0 then last else if c == slash then later else same

-- The scan over all components keeps the last, on fuel. A component of more than 48 bytes ends it;
-- the lookup has refused such a path before.
pub scan_component : ℕ → List ℕ → List ℕ → List ℕ
scan_component zero path name = name
scan_component (suc fuel) path name = elim (path_next_component path) [
  | finished ↦ name
  | too_long ↦ name
  | component next rest ↦ scan_component fuel rest next
]

-- Whether an entry is a directory of the given inode.
pub links_to : List Dirent → ℕ → Bool
links_to [] inode_number = false
links_to (e ∷ es) inode_number =
    e.inode_number == inode_number && e.type == type_directory || links_to es inode_number

-- The child that a path leads to: a directory that is empty and not the root, with its parent.
pub record Child : Type 0 where
  pub child_inode : ℕ
  pub parent_inode : ℕ

pub removal_child : Namespace → List ℕ → Option Child
removal_child namespace path = do
  child_inode ← path_lookup (some namespace) (some path) true
  guard (child_inode != namespace.root_inode)
  node ← node_of namespace child_inode
  inode ← node.inode
  guard (inode.type == type_directory)
  entries ← node.entries
  guard (directory_is_empty (some entries))
  parent_inode ← directory_lookup (some entries) (some dot_dot) true
  some (record { child_inode = child_inode; parent_inode = parent_inode })

-- The parent's objects, with its index in the name space.
pub record Parent : Type 0 where
  pub index : ℕ
  pub inode : FsInode
  pub disk_inode : DiskInode
  pub entries : List Dirent

pub removal_parent : Namespace → ℕ → Option Parent
removal_parent namespace parent_inode = do
  index ← namespace_find (some namespace) parent_inode
  node ← node_of namespace parent_inode
  inode ← node.inode
  disk_inode ← node.disk_inode
  entries ← node.entries
  some (record { index = index; inode = inode; disk_inode = disk_inode; entries = entries })

-- The last component of a path, which must not be one of the dots.
pub removal_name : List ℕ → Option (List ℕ)
unfolding last_component scan_component
removal_name path = do
  let name = scan_component (length path + 1) path []
  guard (get_or (last_component path path) 0 0 != 0)
  guard (not (get_or name 0 0 == 0 || is_dot name || is_dot_dot name))
  some name

-- All the tests, and the parent's entries without the child's.
pub record Removal : Type 0 where
  pub child : Child
  pub parent : Parent
  pub entries : List Dirent

pub remove_checks : Namespace → List ℕ → Option Removal
unfolding removal_child removal_parent removal_name links_to
remove_checks namespace path = do
  child ← removal_child namespace path
  parent ← removal_parent namespace child.parent_inode
  name ← removal_name path
  guard (links_to parent.entries child.child_inode)
  entries ← directory_remove (some parent.entries) (some name)
  some (record { child = child; parent = parent; entries = entries })

-- `if (count > 0) count--;`
abbrev one_less : ℕ → ℕ
one_less count = if ltb 0 count then count - 1 else count

-- The parent without the child's entry and link.
pub unlinked : Removal → Node
unlinked r = record {
  inode = some (record (r.parent.inode) { link_count = one_less r.parent.inode.link_count });
  disk_inode = some (
      integrity_update
        (record (r.parent.disk_inode) { link_count = one_less r.parent.disk_inode.link_count }));
  entries = some r.entries;
}

-- The name space with the parent's node changed in place.
pub unlink_in : Namespace → Removal → Namespace
unfolding unlinked
unlink_in namespace r = elim (namespace.nodes) [
  | none ↦ namespace
  | some nodes ↦ record namespace { nodes = some (set nodes r.parent.index (unlinked r)) }
]

pub remove_live : Namespace → InodeAllocator → List ℕ → Bool × (Namespace × InodeAllocator)
unfolding remove_checks unlink_in
remove_live namespace a path =
    if get_or path 0 0 == 0 then (false, (namespace, a)) else elim (remove_checks namespace path) [
      | none ↦ (false, (namespace, a))
      | some r ↦
          let changed = unlink_in namespace r in
          elim (namespace_unregister (some changed) r.child.child_inode) [
            | none ↦ (false, (changed, a))
            | some namespace' ↦
                let (freed, a') = inode_free_live a r.child.child_inode in (freed, (namespace', a'))
          ]
    ]

pub path_remove_directory :
    Option Namespace
    → Option InodeAllocator
    → Option (List ℕ)
    → Bool × (Option Namespace × Option InodeAllocator)
unfolding remove_live
path_remove_directory (some namespace) (some a) (some path) =
    let (done, after) = remove_live namespace a path in (done, (some after.0, some after.1))
path_remove_directory namespace allocator path = (false, (namespace, allocator))
