-- ===== src/Fs/Namespace.antt =====
-- The name space of fs/initrafs.c: an array of nodes, of which the first `node_count` are in use. A
-- node has the objects that its pointers lead to; an array of entries with its count is one list.
pub mod Map
pub mod Laws
pub mod Register
pub mod Update
mod Tests
use initra_os.Base.{
  ℕ, zero, suc, ◌+◌, ◌-◌, Bool, true, false, not, ◌&&◌, ◌||◌, Option, none, some, List, ltb, leb,
  ◌==◌, ◌!=◌, if◌then◌else◌, length, get_or, set, replicate, first_from, is_some,
}
use initra_os.Fs.Format.{DiskInode, FsInode, Dirent, unused_inode, type_directory, root_dir_entries}

pub record Node : Type 0 where
  pub inode : Option FsInode
  pub disk_inode : Option DiskInode
  pub entries : Option (List Dirent)

abbrev pub zero_node : Node
zero_node = record { inode = none; disk_inode = none; entries = none }

pub record Namespace : Type 0 where
  pub nodes : Option (List Node)
  pub node_count : ℕ
  pub node_capacity : ℕ
  pub root_inode : ℕ

abbrev pub number_is : Option FsInode → ℕ → Bool
number_is none inode_number = false
number_is (some inode) inode_number = inode.inode_number == inode_number

abbrev pub node_at : List Node → ℕ → Node
node_at nodes index = get_or nodes index zero_node

-- The index of the node, in place of its address.
pub find_in : List Node → ℕ → ℕ → Option ℕ
find_in nodes node_count inode_number =
    first_from
      (λ index.
        is_some (node_at nodes index).disk_inode
        && number_is (node_at nodes index).inode inode_number)
      node_count 0

unfoldable pub namespace_find : Option Namespace → ℕ → Option ℕ
unfolding find_in
namespace_find none inode_number = none
namespace_find (some namespace) inode_number = elim (namespace.nodes) [
  | none ↦ none
  | some nodes ↦ find_in nodes namespace.node_count inode_number
]

-- The node that the address leads to.
unfoldable pub node_of : Namespace → ℕ → Option Node
unfolding namespace_find
node_of namespace inode_number = elim (namespace.nodes) [
  | none ↦ none
  | some nodes ↦ elim (namespace_find (some namespace) inode_number) [
    | none ↦ none
    | some j ↦ some (node_at nodes j)
  ]
]

-- The Booleans are whether the pointers to the name space and to the nodes are not null.
unfoldable pub namespace_init : Bool → Bool → ℕ → ℕ → Option Namespace
namespace_init true true node_capacity root_inode =
    if node_capacity == 0 || root_inode == unused_inode
    then none
    else some (record {
      nodes = some (replicate node_capacity zero_node);
      node_count = 0;
      node_capacity = node_capacity;
      root_inode = root_inode;
    })
namespace_init _ _ node_capacity root_inode = none

-- Fewer than two entries, or none.
abbrev pub too_few : Option (List Dirent) → Bool
too_few none = true
too_few (some entries) = ltb (length entries) root_dir_entries

pub register_live :
    Namespace → List Node → FsInode → DiskInode → Option (List Dirent) → Option Namespace
unfolding find_in
register_live namespace nodes inode disk_inode entries =
    if inode.inode_number == unused_inode
      || inode.inode_number != disk_inode.inode_number
      || inode.type != disk_inode.type
      || leb namespace.node_capacity namespace.node_count
    then none
    else if inode.type == type_directory && too_few entries
    then none
    else if is_some (find_in nodes namespace.node_count inode.inode_number)
    then none
    else some (record namespace {
      nodes = some (
          set nodes namespace.node_count
            (record { inode = some inode; disk_inode = some disk_inode; entries = entries }));
      node_count = namespace.node_count + 1;
    })

-- `none` is the return value 0, with nothing written, here and below.
pub namespace_register :
    Option Namespace → Option FsInode → Option DiskInode → Option (List Dirent) → Option Namespace
unfolding register_live
namespace_register (some namespace) (some inode) (some disk_inode) entries =
    elim (namespace.nodes) [
      | none ↦ none
      | some nodes ↦ register_live namespace nodes inode disk_inode entries
    ]
namespace_register _ _ _ entries = none

-- The nodes behind the removed one move forward by one.
unfoldable pub move_down : List Node → ℕ → ℕ → List Node
move_down nodes move zero = nodes
move_down nodes move (suc rounds) =
    move_down (set nodes move (node_at nodes (move + 1))) (move + 1) rounds

pub unregister_live : Namespace → List Node → ℕ → Option Namespace
unfolding move_down
unregister_live namespace nodes inode_number =
    if inode_number == unused_inode || inode_number == namespace.root_inode
    then none
    else elim (first_from (λ index. number_is (node_at nodes index).inode inode_number)
        namespace.node_count 0) [
          | none ↦ none
          | some index ↦
              let moved = move_down nodes index (namespace.node_count - 1 - index) in
              some (record namespace {
                nodes = some (set moved (namespace.node_count - 1) zero_node);
                node_count = namespace.node_count - 1;
              })
        ]

unfoldable pub namespace_unregister : Option Namespace → ℕ → Option Namespace
unfolding unregister_live
namespace_unregister none inode_number = none
namespace_unregister (some namespace) inode_number = elim (namespace.nodes) [
  | none ↦ none
  | some nodes ↦ unregister_live namespace nodes inode_number
]
