-- ===== src/Fs/Removal/Tests.antt =====
-- Removing an empty directory below the root.
use initra_os.Base.{ℕ, ◌≡◌, refl, true, some, List, [], ◌∷◌, replicate, first_from, test_mask}
use initra_os.Fs.Format.{DiskInode, FsInode, Dirent, zero_disk_inode, zero_dirent}
use initra_os.Fs.Inodes.{InodeAllocator, inode_free_live, inode_is_marked}
use initra_os.Fs.Directory.{
  directory_remove, directory_lookup, name_length, name_equals, name_reserved,
}
use initra_os.Fs.Directory.Empty.{directory_is_empty}
use initra_os.Fs.Path.{path_lookup, path_next_component}
use initra_os.Fs.Namespace.{Namespace, Node, zero_node, namespace_unregister, move_down, node_of}
use initra_os.Fs.Removal.{remove_live}

-- An entry of a directory.
abbrev entry : ℕ → ℕ → List ℕ → Dirent
entry number length name = record {
  inode_number = number;
  type = 2;
  name_length = length;
  name = name;
}

abbrev root_entries : List Dirent
root_entries =
    entry 1 1 (b'.' ∷ replicate 47 0)
    ∷ entry 1 2 (b'.' ∷ b'.' ∷ replicate 46 0)
    ∷ entry 6 1 (b's' ∷ replicate 47 0)
    ∷ []

abbrev sub_entries : List Dirent
sub_entries =
    entry 6 1 (b'.' ∷ replicate 47 0) ∷ entry 1 2 (b'.' ∷ b'.' ∷ replicate 46 0) ∷ zero_dirent ∷ []

abbrev memory_inode : ℕ → ℕ → FsInode
memory_inode number type = record {
  inode_number = number;
  type = type;
  mode = 0;
  flags = 0;
  size = 0;
  owner = 0;
  group = 0;
  link_count = 1;
  created_time = 0;
  modified_time = 0;
  accessed_time = 0;
}

abbrev stored_inode : ℕ → ℕ → DiskInode
stored_inode number type = record zero_disk_inode { inode_number = number; type = type }

abbrev root_node : Node
root_node = record {
  inode = some (memory_inode 1 2);
  disk_inode = some (stored_inode 1 2);
  entries = some root_entries;
}

abbrev sub_node : Node
sub_node = record {
  inode = some (memory_inode 6 2);
  disk_inode = some (stored_inode 6 2);
  entries = some sub_entries;
}

abbrev nodes : List Node
nodes = root_node ∷ sub_node ∷ replicate 4 zero_node

abbrev two : Namespace
two = record { nodes = some nodes; node_count = 2; node_capacity = 6; root_inode = 1 }

-- Inodes 0, 1 and 6 are marked.
abbrev inodes : InodeAllocator
inodes = record {
  bitmap = some (67 ∷ 0 ∷ []);
  bitmap_bytes = 2;
  total_inodes = 16;
  first_allocatable_inode = 2;
  free_inodes = 13;
}

abbrev path : List ℕ
path = b'/' ∷ b's' ∷ 0 ∷ []

succeeds : (remove_live two inodes path).0 ≡ true
unfolding remove_live path_lookup path_next_component namespace_unregister move_down
    directory_remove directory_is_empty inode_free_live node_of first_from directory_lookup
    name_length name_equals name_reserved inode_is_marked test_mask
succeeds = refl
