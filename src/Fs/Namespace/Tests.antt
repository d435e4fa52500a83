-- ===== src/Fs/Namespace/Tests.antt =====
-- A name space of two nodes: the root and a file.
use initra_os.Base.{ℕ, zero, suc, ◌<◌, ◌≡◌, refl, true, some, none, List, ◌∷◌, arith, replicate}
use initra_os.Fs.Format.{DiskInode, FsInode, zero_disk_inode}
use initra_os.Fs.Samples.{folder}
use initra_os.Fs.Namespace.{
  Namespace, Node, zero_node, namespace_register, namespace_unregister, number_is, node_at,
}
use initra_os.Fs.Namespace.Map.{IsValid, IsTable, IsLive}
use initra_os.Fs.Namespace.Laws.{Unregistered, namespace_unregister-Unregistered}
use initra_os.Fs.Namespace.Register.{Registered, namespace_register-Registered}

abbrev memory_inode : ℕ → ℕ → FsInode
memory_inode number type = record {
  inode_number = number;
  type = type;
  mode = 0;
  flags = 0;
  size = 0;
  owner = 0;
  group = 0;
  link_count = 1;
  created_time = 0;
  modified_time = 0;
  accessed_time = 0;
}

abbrev stored_inode : ℕ → ℕ → DiskInode
stored_inode number type = record zero_disk_inode { inode_number = number; type = type }

abbrev root_node : Node
root_node = record {
  inode = some (memory_inode 1 2);
  disk_inode = some (stored_inode 1 2);
  entries = some folder;
}

abbrev notes_node : Node
notes_node = record {
  inode = some (memory_inode 5 1);
  disk_inode = some (stored_inode 5 1);
  entries = none;
}

abbrev nodes : List Node
nodes = root_node ∷ notes_node ∷ replicate 4 zero_node

abbrev two : Namespace
two = record { nodes = some nodes; node_count = 2; node_capacity = 6; root_inode = 1 }

root-IsLive : IsLive root_node
root-IsLive = record {
  inode = memory_inode 1 2;
  disk_inode = stored_inode 1 2;
  inode_there = refl;
  disk_there = refl;
  used = λ e. absurd (omega arith);
  number = refl;
  type = refl;
}

notes-IsLive : IsLive notes_node
notes-IsLive = record {
  inode = memory_inode 5 1;
  disk_inode = stored_inode 5 1;
  inode_there = refl;
  disk_there = refl;
  used = λ e. absurd (omega arith);
  number = refl;
  type = refl;
}

two-IsTable : IsTable nodes 2
two-IsTable = record { live = live; apart = apart }
  where
    apart :
        (j k q : ℕ)
        → j < 2
        → k < 2
        → number_is (node_at nodes j).inode q ≡ true
        → number_is (node_at nodes k).inode q ≡ true
        → j ≡ k
    apart zero zero q h g e f = refl
    apart zero (suc zero) q h g e f = absurd (ground (arith, e, f))
    apart (suc zero) zero q h g e f = absurd (ground (arith, e, f))
    apart (suc zero) (suc zero) q h g e f = refl
    apart (suc (suc j)) k q h g e f = absurd (omega arith)
    apart j (suc (suc k)) q h g e f = absurd (omega arith)

    live : (j : ℕ) → j < 2 → IsLive (node_at nodes j)
    live zero h = root-IsLive
    live (suc zero) h = notes-IsLive
    live (suc (suc j)) h = absurd (omega arith)

two-IsValid : IsValid two
two-IsValid = record {
  nodes = nodes;
  there = refl;
  capacity = refl;
  fits = omega arith;
  table = two-IsTable;
}

namespace_unregister-Unregistered_example :
    Unregistered two two-IsValid 5 (namespace_unregister (some two) 5)
namespace_unregister-Unregistered_example = namespace_unregister-Unregistered two two-IsValid 5

namespace_register-Registered_example :
    Registered two two-IsValid
      (memory_inode 6 1)
      (stored_inode 6 1)
      none
      (namespace_register (some two) (some (memory_inode 6 1)) (some (stored_inode 6 1)) none)
namespace_register-Registered_example =
    namespace_register-Registered two two-IsValid (memory_inode 6 1) (stored_inode 6 1) none
