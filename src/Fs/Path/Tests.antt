-- ===== src/Fs/Path/Tests.antt =====
-- Paths below a root directory with one file.
use initra_os.Base.{
  ℕ, ◌+◌, ◌≡◌, ◌≢◌, refl, true, some, none, List, [], ◌∷◌, arith, ◌==◌, if◌then◌else◌, length,
  get_or, first_from, All, Bool-cases, inl, inr, subst, some_inj,
}
use initra_os.Fs.Format.{zero_disk_inode}
use initra_os.Fs.Samples.{folder, notes}
use initra_os.Fs.Directory.{directory_lookup, name_length, name_equals}
use initra_os.Fs.Namespace.{Namespace, zero_node, node_of}
use initra_os.Fs.Path.{path_lookup, path_loop, out_of_fuel}
use initra_os.Fs.Path.Split.{components}
use initra_os.Fs.Path.Lookup.{path_loop_ends}
use initra_os.Fs.Path.Walk.{HasSizedEntries, walk, path_lookup_lem}
use initra_os.Fs.Directory.Laws.{IsSized}

abbrev tree : Namespace
tree = record {
  nodes = some (
      record {
        inode = some (record {
          inode_number = 1;
          type = 2;
          mode = 0;
          flags = 0;
          size = 0;
          owner = 0;
          group = 0;
          link_count = 1;
          created_time = 0;
          modified_time = 0;
          accessed_time = 0;
        });
        disk_inode = some (record zero_disk_inode { inode_number = 1; type = 2 });
        entries = some folder;
      }
      ∷ zero_node
      ∷ []);
  node_count = 1;
  node_capacity = 2;
  root_inode = 1;
}

-- `//./notes`.
abbrev path : List ℕ
path = b'/' ∷ b'/' ∷ b'.' ∷ b'/' ∷ notes

found_notes : path_lookup (some tree) (some path) true ≡ some 5
unfolding path_lookup directory_lookup node_of first_from name_length name_equals
found_notes = refl

tree-HasSizedEntries : HasSizedEntries tree
unfolding node_of first_from
tree-HasSizedEntries number node entries e f =
    let sizes : All IsSized folder = omega arith in
    elim (Bool-cases (1 == number)) [
      | inr other ↦ absurd (ground (arith, e, other))
      | inl same ↦
          let here : folder ≡ entries = some_inj folder entries (ground (arith, e, f, same)) in
          subst (All IsSized) here sizes
    ]

path_lookup_lem_example :
    path_lookup (some tree) (some path) true
    ≡ (if get_or path 0 0 == 0 then none else walk tree (components path) 1 0)
path_lookup_lem_example = path_lookup_lem tree path tree-HasSizedEntries

path_loop_ends_example : path_loop (length path + 1) tree path 1 0 ≢ out_of_fuel
path_loop_ends_example = path_loop_ends (length path + 1) tree path 1 0 (omega arith)
