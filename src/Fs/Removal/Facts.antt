-- ===== src/Fs/Removal/Facts.antt =====
-- What the tests of the removal have found out when they pass.
use initra_os.Base.{
  ℕ, ◌≡◌, subst, true, some, List, ◌==◌, ◌!=◌, >>=-eq-some, guard-eq-some, some_inj,
}
use initra_os.Fs.Format.{Dirent}
use initra_os.Fs.Directory.{directory_lookup, directory_remove}
use initra_os.Fs.Directory.Empty.{directory_is_empty}
use initra_os.Fs.Namespace.{Node, Namespace, namespace_find, node_of}
use initra_os.Fs.Path.{path_lookup, dot_dot}
use initra_os.Fs.Removal.{
  Removal, Child, Parent, removal_child, removal_parent, removal_name, links_to, remove_checks,
}

-- The child.
pub record ChildFacts (namespace : Namespace) (path : List ℕ) (c : Child) : Type 0 where
  pub node : Node
  pub entries : List Dirent
  pub looked_up : path_lookup (some namespace) (some path) true ≡ some c.child_inode
  pub not_root : (c.child_inode != namespace.root_inode) ≡ true
  pub node_there : node_of namespace c.child_inode ≡ some node
  pub entries_there : node.entries ≡ some entries
  pub empty : directory_is_empty (some entries) ≡ true
  pub parent_entry : directory_lookup (some entries) (some dot_dot) true ≡ some c.parent_inode

removal_child-Facts :
    (namespace : Namespace) (path : List ℕ) (c : Child)
    → removal_child namespace path ≡ some c
    → ChildFacts namespace path c
unfolding removal_child
removal_child-Facts namespace path c h =
    let (child, e1, h1) = >>=-eq-some (path_lookup (some namespace) (some path) true) _ h in
    let (g2, h2) = guard-eq-some (child != namespace.root_inode) _ h1 in
    let (node, e3, h3) = >>=-eq-some (node_of namespace child) _ h2 in
    let (i, e4, h4) = >>=-eq-some (node.inode) _ h3 in
    let (g5, h5) = guard-eq-some (i.type == 2) _ h4 in
    let (es, e6, h6) = >>=-eq-some (node.entries) _ h5 in
    let (g7, h7) = guard-eq-some (directory_is_empty (some es)) _ h6 in
    let (parent, e8, h8) = >>=-eq-some (directory_lookup (some es) (some dot_dot) true) _ h7 in
    subst (ChildFacts namespace path) (some_inj _ c h8) (record {
      node = node;
      entries = es;
      looked_up = e1;
      not_root = g2;
      node_there = e3;
      entries_there = e6;
      empty = g7;
      parent_entry = e8;
    })

pub record ParentFacts (namespace : Namespace) (number : ℕ) (p : Parent) : Type 0 where
  pub node : Node
  pub found : namespace_find (some namespace) number ≡ some p.index
  pub node_there : node_of namespace number ≡ some node
  pub inode_there : node.inode ≡ some p.inode
  pub disk_there : node.disk_inode ≡ some p.disk_inode
  pub entries_there : node.entries ≡ some p.entries

removal_parent-Facts :
    (namespace : Namespace) (number : ℕ) (p : Parent)
    → removal_parent namespace number ≡ some p
    → ParentFacts namespace number p
unfolding removal_parent
removal_parent-Facts namespace number p h =
    let (index, e1, h1) = >>=-eq-some (namespace_find (some namespace) number) _ h in
    let (node, e2, h2) = >>=-eq-some (node_of namespace number) _ h1 in
    let (inode, e3, h3) = >>=-eq-some (node.inode) _ h2 in
    let (disk, e4, h4) = >>=-eq-some (node.disk_inode) _ h3 in
    let (es, e5, h5) = >>=-eq-some (node.entries) _ h4 in
    subst (ParentFacts namespace number) (some_inj _ p h5) (record {
      node = node;
      found = e1;
      node_there = e2;
      inode_there = e3;
      disk_there = e4;
      entries_there = e5;
    })

-- The entry that is taken out of the parent's.
pub record EntryFacts (path : List ℕ) (r : Removal) : Type 0 where
  pub name : List ℕ
  pub named : removal_name path ≡ some name
  pub linked : links_to r.parent.entries r.child.child_inode ≡ true
  pub taken_out : directory_remove (some (r.parent.entries)) (some name) ≡ some r.entries

pub remove_checks-Facts :
    (namespace : Namespace) (path : List ℕ) (r : Removal)
    → remove_checks namespace path ≡ some r
    → ChildFacts namespace path r.child
      × ParentFacts namespace r.child.parent_inode r.parent
      × EntryFacts path r
unfolding remove_checks
remove_checks-Facts namespace path r h =
    let (c, e1, h1) = >>=-eq-some (removal_child namespace path) _ h in
    let (p, e2, h2) = >>=-eq-some (removal_parent namespace c.parent_inode) _ h1 in
    let (name, e3, h3) = >>=-eq-some (removal_name path) _ h2 in
    let (g4, h4) = guard-eq-some (links_to p.entries c.child_inode) _ h3 in
    let (es, e5, h5) = >>=-eq-some (directory_remove (some p.entries) (some name)) _ h4 in
    subst
      (λ x.
        ChildFacts namespace path x.child
        × ParentFacts namespace x.child.parent_inode x.parent
        × EntryFacts path x)
      (some_inj _ r h5)
      (
        removal_child-Facts namespace path c e1,
        removal_parent-Facts namespace c.parent_inode p e2,
        record { name = name; named = e3; linked = g4; taken_out = e5 },
      )
