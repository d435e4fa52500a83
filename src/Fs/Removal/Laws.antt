-- ===== src/Fs/Removal/Laws.antt =====
-- What the removal of a directory leaves of the name space.
use initra_os.Base.{
  ℕ, ◌<◌, ◌≡◌, ◌≢◌, ◌∙◌, refl, sym, ap, ◌-◌, Bool, true, none, some, List, ◌==◌, if◌then◌else◌,
  some_inj,
}
use initra_os.Fs.Format.{DiskInode, FsInode, Dirent}
use initra_os.Fs.Inodes.{InodeAllocator, inode_free_live}
use initra_os.Fs.Directory.{directory_lookup, directory_remove}
use initra_os.Fs.Directory.Empty.{directory_is_empty}
use initra_os.Fs.Integrity.Laws.{identity-update}
use initra_os.Fs.Namespace.{Node, Namespace, number_is, node_at, find_in, node_of}
use initra_os.Fs.Namespace.Map.{IsLive, IsValid, find_in-some, node_of-some, namespace_find_in}
use initra_os.Fs.Namespace.Update.{changed}
use initra_os.Fs.Path.{path_lookup}
use initra_os.Fs.Removal.Name.{last_of, IsLinked}
use initra_os.Fs.Path.Split.{components}
use initra_os.Fs.Directory.Listing.{dot_dot_text}
use initra_os.Fs.Integrity.{integrity_update}
use initra_os.Fs.Removal.{Removal, unlinked}
use initra_os.Fs.Removal.Facts.{ChildFacts, ParentFacts, EntryFacts}

-- The parent's node stands for the same number afterwards.
module _ (ns : Namespace) (v : IsValid ns) (number : ℕ) (r : Removal)
    (f : ParentFacts ns number r.parent) where
  at_index : find_in v.nodes ns.node_count number ≡ some r.parent.index
  at_index = namespace_find_in ns v.nodes number v.there ∙ f.found

  abbrev old : Node
  old = node_at v.nodes r.parent.index

  index_inside : r.parent.index < ns.node_count
  index_inside = (find_in-some v.nodes ns.node_count v.table r.parent.index number at_index).0

  is_old : f.node ≡ old
  is_old =
      some_inj f.node old
        (sym f.node_there ∙ node_of-some ns v.nodes number r.parent.index v.there at_index)

  old-IsLive : IsLive old
  old-IsLive = v.table.live r.parent.index index_inside

  same_inode : old-IsLive.inode ≡ r.parent.inode
  same_inode =
      some_inj _ _ (sym old-IsLive.inode_there ∙ (ap (λ x. x.inode) (sym is_old) ∙ f.inode_there))

  same_disk : old-IsLive.disk_inode ≡ r.parent.disk_inode
  same_disk =
      some_inj _ _
        (sym old-IsLive.disk_there ∙ (ap (λ x. x.disk_inode) (sym is_old) ∙ f.disk_there))

  unlinked-IsLive : IsLive (unlinked r)
  unfolding unlinked
  unlinked-IsLive = record {
    inode = _;
    disk_inode = _;
    inode_there = refl;
    disk_there = refl;
    used = λ e. old-IsLive.used (ap (λ x. x.inode_number) same_inode ∙ e);
    number =
        ap (λ x. x.inode_number) (sym same_inode)
        ∙ (old-IsLive.number ∙ (ap (λ x. x.inode_number) same_disk ∙ sym (identity-update _).0));
    type =
        ap (λ x. x.type) (sym same_inode)
        ∙ (old-IsLive.type ∙ (ap (λ x. x.type) same_disk ∙ sym (identity-update _).1));
  }

  unlinked_same : (q : ℕ) → number_is (unlinked r).inode q ≡ number_is old.inode q
  unfolding unlinked
  unlinked_same q =
      ap (λ x. x.inode_number == q) (sym same_inode)
      ∙ ap (λ x. number_is x q) (sym old-IsLive.inode_there)

-- A link fewer, unless there is none.
abbrev pub parent_after : FsInode → DiskInode → List Dirent → Node
parent_after inode disk_inode entries = record {
  inode = some (record inode { link_count = inode.link_count - 1 });
  disk_inode =
      some (integrity_update (record disk_inode { link_count = disk_inode.link_count - 1 }));
  entries = some entries;
}

-- What a call has done that passed all its tests. The path led to an empty directory other than the
-- root, whose `..` is the parent; one of the parent's entries was a directory of this number. The
-- number is gone from the name space, the parent's node has a link fewer in both inodes and the
-- entries that `initrafs_directory_remove` of the path's last component leaves, and every other
-- number has the node from before; the result is that of freeing the child's inode.
pub record HasRemoved (ns : Namespace) (a : InodeAllocator) (path : List ℕ)
    (result : Bool × (Namespace × InodeAllocator)) : Type 0 where
  pub child : ℕ
  pub node : Node
  pub entries : List Dirent
  pub looked_up : path_lookup (some ns) (some path) true ≡ some child
  pub not_root : child ≢ ns.root_inode
  pub child_there : node_of ns child ≡ some node
  pub entries_there : node.entries ≡ some entries
  pub empty : directory_is_empty (some entries) ≡ true
  pub parent : ℕ
  pub parent_entry : directory_lookup (some entries) (some dot_dot_text) true ≡ some parent
  pub parent_inode : FsInode
  pub parent_disk_inode : DiskInode
  pub parent_entries : List Dirent
  pub parent_there :
      node_of ns parent
      ≡ some (record {
        inode = some parent_inode;
        disk_inode = some parent_disk_inode;
        entries = some parent_entries;
      })
  pub linked : IsLinked parent_entries child
  pub entries_after : List Dirent
  pub taken_out :
      directory_remove (some parent_entries) (some (last_of (components path))) ≡ some entries_after
  pub valid : IsValid result.1.0
  pub nodes :
      (q : ℕ)
      → node_of result.1.0 q ≡ (
          if child == q
          then none
          else if parent == q
          then some (parent_after parent_inode parent_disk_inode entries_after)
          else node_of ns q)
  pub freed : result.0 ≡ (inode_free_live a child).0
  pub allocator : result.1.1 ≡ (inode_free_live a child).1

module _ (ns : Namespace) (v : IsValid ns) (a : InodeAllocator) (path : List ℕ) where
  module _ (r : Removal) (c : ChildFacts ns path r.child)
      (f : ParentFacts ns r.child.parent_inode r.parent) (g : EntryFacts path r) where
    abbrev inside : r.parent.index < ns.node_count
    inside = index_inside ns v r.child.parent_inode r f

    abbrev ns1 : Namespace
    ns1 =
        changed ns v r.parent.index inside (unlinked r)
          (unlinked-IsLive ns v r.child.parent_inode r f)
          (unlinked_same ns v r.child.parent_inode r f)
