-- ===== src/Fs/Namespace/Map.antt =====
-- The name space as a map from inode numbers to nodes.
use initra_os.Base.{
  ℕ, ◌≤◌, ◌<◌, ◌≡◌, ◌≢◌, ◌⊎◌, ◌∙◌, inl, inr, refl, sym, ap, Bool, true, ◌&&◌, none, some, List,
  arith, length, is_some, first_from-some, first_from-found, Option-cases,
}
use initra_os.Fs.Format.{DiskInode, FsInode}
use initra_os.Fs.Namespace.{Node, Namespace, number_is, node_at, find_in, namespace_find, node_of}

-- A node in use: both inodes are there, of one number, which is not 0, and of one type.
pub record IsLive (node : Node) : Type 0 where
  pub inode : FsInode
  pub disk_inode : DiskInode
  pub inode_there : node.inode ≡ some inode
  pub disk_there : node.disk_inode ≡ some disk_inode
  pub used : inode.inode_number ≢ 0
  pub number : inode.inode_number ≡ disk_inode.inode_number
  pub type : inode.type ≡ disk_inode.type

-- The first nodes of an array are live, and no two have one number.
pub record IsTable (nodes : List Node) (n : ℕ) : Type 0 where
  pub live : (j : ℕ) → j < n → IsLive (node_at nodes j)
  pub apart :
      (j k q : ℕ)
      → j < n
      → k < n
      → number_is (node_at nodes j).inode q ≡ true
      → number_is (node_at nodes k).inode q ≡ true
      → j ≡ k

pub record IsValid (ns : Namespace) : Type 0 where
  pub nodes : List Node
  pub there : ns.nodes ≡ some nodes
  pub capacity : length nodes ≡ ns.node_capacity
  pub fits : ns.node_count ≤ ns.node_capacity
  pub table : IsTable nodes ns.node_count

module _ (nodes : List Node) (n : ℕ) (t : IsTable nodes n) where
  matches :
      (j q : ℕ)
      → j < n
      → (is_some (node_at nodes j).disk_inode && number_is (node_at nodes j).inode q)
        ≡ number_is (node_at nodes j).inode q
  matches j q h = ground (arith, (t.live j h).disk_there)

  pub find_in_at :
      (j q : ℕ) → j < n → number_is (node_at nodes j).inode q ≡ true → find_in nodes n q ≡ some j
  unfolding find_in
  find_in_at j q h e =
      let p : ℕ → Bool = λ index.
        is_some (node_at nodes index).disk_inode && number_is (node_at nodes index).inode q in
      let (k, f) = first_from-found p n 0 j (omega arith) (omega arith) (matches j q h ∙ e) in
      let first = first_from-some p n 0 k f in
      let small : k < n = omega (arith, first.before_end) in
      f ∙ ap some (t.apart k j q small h (sym (matches k q small) ∙ first.passes) e)

  pub find_in-some :
      (j q : ℕ)
      → find_in nodes n q ≡ some j
      → (j < n) × (number_is (node_at nodes j).inode q ≡ true)
  unfolding find_in
  find_in-some j q e =
      let first = first_from-some _ n 0 j e in
      let small : j < n = omega (arith, first.before_end) in
      (small, sym (matches j q small) ∙ first.passes)

-- Two tables that have the same node under a number, or none.
pub find_in_same :
    (nodes nodes' : List Node) (n n' : ℕ) (q : ℕ)
    → IsTable nodes n
    → IsTable nodes' n'
    → ((j : ℕ)
        → j < n
        → number_is (node_at nodes j).inode q ≡ true
        → (k : ℕ) × (k < n') × (node_at nodes' k ≡ node_at nodes j))
    → ((k : ℕ)
        → k < n'
        → number_is (node_at nodes' k).inode q ≡ true
        → (j : ℕ) × (j < n) × (node_at nodes j ≡ node_at nodes' k))
    → ((find_in nodes n q ≡ none) × (find_in nodes' n' q ≡ none))
      ⊎ ((j k : ℕ) × (find_in nodes n q ≡ some j)
          × (find_in nodes' n' q ≡ some k)
          × (node_at nodes' k ≡ node_at nodes j))
find_in_same nodes nodes' n n' q t t' there back = elim (Option-cases (find_in nodes n q)) [
  | inr (j, e) ↦
      let (h, g) = find_in-some nodes n t j q e in
      let (k, small, same) = there j h g in
      inr
        (j, k, e, find_in_at nodes' n' t' k q small (ap (λ x. number_is x.inode q) same ∙ g), same)
  | inl e ↦ elim (Option-cases (find_in nodes' n' q)) [
    | inl f ↦ inl (e, f)
    | inr (k, f) ↦
        let (h, g) = find_in-some nodes' n' t' k q f in
        let (j, small, same) = back k h g in
        absurd (
          ground
            (arith, e, find_in_at nodes n t j q small (ap (λ x. number_is x.inode q) same ∙ g)))
  ]
]

pub node_of-none :
    (ns : Namespace) (nodes : List Node) (q : ℕ)
    → ns.nodes ≡ some nodes
    → find_in nodes ns.node_count q ≡ none
    → node_of ns q ≡ none
unfolding node_of namespace_find
node_of-none ns nodes q e f = rw (node_of, e, namespace_find, e, f) refl

pub node_of-some :
    (ns : Namespace) (nodes : List Node) (q j : ℕ)
    → ns.nodes ≡ some nodes
    → find_in nodes ns.node_count q ≡ some j
    → node_of ns q ≡ some (node_at nodes j)
unfolding node_of namespace_find
node_of-some ns nodes q j e f = rw (node_of, e, namespace_find, e, f) refl

pub namespace_find_in :
    (ns : Namespace) (nodes : List Node) (q : ℕ)
    → ns.nodes ≡ some nodes
    → find_in nodes ns.node_count q ≡ namespace_find (some ns) q
unfolding namespace_find
namespace_find_in ns nodes q e = rw (namespace_find, e) refl

-- No node stands under 0.
pub node_of-used :
    (ns : Namespace) (v : IsValid ns) (q : ℕ) (node : Node) → node_of ns q ≡ some node → q ≢ 0
node_of-used ns v q node e zero_number = elim (Option-cases (find_in v.nodes ns.node_count q)) [
  | inl f ↦ ground (arith, e, node_of-none ns v.nodes q v.there f)
  | inr (j, f) ↦
      let (h, g) = find_in-some v.nodes ns.node_count v.table j q f in
      let live = v.table.live j h in
      live.used (ground (arith, sym (ap (λ x. number_is x q) live.inode_there) ∙ g, zero_number))
]
