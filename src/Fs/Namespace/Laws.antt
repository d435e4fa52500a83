-- ===== src/Fs/Namespace/Laws.antt =====
-- Removing a node from the name space.
use native.Mathlib.Decide.{ℕ_discrete}
use initra_os.Base.{
  ℕ, zero, suc, ◌+◌, ◌-◌, ◌≤◌, ◌<◌, ◌≡◌, ◌≢◌, ◌⊎◌, ◌∙◌, inl, inr, refl, sym, ap, subst, true, false,
  ◌&&◌, ◌||◌, Option, none, some, List, arith, leb, ltb, ◌==◌, if◌then◌else◌, length, set,
  length-set, first_from, first_from-some, first_from-none, Option-cases, Bool-cases,
  get_or-set_self, get_or-set_ne,
}
use initra_os.Fs.Format.{FsInode}
use initra_os.Fs.Namespace.{
  node_of, Node, zero_node, Namespace, number_is, node_at, find_in, move_down, unregister_live,
  namespace_unregister,
}
use initra_os.Fs.Namespace.Map.{
  IsLive, IsTable, IsValid, find_in_at, find_in-some, find_in_same, node_of-none, node_of-some,
}

node_at-move_down :
    (nodes : List Node) (m r j : ℕ)
    → m + r ≤ length nodes
    → node_at (move_down nodes m r) j
      ≡ (if leb m j && ltb j (m + r) then node_at nodes (j + 1) else node_at nodes j)
unfolding move_down
node_at-move_down nodes m zero j h = ground arith
node_at-move_down nodes m (suc r) j h =
    let x = node_at nodes (m + 1) in
    node_at-move_down (set nodes m x) (m + 1) r j (omega (arith, length-set nodes m x))
    ∙ ground (
      arith,
      get_or-set_self nodes m x zero_node (omega arith),
      get_or-set_ne nodes m j x zero_node,
      get_or-set_ne nodes m (j + 1) x zero_node,
      ap (node_at nodes),
    )

length-move_down : (nodes : List Node) (m r : ℕ) → length (move_down nodes m r) ≡ length nodes
unfolding move_down
length-move_down nodes m zero = refl
length-move_down nodes m (suc r) =
    length-move_down (set nodes m (node_at nodes (m + 1))) (m + 1) r ∙ length-set nodes m _

-- Where a node of the new array comes from, and where one of the old array goes.
abbrev source_of : ℕ → ℕ → ℕ
source_of index j = if leb index j then j + 1 else j

abbrev target_of : ℕ → ℕ → ℕ
target_of index j = if ltb index j then j - 1 else j

module _ (nodes : List Node) (n index : ℕ) (fits : n ≤ length nodes) (inside : index < n) where
  -- The array after the removal of the node at an index.
  abbrev removed : List Node
  removed = set (move_down nodes index (n - 1 - index)) (n - 1) zero_node

  node_at-removed : (j : ℕ) → j < n - 1 → node_at removed j ≡ node_at nodes (source_of index j)
  node_at-removed j h =
      get_or-set_ne (move_down nodes index (n - 1 - index)) (n - 1) j zero_node zero_node
        (λ e. absurd (omega arith))
      ∙ (node_at-move_down nodes index (n - 1 - index) j (omega arith) ∙ ground arith)

  removed-IsTable : IsTable nodes n → IsTable removed (n - 1)
  removed-IsTable t = record {
    live =
        λ j h. subst IsLive (sym (node_at-removed j h)) (t.live (source_of index j) (ground arith));
    apart = λ j k q h g e f.
        let e' = ap (λ x. number_is x.inode q) (sym (node_at-removed j h)) ∙ e in
        let f' = ap (λ x. number_is x.inode q) (sym (node_at-removed k g)) ∙ f in
        let same =
          t.apart (source_of index j) (source_of index k) q (ground arith) (ground arith) e' f' in
        ground (arith, same);
  }

  -- Every node but the removed one is found as before.
  find_removed :
      IsTable nodes n
      → (q : ℕ) → number_is (node_at nodes index).inode q ≡ false
      → ((find_in nodes n q ≡ none) × (find_in removed (n - 1) q ≡ none))
        ⊎ ((j k : ℕ) × (find_in nodes n q ≡ some j)
            × (find_in removed (n - 1) q ≡ some k)
            × (node_at removed k ≡ node_at nodes j))
  find_removed t q other =
      find_in_same nodes removed n (n - 1) q t (removed-IsTable t)
        (λ j h e.
          let ne : j ≢ index =
            λ x. ground (arith, e, other, ap (λ y. number_is (node_at nodes y).inode q) x) in
          let small : target_of index j < n - 1 = ground (arith, ne) in
          let same : source_of index (target_of index j) ≡ j = ground (arith, ne) in
          (
            target_of index j,
            small,
            node_at-removed (target_of index j) small ∙ ap (node_at nodes) same,
          ))
        (λ k h e. (source_of index k, ground arith, sym (node_at-removed k h)))

  -- The removed number is not there any more.
  removed_absent :
      IsTable nodes n
      → (q : ℕ) → number_is (node_at nodes index).inode q ≡ true
      → find_in removed (n - 1) q ≡ none
  removed_absent t q here = elim (Option-cases (find_in removed (n - 1) q)) [
    | inl e ↦ e
    | inr (k, e) ↦
        let (h, g) = find_in-some removed (n - 1) (removed-IsTable t) k q e in
        let same =
          t.apart (source_of index k) index q (ground arith) inside
            (ap (λ x. number_is x.inode q) (sym (node_at-removed k h)) ∙ g) here in
        absurd (ground (arith, same))
  ]

-- A node has one number.
number_is_once :
    (inode : Option FsInode) (n q : ℕ)
    → number_is inode n ≡ true
    → n ≢ q
    → number_is inode q ≡ false
number_is_once none n q e other = refl
number_is_once (some inode) n q e other = ground arith

module _ (ns : Namespace) (v : IsValid ns) (n : ℕ) where
  -- The two results of removing a number: refused, or a valid name space with one node fewer.
  pub data Unregistered (r : Option Namespace) : Type 0 where
    kept : ((n ≡ 0) ⊎ ((n ≡ ns.root_inode) ⊎ (node_of ns n ≡ none))) → r ≡ none → Unregistered r
    gone :
        (ns' : Namespace)
        → r ≡ some ns'
        → n ≢ ns.root_inode
        → node_of ns n ≢ none
        → IsValid ns'
        → (ns'.root_inode ≡ ns.root_inode) × (ns'.node_count + 1 ≡ ns.node_count)
        → ((q : ℕ) → node_of ns' q ≡ (if n == q then none else node_of ns q))
        → Unregistered r

  abbrev search : Option ℕ
  search = first_from (λ index. number_is (node_at v.nodes index).inode n) ns.node_count 0

  unregister-none : (n == 0 || n == ns.root_inode) ≡ true → namespace_unregister (some ns) n ≡ none
  unfolding namespace_unregister
  unregister-none e = rw (namespace_unregister, v.there, unregister_live, e) refl

  unregister_absent :
      (n == 0 || n == ns.root_inode) ≡ false
      → search ≡ none
      → namespace_unregister (some ns) n ≡ none
  unfolding namespace_unregister
  unregister_absent e f = rw (namespace_unregister, v.there, unregister_live, e, f) refl

  unregister_found :
      (index : ℕ)
      → (n == 0 || n == ns.root_inode) ≡ false
      → search ≡ some index
      → namespace_unregister (some ns) n
        ≡ some (record ns {
          nodes = some (
              set
                (move_down v.nodes index (ns.node_count - 1 - index))
                (ns.node_count - 1)
                zero_node);
          node_count = ns.node_count - 1;
        })
  unfolding namespace_unregister
  unregister_found index e f = rw (namespace_unregister, v.there, unregister_live, e, f) refl

  found-Unregistered :
      (index : ℕ)
      → (n == 0 || n == ns.root_inode) ≡ false
      → search ≡ some index
      → Unregistered (namespace_unregister (some ns) n)
  found-Unregistered index e f =
      let first = first_from-some _ ns.node_count 0 index f in
      let inside : index < ns.node_count = omega (arith, first.before_end) in
      let fits : ns.node_count ≤ length v.nodes = omega (arith, v.capacity, v.fits) in
      let after = removed v.nodes ns.node_count index fits inside in
      let ns' : Namespace = record ns { nodes = some after; node_count = ns.node_count - 1 } in
      let table' = removed-IsTable v.nodes ns.node_count index fits inside v.table in
      let old = find_in_at v.nodes ns.node_count v.table index n inside first.passes in
      gone ns' (unregister_found index e f) (ground arith)
        (λ g. ground (arith, g, node_of-some ns v.nodes n index v.there old))
        (record {
          nodes = after;
          there = refl;
          capacity =
              length-set _ _ _
              ∙ (length-move_down v.nodes index (ns.node_count - 1 - index) ∙ v.capacity);
          fits = omega (arith, v.fits);
          table = table';
        })
        (refl, omega arith)
        (λ q. elim (ℕ_discrete n q) [
          | yes same ↦
              node_of-none ns' after q refl (
                removed_absent v.nodes ns.node_count index fits inside v.table q
                  (ap (number_is (node_at v.nodes index).inode) (sym same) ∙ first.passes))
              ∙ ground arith
          | no other ↦
              elim (find_removed v.nodes ns.node_count index fits inside v.table q
                (number_is_once _ n q first.passes other)) [
                  | inl (a, b) ↦
                      node_of-none ns' after q refl b
                      ∙ ground (arith, node_of-none ns v.nodes q v.there a)
                  | inr (j, k, a, b, c) ↦
                      node_of-some ns' after q k refl b
                      ∙ ground (arith, node_of-some ns v.nodes q j v.there a, c)
                ]
        ])

  search_absent : search ≡ none → find_in v.nodes ns.node_count n ≡ none
  search_absent e = elim (Option-cases (find_in v.nodes ns.node_count n)) [
    | inl f ↦ f
    | inr (j, f) ↦
        let (h, g) = find_in-some v.nodes ns.node_count v.table j n f in
        absurd
          (ground (arith, g, first_from-none _ ns.node_count 0 j e (omega arith) (omega arith)))
  ]

  -- On a valid name space, as a map from inode numbers to nodes, `initrafs_namespace_unregister`
  -- of a number has one of two results: the number is 0, the root's or not there, and the call is
  -- refused; or a valid name space of one node fewer, with the same root, in which this number is
  -- not there and every other number has the node from before.
  pub namespace_unregister-Unregistered : Unregistered (namespace_unregister (some ns) n)
  namespace_unregister-Unregistered = elim (Bool-cases (n == 0 || n == ns.root_inode)) [
    | inl e ↦ kept (ground arith) (unregister-none e)
    | inr e ↦ elim (Option-cases search) [
      | inr (index, f) ↦ found-Unregistered index e f
      | inl f ↦
          kept (inr (inr (node_of-none ns v.nodes n v.there (search_absent f))))
            (unregister_absent e f)
    ]
  ]
