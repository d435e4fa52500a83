-- ===== src/Fs/Namespace/Update.antt =====
-- Another node under the same number.
use native.Mathlib.Decide.{ℕ_discrete}
use initra_os.Base.{
  ℕ, ◌≤◌, ◌<◌, ◌≡◌, ◌≢◌, ◌⊎◌, ◌∙◌, inl, inr, refl, sym, ap, subst, false, none, some, List,
  Bool-cases, arith, if◌then◌else◌, length, set, length-set, get_or-set_self, get_or-set_ne,
}
use initra_os.Fs.Namespace.{Node, zero_node, Namespace, number_is, node_at, find_in, node_of}
use initra_os.Fs.Namespace.Map.{
  IsLive, IsTable, IsValid, find_in_at, find_in-some, find_in_same, node_of-none, node_of-some,
}

module _ (nodes : List Node) (n : ℕ) (fits : n ≤ length nodes) (t : IsTable nodes n) (index : ℕ)
    (inside : index < n) (node : Node) (live : IsLive node)
    (same : (q : ℕ) → number_is node.inode q ≡ number_is (node_at nodes index).inode q) where
  abbrev updated : List Node
  updated = set nodes index node

  node_at_here : node_at updated index ≡ node
  node_at_here = get_or-set_self nodes index node zero_node (omega arith)

  node_at_other : (j : ℕ) → index ≢ j → node_at updated j ≡ node_at nodes j
  node_at_other j h = get_or-set_ne nodes index j node zero_node h

  numbers_same :
      (j q : ℕ) → number_is (node_at updated j).inode q ≡ number_is (node_at nodes j).inode q
  numbers_same j q = elim (ℕ_discrete index j) [
    | no other ↦ ap (λ x. number_is x.inode q) (node_at_other j other)
    | yes here ↦
        subst (λ k. number_is (node_at updated k).inode q ≡ number_is (node_at nodes k).inode q)
          here (ap (λ x. number_is x.inode q) node_at_here ∙ same q)
  ]

  updated-IsTable : IsTable updated n
  updated-IsTable = record {
    live = λ j h. elim (ℕ_discrete index j) [
      | no other ↦ subst IsLive (sym (node_at_other j other)) (t.live j h)
      | yes here ↦
          subst (λ k. IsLive (node_at updated k)) here (subst IsLive (sym node_at_here) live)
    ];
    apart = λ j k q h g e f.
        t.apart j k q h g (sym (numbers_same j q) ∙ e) (sym (numbers_same k q) ∙ f);
  }

  find_updated : (q j : ℕ) → find_in nodes n q ≡ some j → find_in updated n q ≡ some j
  find_updated q j e =
      let (h, g) = find_in-some nodes n t j q e in
      find_in_at updated n updated-IsTable j q h (numbers_same j q ∙ g)

  -- Under every other number stands the node from before.
  find_unchanged :
      (q : ℕ)
      → number_is (node_at nodes index).inode q ≡ false
      → ((find_in nodes n q ≡ none) × (find_in updated n q ≡ none))
        ⊎ ((j k : ℕ) × (find_in nodes n q ≡ some j)
            × (find_in updated n q ≡ some k)
            × (node_at updated k ≡ node_at nodes j))
  find_unchanged q other =
      find_in_same nodes updated n n q t updated-IsTable
        (λ j h e. (
          j,
          h,
          node_at_other j
              (λ x. ground (arith, e, other, ap (λ y. number_is (node_at nodes y).inode q) x)),
        ))
        (λ k h e.
          let e' = sym (numbers_same k q) ∙ e in
          (
            k,
            h,
            sym (
                node_at_other k (λ x.
                  ground (arith, e', other, ap (λ y. number_is (node_at nodes y).inode q) x))),
          ))

-- A valid name space with another node at an index.
module _ (ns : Namespace) (v : IsValid ns) (index : ℕ) (inside : index < ns.node_count)
    (node : Node) (live : IsLive node)
    (same : (q : ℕ) → number_is node.inode q ≡ number_is (node_at v.nodes index).inode q) where
  fits : ns.node_count ≤ length v.nodes
  fits = omega (arith, v.capacity, v.fits)

  abbrev pub changed : Namespace
  changed = record ns { nodes = some (set v.nodes index node) }

  pub changed-IsValid : IsValid changed
  changed-IsValid = record {
    nodes = set v.nodes index node;
    there = refl;
    capacity = length-set v.nodes index node ∙ v.capacity;
    fits = v.fits;
    table = updated-IsTable v.nodes ns.node_count fits v.table index inside node live same;
  }

  pub node_of-changed :
      (q : ℕ)
      → node_of changed q
        ≡ (if number_is (node_at v.nodes index).inode q then some node else node_of ns q)
  node_of-changed q = elim (Bool-cases (number_is (node_at v.nodes index).inode q)) [
    | inl e ↦
        let at = find_in_at v.nodes ns.node_count v.table index q inside e in
        node_of-some changed (set v.nodes index node) q index refl
          (find_updated v.nodes ns.node_count fits v.table index inside node live same q index at)
        ∙ ground
            (arith, e, node_at_here v.nodes ns.node_count fits v.table index inside node live same)
    | inr e ↦
        elim (find_unchanged v.nodes ns.node_count fits v.table index inside node live same q e) [
          | inl (a, b) ↦
              node_of-none changed (set v.nodes index node) q refl b
              ∙ ground (arith, e, node_of-none ns v.nodes q v.there a)
          | inr (j, k, a, b, c) ↦
              node_of-some changed (set v.nodes index node) q k refl b
              ∙ ground (arith, e, node_of-some ns v.nodes q j v.there a, c)
        ]
  ]
