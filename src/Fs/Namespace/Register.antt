-- ===== src/Fs/Namespace/Register.antt =====
-- Adding a node to the name space, and the empty name space.
use native.Mathlib.Decide.{ℕ_discrete, dec_lt}
use initra_os.Base.{
  ℕ, ◌+◌, ◌≤◌, ◌<◌, ◌≡◌, ◌≢◌, ◌⊎◌, ◌∙◌, inl, inr, refl, sym, ap, subst, Bool, true, false, not,
  ◌&&◌, Option, none, some, List, [], ◌∷◌, arith, ltb, ◌==◌, ◌!=◌, if◌then◌else◌, length, set,
  length-set, is_some, Option-cases, Bool-cases, get_or-set_self, get_or-set_ne, length-replicate,
  replicate, first_from,
}
use initra_os.Fs.Format.{DiskInode, FsInode, Dirent}
use initra_os.Fs.Namespace.{
  node_of, Node, zero_node, Namespace, number_is, node_at, find_in, too_few, register_live,
  namespace_register, namespace_init,
}
use initra_os.Fs.Namespace.Map.{
  IsLive, IsTable, IsValid, find_in_at, find_in_same, node_of-none, node_of-some,
}

-- No entries, or none or one.
pub is_short : Option (List Dirent) → Bool
is_short none = true
is_short (some []) = true
is_short (some (e ∷ [])) = true
is_short (some (e ∷ f ∷ es)) = false

too_few-is_short : (entries : Option (List Dirent)) → too_few entries ≡ is_short entries
unfolding is_short
too_few-is_short none = refl
too_few-is_short (some []) = refl
too_few-is_short (some (e ∷ [])) = refl
too_few-is_short (some (e ∷ f ∷ es)) = ground arith

pub is_short_long : (es : List Dirent) → 2 ≤ length es → is_short (some es) ≡ false
is_short_long es h = sym (too_few-is_short (some es)) ∙ ground arith

module _ (nodes : List Node) (n : ℕ) (room : n < length nodes) (node : Node) (live : IsLive node)
    (t : IsTable nodes n) (fresh : find_in nodes n live.inode.inode_number ≡ none) where
  abbrev added : List Node
  added = set nodes n node

  node_at-added : (j : ℕ) → j < n → node_at added j ≡ node_at nodes j
  node_at-added j h = get_or-set_ne nodes n j node zero_node (λ e. absurd (omega arith))

  node_at-last : node_at added n ≡ node
  node_at-last = get_or-set_self nodes n node zero_node room

  -- No node from before has the new number.
  number_is_new :
      (j q : ℕ)
      → j < n
      → number_is (node_at added j).inode q ≡ true
      → number_is (node_at added n).inode q ≡ true
      → j ≡ n
  number_is_new j q h e f =
      let same : live.inode.inode_number ≡ q = ground (
        arith,
        ap (λ x. number_is x.inode q) node_at-last,
        f,
        ap (λ x. number_is x q) live.inode_there,
      ) in
      absurd (
        ground (
          arith,
          fresh,
          find_in_at nodes n t j live.inode.inode_number h (
              ap (number_is (node_at nodes j).inode) same
              ∙ (ap (λ x. number_is x.inode q) (sym (node_at-added j h)) ∙ e)),
        ))

  added-IsTable : IsTable added (n + 1)
  added-IsTable = record {
    live = λ j h. elim (dec_lt j n) [
      | yes old ↦ subst IsLive (sym (node_at-added j old)) (t.live j old)
      | no last ↦
          let e : n ≡ j = omega arith in
          subst (λ k. IsLive (node_at added k)) e (subst IsLive (sym node_at-last) live)
    ];
    apart = λ j k q h g e f. elim (dec_lt j n) [
      | yes old_j ↦ elim (dec_lt k n) [
        | yes old_k ↦
            t.apart j k q old_j old_k
              (ap (λ x. number_is x.inode q) (sym (node_at-added j old_j)) ∙ e)
              (ap (λ x. number_is x.inode q) (sym (node_at-added k old_k)) ∙ f)
        | no last ↦
            let at : n ≡ k = omega arith in
            number_is_new j q old_j e (ap (λ x. number_is (node_at added x).inode q) at ∙ f) ∙ at
      ]
      | no last ↦
          let at : n ≡ j = omega arith in
          elim (dec_lt k n) [
            | yes old_k ↦
                sym at
                ∙ sym (
                    number_is_new k q old_k f
                      (ap (λ x. number_is (node_at added x).inode q) at ∙ e))
            | no last_k ↦ omega arith
          ]
    ];
  }

  find_added :
      (q : ℕ)
      → live.inode.inode_number ≢ q
      → ((find_in nodes n q ≡ none) × (find_in added (n + 1) q ≡ none))
        ⊎ ((j k : ℕ) × (find_in nodes n q ≡ some j)
            × (find_in added (n + 1) q ≡ some k)
            × (node_at added k ≡ node_at nodes j))
  find_added q other =
      find_in_same nodes added n (n + 1) q t added-IsTable
        (λ j h e. (j, omega arith, node_at-added j h))
        (λ k h e. elim (dec_lt k n) [
          | yes old ↦ (k, old, sym (node_at-added k old))
          | no last ↦
              let at : n ≡ k = omega arith in
              absurd (
                ground (
                  arith,
                  other,
                  e,
                  ap (λ x. number_is (node_at added x).inode q) at,
                  ap (λ x. number_is x.inode q) node_at-last,
                  ap (λ x. number_is x q) live.inode_there,
                ))
        ])

module _ (ns : Namespace) (v : IsValid ns) (inode : FsInode) (disk_inode : DiskInode)
    (entries : Option (List Dirent)) where
  abbrev new_node : Node
  new_node = record { inode = some inode; disk_inode = some disk_inode; entries = entries }

  -- The two inodes agree, and a directory has at least two entries.
  abbrev pub acceptable : Bool
  acceptable =
      inode.inode_number != 0
      && inode.inode_number == disk_inode.inode_number
      && inode.type == disk_inode.type
      && not (inode.type == 2 && is_short entries)

  -- The two results of adding a node: refused, or a valid name space with the node under its number.
  pub data Registered (r : Option Namespace) : Type 0 where
    turned_down :
        ((acceptable ≡ false)
          ⊎ ((ns.node_capacity ≤ ns.node_count) ⊎ (node_of ns inode.inode_number ≢ none)))
        → r ≡ none
        → Registered r
    entered :
        (ns' : Namespace)
        → r ≡ some ns'
        → acceptable ≡ true
        → ns.node_count < ns.node_capacity
        → node_of ns inode.inode_number ≡ none
        → IsValid ns'
        → (ns'.root_inode ≡ ns.root_inode) × (ns'.node_count ≡ ns.node_count + 1)
        → ((q : ℕ)
            → node_of ns' q ≡ (if inode.inode_number == q then some new_node else node_of ns q))
        → Registered r

  abbrev found : Option ℕ
  found = find_in v.nodes ns.node_count inode.inode_number

  abbrev result : Option Namespace
  result = namespace_register (some ns) (some inode) (some disk_inode) entries

  register_ok :
      (acceptable && ltb ns.node_count ns.node_capacity) ≡ true
      → found ≡ none
      → result
        ≡ some (record ns {
          nodes = some (set v.nodes ns.node_count new_node);
          node_count = ns.node_count + 1;
        })
  unfolding namespace_register register_live
  register_ok e f = ground (arith, v.there, f, too_few-is_short entries)

  register_refused :
      ((acceptable && ltb ns.node_count ns.node_capacity) ≡ false) ⊎ (is_some found ≡ true)
      → result ≡ none
  unfolding namespace_register register_live
  register_refused why = ground (arith, v.there, why, too_few-is_short entries)

  entered-Registered :
      (acceptable && ltb ns.node_count ns.node_capacity) ≡ true → found ≡ none → Registered result
  entered-Registered e f =
      let room : ns.node_count < length v.nodes = ground (arith, v.capacity) in
      let live : IsLive new_node = record {
        inode = inode;
        disk_inode = disk_inode;
        inode_there = refl;
        disk_there = refl;
        used = ground arith;
        number = ground arith;
        type = ground arith;
      } in
      let ns' : Namespace = record ns {
        nodes = some (set v.nodes ns.node_count new_node);
        node_count = ns.node_count + 1;
      } in
      let table' = added-IsTable v.nodes ns.node_count room new_node live v.table f in
      entered ns' (register_ok e f) (ground arith) (ground arith)
        (node_of-none ns v.nodes inode.inode_number v.there f)
        (record {
          nodes = set v.nodes ns.node_count new_node;
          there = refl;
          capacity = length-set v.nodes ns.node_count new_node ∙ v.capacity;
          fits = ground arith;
          table = table';
        })
        (refl, refl)
        (λ q. elim (ℕ_discrete inode.inode_number q) [
          | yes same ↦
              let last = node_at-last v.nodes ns.node_count room new_node live v.table f in
              node_of-some ns' (set v.nodes ns.node_count new_node) q ns.node_count refl (
                find_in_at (set v.nodes ns.node_count new_node) (ns.node_count + 1) table'
                  ns.node_count q (omega arith) (ap (λ x. number_is x.inode q) last ∙ ground arith))
              ∙ ground (arith, last)
          | no other ↦
              elim (find_added v.nodes ns.node_count room new_node live v.table f q other) [
                | inl (a, b) ↦
                    node_of-none ns' (set v.nodes ns.node_count new_node) q refl b
                    ∙ ground (arith, node_of-none ns v.nodes q v.there a)
                | inr (j, k, a, b, c) ↦
                    node_of-some ns' (set v.nodes ns.node_count new_node) q k refl b
                    ∙ ground (arith, node_of-some ns v.nodes q j v.there a, c)
              ]
        ])

  -- On a valid name space, as a map from inode numbers to nodes, `initrafs_namespace_register` has
  -- one of two results: the two inodes do not agree, a directory has fewer than two entries, the
  -- array is full or the number is there already, and the call is refused; or a valid name space
  -- of one node more, with the same root, in which the number has the new node and every other
  -- number the node from before.
  pub namespace_register-Registered : Registered result
  namespace_register-Registered =
      elim (Bool-cases (acceptable && ltb ns.node_count ns.node_capacity)) [
        | inr e ↦
            turned_down
              (elim (Bool-cases acceptable) [
                | inr bad ↦ inl bad
                | inl good ↦ inr (inl (ground arith))
              ])
              (register_refused (inl e))
        | inl e ↦ elim (Option-cases found) [
          | inl f ↦ entered-Registered e f
          | inr (j, f) ↦
              turned_down
                (inr (
                  inr (λ g.
                    ground (arith, g, node_of-some ns v.nodes inode.inode_number j v.there f))))
                (register_refused (inr (ground (arith, f))))
        ]
      ]

-- A new name space of at least one node and a root other than 0 is valid and empty.
pub namespace_init-IsValid :
    (capacity root : ℕ)
    → capacity ≢ 0
    → root ≢ 0
    → (ns : Namespace) × (namespace_init true true capacity root ≡ some ns)
      × IsValid ns
      × (ns.root_inode ≡ root)
      × ((q : ℕ) → node_of ns q ≡ none)
unfolding namespace_init find_in first_from
namespace_init-IsValid capacity root c r =
    let ns : Namespace = record {
      nodes = some (replicate capacity zero_node);
      node_count = 0;
      node_capacity = capacity;
      root_inode = root;
    } in
    (
      ns,
      ground arith,
      record {
        nodes = replicate capacity zero_node;
        there = refl;
        capacity = length-replicate capacity zero_node;
        fits = omega arith;
        table = record {
          live = λ j h. absurd (omega arith);
          apart = λ j k q h. absurd (omega arith);
        };
      },
      refl,
      λ q. node_of-none ns (replicate capacity zero_node) q refl refl,
    )
