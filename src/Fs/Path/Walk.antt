-- ===== src/Fs/Path/Walk.antt =====
-- What `initrafs_path_lookup` finds, told by the maps that the directories are.
use initra_os.Base.{
  ℕ, ◌+◌, ◌-◌, ◌%◌, ◌^◌, ◌≤◌, ◌<◌, ◌≡◌, ◌≢◌, ◌∙◌, inl, inr, refl, sym, ap, true, Option, none, some,
  List, [], ◌∷◌, arith, ltb, ◌&&◌, ◌==◌, if◌then◌else◌, length, get_or, All, Option-cases,
  Bool-cases, subst,
}
use initra_os.Fs.Format.{Dirent}
use initra_os.Fs.Directory.{directory_lookup}
use initra_os.Fs.Directory.Names.{same_text, same_text_iff}
use initra_os.Fs.Directory.Strings.{c_string, c_string_end}
use initra_os.Fs.Directory.Laws.{find, IsSized, directory_lookup_lem}
use initra_os.Fs.Namespace.{Node, Namespace, node_of}
use initra_os.Fs.Path.{path_step, path_lookup, is_dot, is_dot_dot, directory_of}
use initra_os.Fs.Path.Split.{push, pieces, components}
use initra_os.Fs.Path.Lookup.{step_walk, path_lookup-walk}

-- The entries of the directory under a number, if both its inodes are a directory's.
pub folder_at : Namespace → ℕ → Option (List Dirent)
folder_at namespace number = elim (node_of namespace number) [
  | none ↦ none
  | some node ↦ elim (node.inode) [
    | none ↦ none
    | some inode ↦ elim (node.disk_inode) [
      | none ↦ none
      | some disk_inode ↦ elim (node.entries) [
        | none ↦ none
        | some entries ↦
            if inode.type == 2 && (disk_inode.type == 2 && ltb 0 (length entries))
            then some entries
            else none
      ]
    ]
  ]
]

-- Where a name leads to, with the number of levels below the root, in 32 bits: `.` stays, `..`
-- leads to the inode under this text one level up, but not from the root's level, and every other
-- name to the inode under it one level down.
pub next_place : Namespace → List ℕ → ℕ → ℕ → Option (ℕ × ℕ)
next_place namespace name number level = elim (folder_at namespace number) [
  | none ↦ none
  | some entries ↦
      if same_text name (b'.' ∷ []) then some (number, level) else elim (find name entries) [
        | none ↦ none
        | some there ↦
            if same_text name (b'.' ∷ b'.' ∷ [])
            then if level == 0 then none else some (there, level - 1)
            else some (there, (level + 1) % 2 ^ 32)
      ]
]

-- The walk along a list of names, each of at most 48 bytes.
unfoldable pub walk : Namespace → List (List ℕ) → ℕ → ℕ → Option ℕ
walk namespace [] number level = some number
walk namespace (name ∷ names) number level =
    elim (if ltb 48 (length name) then none else next_place namespace name number level) [
      | none ↦ none
      | some next ↦ walk namespace names next.0 next.1
    ]

-- No entry of a directory in the name space claims a name longer than its array.
abbrev pub HasSizedEntries : Namespace → Type 0
HasSizedEntries namespace =
    (number : ℕ) (node : Node) (entries : List Dirent)
    → node_of namespace number ≡ some node
    → node.entries ≡ some entries
    → All IsSized entries

-- A name of at least one byte, none of them 0.
abbrev IsWhole : List ℕ → Type 0
IsWhole name = (0 < length name) × (c_string name ≡ name)

folder_at-directory_of :
    (namespace : Namespace) (number : ℕ) (node : Node)
    → node_of namespace number ≡ some node
    → folder_at namespace number ≡ directory_of node
unfolding folder_at directory_of
folder_at-directory_of namespace number node e = ground (
  arith,
  e,
  Option-cases (node.inode),
  Option-cases (node.disk_inode),
  Option-cases (node.entries),
)

is_dot-same_text : (name : List ℕ) → IsWhole name → is_dot name ≡ same_text name (b'.' ∷ [])
unfolding same_text
is_dot-same_text [] h = absurd (omega (arith, h.0))
is_dot-same_text (a ∷ []) h = ground arith
is_dot-same_text (a ∷ b ∷ cs) h =
    let ends = c_string_end (a ∷ b ∷ cs) in
    let live : b ≢ 0 = ends.1 1 (omega (arith, ap length h.1)) in ground arith

is_dot_dot-same_text :
    (name : List ℕ) → IsWhole name → is_dot_dot name ≡ same_text name (b'.' ∷ b'.' ∷ [])
unfolding same_text
is_dot_dot-same_text [] h = absurd (omega (arith, h.0))
is_dot_dot-same_text (a ∷ []) h = ground arith
is_dot_dot-same_text (a ∷ b ∷ []) h = ground arith
is_dot_dot-same_text (a ∷ b ∷ c ∷ cs) h =
    let ends = c_string_end (a ∷ b ∷ c ∷ cs) in
    let live : c ≢ 0 = ends.1 2 (omega (arith, ap length h.1)) in ground arith

no_folder :
    (namespace : Namespace) (number : ℕ)
    → node_of namespace number ≡ none
    → folder_at namespace number ≡ none
unfolding folder_at
no_folder namespace number e = rw (folder_at, e) refl

module _ (namespace : Namespace) (sized : HasSizedEntries namespace) where
  lookup-find :
      (number : ℕ) (entries : List Dirent) (name : List ℕ)
      → folder_at namespace number ≡ some entries
      → IsWhole name
      → length name ≤ 48
      → directory_lookup (some entries) (some name) true ≡ find name entries
  unfolding folder_at
  lookup-find number entries name e whole small =
      let sizes : All IsSized entries = elim (Option-cases (node_of namespace number)) [
        | inl f ↦ absurd (ground (arith, e, f))
        | inr (node, f) ↦ elim (Option-cases (node.entries)) [
          | inl g ↦
              absurd
                (ground (arith, e, f, g, Option-cases (node.inode), Option-cases (node.disk_inode)))
          | inr (es, g) ↦
              let same : es ≡ entries =
                ground
                  (arith, e, f, g, Option-cases (node.inode), Option-cases (node.disk_inode)) in
              subst (All IsSized) same (sized number node es f g)
        ]
      ] in
      let n : length (c_string name) ≡ length name = ap length whole.1 in
      directory_lookup_lem entries name sizes ∙ ground (arith, n, ap (λ k. find k entries) whole.1)

  path_step-next_place :
      (name : List ℕ) (number level : ℕ)
      → IsWhole name
      → length name ≤ 48
      → path_step namespace name number level ≡ next_place namespace name number level
  unfolding path_step next_place
  path_step-next_place name number level whole small =
      elim (Option-cases (node_of namespace number)) [
        | inl e ↦
            let gone : folder_at namespace number ≡ none = no_folder namespace number e in
            rw (path_step, next_place, e, gone) refl
        | inr (node, e) ↦
            let same = folder_at-directory_of namespace number node e in
            elim (Option-cases (folder_at namespace number)) [
              | inl f ↦
                  let f' : directory_of node ≡ none = sym same ∙ f in
                  rw (path_step, next_place, e, f, f') refl
              | inr (entries, f) ↦
                  let f' : directory_of node ≡ some entries = sym same ∙ f in
                  let by_text = lookup-find number entries name f whole small in
                  let doubled = (same_text_iff name (b'.' ∷ b'.' ∷ [])).0 in
                  rw (path_step, next_place, e, f, f')
                    (ground (
                      arith,
                      is_dot-same_text name whole,
                      is_dot_dot-same_text name whole,
                      by_text,
                      Option-cases (find name entries),
                      λ (t : same_text name (b'.' ∷ b'.' ∷ []) ≡ true).
                          ap (λ x. directory_lookup (some entries) (some x) true) (doubled t),
                    ))
            ]
      ]

  step_walk-walk :
      (names : List (List ℕ)) (number level : ℕ)
      → All IsWhole names
      → step_walk namespace names number level ≡ walk namespace names number level
  unfolding step_walk walk
  step_walk-walk [] number level h = refl
  step_walk-walk (name ∷ names) number level h = elim (Bool-cases (ltb 48 (length name))) [
    | inl big ↦ rw (step_walk, walk, big) refl
    | inr fits ↦
        let same = path_step-next_place name number level h.0 (ground arith) in
        elim (Option-cases (next_place namespace name number level)) [
          | inl f ↦ ground (arith, same, f)
          | inr (next, f) ↦ ground (arith, same, f, step_walk-walk names next.0 next.1 h.1)
        ]
  ]

-- The components of a path are whole names.
push-IsWhole :
    (name : List ℕ) (names : List (List ℕ))
    → c_string name ≡ name
    → All IsWhole names
    → All IsWhole (push name names)
push-IsWhole [] names e h = h
push-IsWhole (c ∷ cs) names e h = ((omega arith, e), h)

pieces-IsWhole :
    (path : List ℕ) → (c_string (pieces path).0 ≡ (pieces path).0) × All IsWhole (pieces path).1
unfolding pieces c_string
pieces-IsWhole [] = (refl, tt)
pieces-IsWhole (c ∷ cs) = elim (Bool-cases (c == 0)) [
  | inl z ↦ rw (pieces, z) (refl, tt)
  | inr n ↦
      let rest = pieces-IsWhole cs in
      elim (Bool-cases (c == b'/')) [
        | inl e ↦ rw (pieces, n, e) (refl, push-IsWhole (pieces cs).0 (pieces cs).1 rest.0 rest.1)
        | inr e ↦ rw (pieces, n, e) (rw (n) (ap (λ t. c ∷ t) rest.0), rest.1)
      ]
]

-- Where no entry in the name space claims a name longer than its array, `initrafs_path_lookup` of
-- a name space and a path fails for an empty path; of any other path it gives what the walk from
-- the root along the path's components gives, taken one after the other as the bytes between
-- slashes up to the terminator. In a directory, `.` stays, `..` leads to the inode under this
-- text, but not from the root's level, any other name to the inode under its text one level down;
-- the walk fails outside directories, at a text that is not found and at a component of more than
-- 48 bytes.
pub path_lookup_lem :
    (namespace : Namespace) (path : List ℕ)
    → HasSizedEntries namespace
    → path_lookup (some namespace) (some path) true ≡ (
        if get_or path 0 0 == 0
        then none
        else walk namespace (components path) namespace.root_inode 0)
path_lookup_lem namespace path sized =
    let whole = pieces-IsWhole path in
    path_lookup-walk namespace path
    ∙ ap (λ o. if get_or path 0 0 == 0 then none else o)
        (step_walk-walk namespace sized (components path) namespace.root_inode 0
          (push-IsWhole (pieces path).0 (pieces path).1 whole.0 whole.1))
