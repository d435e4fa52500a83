-- ===== src/Fs/Path/Lookup.antt =====
-- `initrafs_path_lookup` as steps along the components.
use initra_os.Base.{
  inl, inr, false, ℕ, zero, suc, ◌+◌, ◌<◌, ◌≡◌, ◌≢◌, ◌∙◌, refl, sym, ap, true, Option, none, some,
  List, [], ◌∷◌, arith, ltb, ◌==◌, if◌then◌else◌, length, get_or, Option-cases,
}
use initra_os.Fs.Namespace.{Namespace}
use initra_os.Fs.Path.{Found, out_of_fuel, failed, found, path_step, path_loop, path_lookup}
use initra_os.Fs.Path.Split.{components, at_end, beyond, another, path_next_component-IsNext}

-- The steps along a list of components, each of at most 48 bytes.
unfoldable pub step_walk : Namespace → List (List ℕ) → ℕ → ℕ → Option ℕ
step_walk namespace [] inode_number depth = some inode_number
step_walk namespace (name ∷ names) inode_number depth =
    elim (if ltb 48 (length name) then none else path_step namespace name inode_number depth) [
      | none ↦ none
      | some next ↦ step_walk namespace names next.0 next.1
    ]

-- The result, as the loop gives it.
abbrev ending : Option ℕ → Found
ending none = failed
ending (some inode_number) = found inode_number

pub path_loop-walk :
    (fuel : ℕ) (namespace : Namespace) (path : List ℕ) (inode_number depth : ℕ)
    → length path < fuel
    → path_loop fuel namespace path inode_number depth
      ≡ ending (step_walk namespace (components path) inode_number depth)
unfolding path_loop step_walk
path_loop-walk zero namespace path inode_number depth h = absurd (omega arith)
path_loop-walk (suc fuel) namespace path inode_number depth h =
    elim (path_next_component-IsNext path) [
      | at_end e q ↦ rw (path_loop, e, q) refl
      | beyond name names e q big ↦ rw (path_loop, e, q) (ground arith)
      | another name rest e q small shorter ↦
          elim (Option-cases (path_step namespace name inode_number depth)) [
            | inl f ↦ rw (path_loop, e, q) (ground (arith, f))
            | inr (next, f) ↦
                let fits : ltb 48 (length name) ≡ false = ground arith in
                let on : path_loop (suc fuel) namespace path inode_number depth
                    ≡ path_loop fuel namespace rest next.0 next.1 =
                  rw (path_loop, e, f) refl in
                let walked : step_walk namespace (components path) inode_number depth
                    ≡ step_walk namespace (components rest) next.0 next.1 =
                  ap (λ t. step_walk namespace t inode_number depth) q
                  ∙ rw (step_walk, fits, f) refl in
                on
                ∙ (path_loop-walk fuel namespace rest next.0 next.1 (omega arith)
                    ∙ ap ending (sym walked))
          ]
    ]

pub path_lookup-walk :
    (namespace : Namespace) (path : List ℕ)
    → path_lookup (some namespace) (some path) true ≡ (
        if get_or path 0 0 == 0
        then none
        else step_walk namespace (components path) namespace.root_inode 0)
unfolding path_lookup
path_lookup-walk namespace path = ground (
  arith,
  path_loop-walk (length path + 1) namespace path namespace.root_inode 0 (omega arith),
  Option-cases (step_walk namespace (components path) namespace.root_inode 0),
)

-- The loop of `initrafs_path_lookup` ends after fewer rounds than the path has bytes and two: with
-- more fuel than the path has bytes it does not run out of it.
pub path_loop_ends :
    (fuel : ℕ) (namespace : Namespace) (path : List ℕ) (inode_number depth : ℕ)
    → length path < fuel
    → path_loop fuel namespace path inode_number depth ≢ out_of_fuel
path_loop_ends fuel namespace path inode_number depth h e = ground (
  arith,
  e,
  path_loop-walk fuel namespace path inode_number depth h,
  Option-cases (step_walk namespace (components path) inode_number depth),
)
