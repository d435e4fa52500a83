-- ===== src/Fs/Removal/Name.antt =====
-- The name that the removal takes out of the parent's entries.
use initra_os.Base.{
  ℕ, zero, suc, ◌+◌, ◌≤◌, ◌<◌, ◌≡◌, ◌∙◌, inl, inr, refl, sym, true, ◌&&◌, ltb, some, List, [], ◌∷◌,
  arith, ◌==◌, length, get_or, All, Option-cases, Bool-cases, guard-eq-some, some_inj, subst,
}
use initra_os.Fs.Format.{Dirent, zero_dirent}
use initra_os.Fs.Namespace.{Namespace}
use initra_os.Fs.Path.{path_lookup, path_step}
use initra_os.Fs.Path.Split.{components, at_end, beyond, another, path_next_component-IsNext}
use initra_os.Fs.Path.Lookup.{step_walk, path_lookup-walk}
use initra_os.Fs.Removal.{scan_component, removal_name, links_to}

-- The last name of a list, or the given one where it has none.
unfoldable pub last_from : List ℕ → List (List ℕ) → List ℕ
last_from name [] = name
last_from name (next ∷ names) = last_from next names

abbrev pub last_of : List (List ℕ) → List ℕ
last_of names = last_from [] names

abbrev IsShort : List ℕ → Type 0
IsShort name = length name ≤ 48

step_walk-IsShort :
    (namespace : Namespace) (names : List (List ℕ)) (number level found : ℕ)
    → step_walk namespace names number level ≡ some found
    → All IsShort names
unfolding step_walk
step_walk-IsShort namespace [] number level found e = tt
step_walk-IsShort namespace (name ∷ names) number level found e =
    elim (Bool-cases (ltb 48 (length name))) [
      | inl big ↦ absurd (ground (arith, e, big))
      | inr fits ↦ elim (Option-cases (path_step namespace name number level)) [
        | inl f ↦ absurd (ground (arith, e, f))
        | inr (next, f) ↦ (
          ground arith,
          step_walk-IsShort namespace names next.0 next.1 found (ground (arith, e, f, fits)),
        )
      ]
    ]

scan_component-last_from :
    (fuel : ℕ) (path name : List ℕ)
    → length path < fuel
    → All IsShort (components path)
    → scan_component fuel path name ≡ last_from name (components path)
unfolding scan_component last_from
scan_component-last_from zero path name h short = absurd (omega arith)
scan_component-last_from (suc fuel) path name h short = elim (path_next_component-IsNext path) [
  | at_end e q ↦ rw (scan_component, e, q) refl
  | beyond next names e q big ↦
      let all : All IsShort (next ∷ names) = subst (All IsShort) q short in
      absurd (omega (arith, all.0, big))
  | another next rest e q small shorter ↦
      let all : All IsShort (next ∷ components rest) = subst (All IsShort) q short in
      rw (scan_component, e, q) (scan_component-last_from fuel rest next (omega arith) all.1)
]

-- The name that is recovered from a path that was found is its last component.
pub last_name :
    (namespace : Namespace) (path : List ℕ) (found : ℕ) (name : List ℕ)
    → path_lookup (some namespace) (some path) true ≡ some found
    → removal_name path ≡ some name
    → last_of (components path) ≡ name
unfolding removal_name
last_name namespace path found name e h =
    let walked : step_walk namespace (components path) namespace.root_inode 0 ≡ some found =
      elim (Bool-cases (get_or path 0 0 == 0)) [
        | inl z ↦ absurd (ground (arith, e, z, path_lookup-walk namespace path))
        | inr live ↦ ground (arith, e, live, path_lookup-walk namespace path)
      ] in
    let short = step_walk-IsShort namespace (components path) namespace.root_inode 0 found walked in
    let scanned = scan_component-last_from (length path + 1) path [] (omega arith) short in
    let (g1, h1) = guard-eq-some _ _ h in
    let (g2, h2) = guard-eq-some _ _ h1 in sym scanned ∙ some_inj _ name h2

-- An entry is a directory of the number.
abbrev pub IsLinked : List Dirent → ℕ → Type 0
IsLinked es number =
    (j : ℕ) × (j < length es)
    × ((get_or es j zero_dirent).inode_number ≡ number)
    × ((get_or es j zero_dirent).type ≡ 2)

pub links_to-IsLinked :
    (es : List Dirent) (number : ℕ) → links_to es number ≡ true → IsLinked es number
unfolding links_to
links_to-IsLinked [] number h = absurd (ground (arith, h))
links_to-IsLinked (e ∷ es) number h = elim (Bool-cases (links_to es number)) [
  | inl more ↦ let (j, lt, a, b) = links_to-IsLinked es number more in (suc j, omega arith, a, b)
  | inr no_more ↦
      let hit : (e.inode_number == number && e.type == 2) ≡ true = ground arith in
      (0, omega arith, ground arith, ground arith)
]
