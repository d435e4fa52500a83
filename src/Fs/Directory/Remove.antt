-- ===== src/Fs/Directory/Remove.antt =====
-- `initrafs_directory_remove` on the map from texts to inode numbers.
use initra_os.Base.{
  ℕ, suc, ◌≤◌, take, ◌≡◌, refl, sym, ap, ◌∙◌, subst, inl, inr, Bool, true, false, not, ◌&&◌, Option,
  none, some, List, [], ◌∷◌, arith, if◌then◌else◌, length, All, Option-cases, Bool-cases,
}
use initra_os.Fs.Format.{Dirent, zero_dirent}
use initra_os.Fs.Directory.{name_length, name_reserved, remove_loop, directory_remove}
use initra_os.Fs.Directory.Names.{
  text, key, same_text, same_text_iff, has_key, name_length_lem, name_equals-has_key,
}
use initra_os.Fs.Directory.Strings.{c_string, text-accepted}
use initra_os.Fs.Directory.Laws.{find, IsSized, IsUnique, IsValid, is_name}

-- Clear the first live entry under a text.
pub erase : List ℕ → List Dirent → Option (List Dirent)
erase k [] = none
erase k (e ∷ es) =
    let rest = erase k es in
    if has_key k e
    then some (zero_dirent ∷ es)
    else elim rest [ none ↦ none | some es' ↦ some (e ∷ es') ]

remove_loop-erase :
    (name : List ℕ) (n : ℕ) (es : List Dirent)
    → All IsSized es
    → n ≤ length name
    → remove_loop name n es ≡ erase (take n name) es
unfolding remove_loop erase
remove_loop-erase name n [] h k = refl
remove_loop-erase name n (e ∷ es) h k =
    rw (name_equals-has_key e name n h.0 k, remove_loop-erase name n es h.1 k)

-- `es'` is `es` with its first entry under `k` cleared.
data Erased (k : List ℕ) : List Dirent → List Dirent → Type 0 where
  here : {x : Dirent} {es : List Dirent} → has_key k x ≡ true → Erased k (x ∷ es) (zero_dirent ∷ es)
  there :
      {x : Dirent} {es es' : List Dirent}
      → has_key k x ≡ false
      → Erased k es es'
      → Erased k (x ∷ es) (x ∷ es')

erase-Erased : (k : List ℕ) (es es' : List Dirent) → erase k es ≡ some es' → Erased k es es'
unfolding erase
erase-Erased k [] es' e = cc
erase-Erased k (x ∷ es) es' e = elim (Bool-cases (has_key k x)) [
  | inl hit ↦ subst (Erased k (x ∷ es)) (ground arith) (here {es = es} hit)
  | inr miss ↦ elim (Option-cases (erase k es)) [
    | inl full ↦ absurd (ground arith)
    | inr (rest, e') ↦
        subst (Erased k (x ∷ es)) (ground arith) (there miss (erase-Erased k es rest e'))
  ]
]

find-Erased :
    (k j : List ℕ) {es es' : List Dirent}
    → Erased k es es'
    → IsUnique es
    → find j es' ≡ (if same_text k j then none else find j es)
unfolding find
find-Erased k j (here {x = x} {es = es} hit) unique = ground (
  arith,
  same_text_iff k j,
  same_text_iff (key x) k,
  same_text_iff (key x) j,
  unique.0,
  ap (λ t. find t es),
)
find-Erased k j (there {x = x} {es = es} miss p) unique =
    ground (arith, same_text_iff k j, find-Erased k j p unique.1)

Erased-IsValid :
    (k : List ℕ) {es es' : List Dirent}
    → Erased k es es'
    → All IsSized es
    → IsUnique es
    → All IsSized es' × IsUnique es' × (length es' ≡ length es)
unfolding find
Erased-IsValid k (here hit) sized unique =
    ((omega arith, sized.1), (λ live. absurd (live refl), unique.1), refl)
Erased-IsValid k (there {x = x} miss p) sized unique =
    let ih = Erased-IsValid k p sized.1 unique.1 in
    (
      (sized.0, ih.0),
      (λ live. ground (arith, find-Erased k (key x) p unique.1, unique.0 live), ih.1),
      ap suc ih.2,
    )

erase-none : (k : List ℕ) (es : List Dirent) → erase k es ≡ none → find k es ≡ none
unfolding erase find
erase-none k [] e = refl
erase-none k (x ∷ es) e = ground (arith, erase-none k es)

erase-empty : (k : List ℕ) (es : List Dirent) → length es ≡ 0 → erase k es ≡ none
unfolding erase
erase-empty k [] h = refl
erase-empty k (x ∷ es) h = absurd (omega arith)

-- Where no entry's name length is beyond its array, `initrafs_directory_remove` clears the first
-- live entry with the name's text, if there is one, when the name has 1 to 48 bytes and is neither
-- `.` nor `..`; in all other cases it fails.
pub directory_remove_lem :
    (es : List Dirent) (name : List ℕ)
    → All IsSized es
    → directory_remove (some es) (some name) ≡ (
        if is_name name && not (name_reserved name (name_length name))
        then erase (text name) es
        else none)
unfolding directory_remove
directory_remove_lem es name h = ground (
  arith,
  name_length_lem name,
  remove_loop-erase name (name_length name) es h,
  erase-empty (text name) es,
)

accepted_cases :
    (b : Bool) (o : Option (List Dirent)) (es' : List Dirent)
    → (if b then o else none) ≡ some es'
    → o ≡ some es'
accepted_cases b o es' h = ground arith

accepted_named :
    (b c : Bool) (o : Option (List Dirent)) (es' : List Dirent)
    → (if b && c then o else none) ≡ some es'
    → b ≡ true
accepted_named b c o es' h = ground arith

-- On a valid directory, a successful `initrafs_directory_remove` leaves a valid directory of the
-- same size in which the bytes of the name, a C string, are not found, and every other text as
-- before.
pub directory_remove-IsValid :
    (es es' : List Dirent) (name : List ℕ)
    → IsValid es
    → directory_remove (some es) (some name) ≡ some es'
    → IsValid es'
      × (length es' ≡ length es)
      × ((k : List ℕ) → find k es' ≡ (if same_text (c_string name) k then none else find k es))
directory_remove-IsValid es es' name v e = (
  record { sized = kept.0; unique = kept.1 },
  kept.2,
  λ k.
      find-Erased (text name) k erased v.unique
      ∙ ap (λ u. if same_text u k then none else find k es) (text-accepted name named),
)
  where
    named : is_name name ≡ true
    named = accepted_named _ _ _ es' (sym (directory_remove_lem es name v.sized) ∙ e)

    erased : Erased (text name) es es'
    erased = erase-Erased (text name) es es' (
        accepted_cases (is_name name && not (name_reserved name (name_length name))) _ es'
          (sym (directory_remove_lem es name v.sized) ∙ e))

    kept : All IsSized es' × IsUnique es' × (length es' ≡ length es)
    kept = Erased-IsValid (text name) erased v.sized v.unique
