-- ===== src/Fs/Directory/Add.antt =====
-- `initrafs_directory_add` on the map from texts to inode numbers.
use native.Mathlib.Decide.{ℕ_discrete}
use initra_os.Base.{
  subst, ℕ, suc, ◌+◌, ◌≤◌, ◌≡◌, ◌≢◌, refl, sym, ap, ◌∙◌, inl, inr, Bool, true, false, not, ◌&&◌,
  Option, none, some, List, [], ◌∷◌, arith, ◌==◌, ◌!=◌, if◌then◌else◌, length, set, take, All,
  Option-cases,
}
use initra_os.Fs.Format.{Dirent}
use initra_os.Fs.Directory.{
  name_length, name_reserved, type_valid, Scan, duplicate, slot, add_loop, new_dirent,
  directory_add,
}
use initra_os.Fs.Directory.Names.{
  text, key, same_text, same_text_iff, has_key, name_length_lem, name_equals-has_key,
  key-new_dirent,
}
use initra_os.Fs.Directory.Strings.{c_string, text-accepted}
use initra_os.Fs.Directory.Laws.{find, IsSized, IsUnique, IsValid, is_name}

-- Put an entry into the first free slot.
pub place : Dirent → List Dirent → Option (List Dirent)
place d [] = none
place d (e ∷ es) =
    let rest = place d es in
    if e.inode_number == 0
    then some (d ∷ es)
    else elim rest [ none ↦ none | some es' ↦ some (e ∷ es') ]

free_slot : List Dirent → Option ℕ
free_slot [] = none
free_slot (e ∷ es) =
    let rest = free_slot es in
    if e.inode_number == 0 then some 0 else elim rest [ none ↦ none | some i ↦ some (suc i) ]

place-free_slot :
    (d : Dirent) (es : List Dirent)
    → place d es ≡ elim (free_slot es) as (λ _. Option (List Dirent)) [
      | none ↦ none
      | some i ↦ some (set es i d)
    ]
unfolding place free_slot
place-free_slot d [] = refl
place-free_slot d (e ∷ es) = ground (arith, place-free_slot d es)

-- The scan, once a slot is known, only looks for the name.
add_loop_known :
    (name : List ℕ) (n : ℕ) (es : List Dirent) (index i : ℕ)
    → All IsSized es
    → n ≤ length name
    → add_loop name n es index (some i)
      ≡ elim (find (take n name) es) as (λ _. Scan) [ none ↦ slot (some i) | some _ ↦ duplicate ]
unfolding add_loop find
add_loop_known name n [] index i h k = refl
add_loop_known name n (e ∷ es) index i h k =
    ground (arith, name_equals-has_key e name n h.0 k, add_loop_known name n es (index + 1) i h.1 k)

add_loop_lem :
    (name : List ℕ) (n : ℕ) (es : List Dirent) (index : ℕ)
    → All IsSized es
    → n ≤ length name
    → add_loop name n es index none ≡ elim (find (take n name) es) as (λ _. Scan) [
      | none ↦ elim (free_slot es) as (λ _. Scan) [
        | none ↦ slot none
        | some i ↦ slot (some (index + i))
      ]
      | some _ ↦ duplicate
    ]
unfolding add_loop find free_slot
add_loop_lem name n [] index h k = refl
add_loop_lem name n (e ∷ es) index h k = ground (
  arith,
  name_equals-has_key e name n h.0 k,
  add_loop_lem name n es (index + 1) h.1 k,
  add_loop_known name n es (index + 1) index h.1 k,
)

-- `es'` is `es` with `d` in the place of its first free slot.
data Placed (d : Dirent) : List Dirent → List Dirent → Type 0 where
  here : {x : Dirent} {es : List Dirent} → x.inode_number ≡ 0 → Placed d (x ∷ es) (d ∷ es)
  there :
      {x : Dirent} {es es' : List Dirent}
      → x.inode_number ≢ 0
      → Placed d es es'
      → Placed d (x ∷ es) (x ∷ es')

place-Placed : (d : Dirent) (es es' : List Dirent) → place d es ≡ some es' → Placed d es es'
unfolding place
place-Placed d [] es' e = cc
place-Placed d (x ∷ es) es' e = elim (ℕ_discrete x.inode_number 0) [
  | yes dead ↦ subst (Placed d (x ∷ es)) (ground arith) (here {es = es} dead)
  | no live ↦ elim (Option-cases (place d es)) [
    | inl full ↦ absurd (ground arith)
    | inr (rest, e') ↦
        subst (Placed d (x ∷ es)) (ground arith) (there live (place-Placed d es rest e'))
  ]
]

-- A placed entry is found under its text, and every other text as before.
find-Placed :
    (d : Dirent) (k : List ℕ) {es es' : List Dirent}
    → d.inode_number ≢ 0
    → find (key d) es ≡ none
    → Placed d es es'
    → find k es' ≡ (if same_text (key d) k then some d.inode_number else find k es)
unfolding find
find-Placed d k live fresh (here dead) = ground (arith, same_text_iff (key d) k)
find-Placed d k live fresh (there {x = x} {es = es} used p) = ground (
  arith,
  same_text_iff (key d) k,
  find-Placed d k live (fresh_rest (has_key (key d) x) (find (key d) es) x.inode_number fresh) p,
)
  where
    fresh_rest :
        (b : Bool) (rest : Option ℕ) (n : ℕ) → (if b then some n else rest) ≡ none → rest ≡ none
    fresh_rest b rest n h = ground arith

Placed-IsValid :
    (d : Dirent) {es es' : List Dirent}
    → d.inode_number ≢ 0
    → IsSized d
    → find (key d) es ≡ none
    → Placed d es es'
    → All IsSized es
    → IsUnique es
    → All IsSized es' × IsUnique es' × (length es' ≡ length es)
unfolding find
Placed-IsValid d live size fresh (here {x = x} dead) sized unique =
    ((size, sized.1), (λ _. ground arith, unique.1), refl)
Placed-IsValid d live size fresh (there {x = x} {es = es} {es' = es'} used p) sized unique =
    let rest : find (key d) es ≡ none = ground arith in
    let ih = Placed-IsValid d live size rest p sized.1 unique.1 in
    (
      (sized.0, ih.0),
      (
        λ l. ground (
          arith,
          find-Placed d (key x) live rest p,
          same_text_iff (key d) (key x),
          same_text_iff (key x) (key d),
          unique.0 l,
        ),
        ih.1,
      ),
      ap suc ih.2,
    )

-- What `initrafs_directory_add` asks of its arguments.
abbrev pub can_add : List Dirent → ℕ → ℕ → List ℕ → Bool
can_add es inode t name =
    inode != 0
    && type_valid t
    && is_name name
    && not (name_reserved name (name_length name))
    && elim (find (text name) es) [ none ↦ true | some _ ↦ false ]

place-empty : (d : Dirent) (es : List Dirent) → length es ≡ 0 → place d es ≡ none
unfolding place
place-empty d [] h = refl
place-empty d (x ∷ es) h = absurd (omega arith)

-- Where no entry's name length is beyond its array, `initrafs_directory_add` puts the new entry
-- into the first free slot, if there is one, when the inode is not 0, the type is valid, the name
-- has 1 to 48 bytes, is neither `.` nor `..` and its text is not found; in all other cases it
-- fails.
pub directory_add_lem :
    (es : List Dirent) (inode t : ℕ) (name : List ℕ)
    → All IsSized es
    → directory_add (some es) inode t (some name) ≡ (
        if can_add es inode t name
        then place (new_dirent inode t name (name_length name)) es
        else none)
unfolding directory_add
directory_add_lem es inode t name h = ground (
  arith,
  name_length_lem name,
  add_loop_lem name (name_length name) es 0 h,
  place-free_slot (new_dirent inode t name (name_length name)) es,
  place-empty (new_dirent inode t name (name_length name)) es,
)

accepted_cases :
    (b : Bool) (o : Option (List Dirent)) (es' : List Dirent)
    → (if b then o else none) ≡ some es'
    → (b ≡ true) × (o ≡ some es')
accepted_cases b o es' h = ground arith

-- On a valid directory, a successful `initrafs_directory_add` leaves a valid directory of the same
-- size in which the bytes of the new name, a C string, are found with the new inode, and every
-- other text as before.
pub directory_add-IsValid :
    (es es' : List Dirent) (inode t : ℕ) (name : List ℕ)
    → IsValid es
    → directory_add (some es) inode t (some name) ≡ some es'
    → IsValid es'
      × (length es' ≡ length es)
      × ((k : List ℕ)
          → find k es' ≡ (if same_text (c_string name) k then some inode else find k es))
unfolding new_dirent
directory_add-IsValid es es' inode t name v e = (
  record { sized = kept.0; unique = kept.1 },
  kept.2,
  λ k.
      find-Placed d k live fresh placed
      ∙ ap (λ u. if same_text u k then some inode else find k es)
          (made.0 ∙ text-accepted name (ground (arith, accepted.0))),
)
  where
    d : Dirent
    d = new_dirent inode t name (name_length name)

    made : (key d ≡ text name) × IsSized d
    made =
        key-new_dirent inode t name (name_length name) (name_length_lem name).0
          (name_length_lem name).1

    accepted : (can_add es inode t name ≡ true) × (place d es ≡ some es')
    accepted =
        accepted_cases (can_add es inode t name) (place d es) es'
          (sym (directory_add_lem es inode t name v.sized) ∙ e)

    live : d.inode_number ≢ 0
    live = ground (arith, accepted.0)

    fresh : find (key d) es ≡ none
    fresh = rw (made.0) (ground (arith, accepted.0))

    placed : Placed d es es'
    placed = place-Placed d es es' accepted.1

    kept : All IsSized es' × IsUnique es' × (length es' ≡ length es)
    kept = Placed-IsValid d live made.1 fresh placed v.sized v.unique
