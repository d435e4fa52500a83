-- ===== src/Fs/Path/Split.antt =====
-- The components of a path, told apart from how the code finds them.
use native.Mathlib.Decide.{dec_lt}
use initra_os.Base.{
  ℕ, suc, ◌+◌, ◌≤◌, ◌<◌, ◌≡◌, ◌⊎◌, ◌∙◌, inl, inr, refl, sym, ap, subst, true, false, Option, none,
  some, List, [], ◌∷◌, arith, ◌==◌, if◌then◌else◌, length, get_or, Bool-cases,
}
use initra_os.Fs.Path.{
  slash, Next, finished, too_long, component, skip_slashes, read_component, path_next_component,
}

-- A component in front of others, unless it is empty.
abbrev pub push : List ℕ → List (List ℕ) → List (List ℕ)
push [] names = names
push (c ∷ cs) names = (c ∷ cs) ∷ names

-- The component that a path begins with, and the other components.
unfoldable pub pieces : List ℕ → List ℕ × List (List ℕ)
pieces [] = ([], [])
pieces (c ∷ cs) =
    let rest = pieces cs in
    if c == 0
    then ([], [])
    else if c == slash
    then ([], push rest.0 rest.1)
    else (c ∷ rest.0, rest.1)

-- All components of a path: what stands between slashes, up to the terminator.
abbrev pub components : List ℕ → List (List ℕ)
components path = push (pieces path).0 (pieces path).1

pieces_nil : pieces [] ≡ ([], [])
unfolding pieces
pieces_nil = refl

pieces_end : (c : ℕ) (cs : List ℕ) → (c == 0) ≡ true → pieces (c ∷ cs) ≡ ([], [])
unfolding pieces
pieces_end c cs e = rw (pieces, e) refl

pieces-slash : (c : ℕ) (cs : List ℕ) → (c == slash) ≡ true → pieces (c ∷ cs) ≡ ([], components cs)
unfolding pieces
pieces-slash c cs e = let live : (c == 0) ≡ false = ground arith in rw (pieces, live, e) refl

pieces_byte :
    (c : ℕ) (cs : List ℕ)
    → (c == 0) ≡ false
    → (c == slash) ≡ false
    → pieces (c ∷ cs) ≡ (c ∷ (pieces cs).0, (pieces cs).1)
unfolding pieces
pieces_byte c cs e f = rw (pieces, e, f) refl

components-skip_slashes : (path : List ℕ) → components (skip_slashes path) ≡ components path
unfolding skip_slashes
components-skip_slashes [] = refl
components-skip_slashes (c ∷ cs) = elim (Bool-cases (c == slash)) [
  | inr e ↦ let stop : skip_slashes (c ∷ cs) ≡ c ∷ cs = ground arith in ap components stop
  | inl e ↦
      let on : skip_slashes (c ∷ cs) ≡ skip_slashes cs = ground arith in
      ap components on
      ∙ (components-skip_slashes cs ∙ sym (ap (λ p. push p.0 p.1) (pieces-slash c cs e)))
]

length-skip_slashes : (path : List ℕ) → length (skip_slashes path) ≤ length path
unfolding skip_slashes
length-skip_slashes [] = omega arith
length-skip_slashes (c ∷ cs) = ground (arith, length-skip_slashes cs)

-- After the slashes, a path is at its end, or its first byte belongs to a component.
skip_slashes_first :
    (path : List ℕ)
    → (get_or (skip_slashes path) 0 0 ≡ 0)
      ⊎ ((c : ℕ) × (cs : List ℕ) × (skip_slashes path ≡ c ∷ cs)
          × ((c == 0) ≡ false)
          × ((c == slash) ≡ false))
unfolding skip_slashes
skip_slashes_first [] = inl refl
skip_slashes_first (c ∷ cs) = elim (Bool-cases (c == slash)) [
  | inl e ↦ rw (skip_slashes, e) (skip_slashes_first cs)
  | inr e ↦ elim (Bool-cases (c == 0)) [
    | inl z ↦ rw (skip_slashes, e) (inl (ground arith))
    | inr n ↦ rw (skip_slashes, e) (inr (c, cs, refl, n, e))
  ]
]

-- Reading a component gives the first piece, if it is short enough.
data Component (piece : List ℕ × List (List ℕ)) (size index : ℕ) (r : Option (List ℕ × List ℕ))
    : Type 0 where
  whole :
      (rest : List ℕ)
      → r ≡ some (piece.0, rest)
      → components rest ≡ piece.1
      → length rest + length piece.0 ≤ size
      → (length piece.0 ≡ 0) ⊎ (index + length piece.0 ≤ 48)
      → Component piece size index r
  long : r ≡ none → 48 < index + length piece.0 → Component piece size index r

read_component-Component :
    (path : List ℕ) (index : ℕ)
    → index ≤ 48
    → Component (pieces path) (length path) index (read_component path index)
unfolding read_component
read_component-Component [] index h =
    subst (λ p. Component p 0 index (some ([], []))) (sym pieces_nil)
      (whole [] refl (ap (λ p. push p.0 p.1) pieces_nil) (omega arith) (inl refl))
read_component-Component (c ∷ cs) index h = elim (Bool-cases (c == 0)) [
  | inl z ↦
      subst (λ p. Component p (suc (length cs)) index (read_component (c ∷ cs) index))
        (sym (pieces_end c cs z))
        (whole (c ∷ cs) (ground arith) (ap (λ p. push p.0 p.1) (pieces_end c cs z)) (omega arith)
          (inl refl))
  | inr n ↦ elim (Bool-cases (c == slash)) [
    | inl e ↦
        subst (λ p. Component p (suc (length cs)) index (read_component (c ∷ cs) index))
          (sym (pieces-slash c cs e))
          (whole (c ∷ cs) (ground arith) (ap (λ p. push p.0 p.1) (pieces-slash c cs e))
            (omega arith) (inl refl))
    | inr e ↦
        subst (λ p. Component p (suc (length cs)) index (read_component (c ∷ cs) index))
          (sym (pieces_byte c cs n e))
          (elim (dec_lt index 48) [
            | no full ↦ long (ground arith) (omega arith)
            | yes room ↦ elim (read_component-Component cs (index + 1) (omega arith)) [
              | long q big ↦ long (ground (arith, q)) (omega arith)
              | whole rest q r size small ↦
                  whole rest (ground (arith, q)) r (omega arith) (inr (omega (arith, small)))
            ]
          ])
  ]
]

-- The next component of a path, as the list of all components has it.
pub data IsNext (path : List ℕ) (r : Next) : Type 0 where
  at_end : r ≡ finished → components path ≡ [] → IsNext path r
  beyond :
      (name : List ℕ) (names : List (List ℕ))
      → r ≡ too_long
      → components path ≡ name ∷ names
      → 48 < length name
      → IsNext path r
  another :
      (name rest : List ℕ)
      → r ≡ component name rest
      → components path ≡ name ∷ components rest
      → length name ≤ 48
      → length rest < length path
      → IsNext path r

next_zero : (path : List ℕ) → (get_or path 0 0 == 0) ≡ true → components path ≡ []
next_zero [] e = ap (λ p. push p.0 p.1) pieces_nil
next_zero (c ∷ cs) e = ap (λ p. push p.0 p.1) (pieces_end c cs e)

pub path_next_component-IsNext : (path : List ℕ) → IsNext path (path_next_component path)
unfolding path_next_component
path_next_component-IsNext path = elim (skip_slashes_first path) [
  | inl e ↦
      let z : (get_or (skip_slashes path) 0 0 == 0) ≡ true = ground arith in
      at_end (rw (path_next_component, z) refl)
        (sym (components-skip_slashes path) ∙ next_zero (skip_slashes path) z)
  | inr (c, cs, e, n, s) ↦
      let live : (get_or (skip_slashes path) 0 0 == 0) ≡ false = rw (e) n in
      let all : components path ≡ components (c ∷ cs) =
        sym (components-skip_slashes path) ∙ ap components e in
      let first = pieces_byte c cs n s in
      let names : components (c ∷ cs) ≡ (pieces (c ∷ cs)).0 ∷ (pieces (c ∷ cs)).1 =
        subst (λ p. push p.0 p.1 ≡ p.0 ∷ p.1) (sym first) refl in
      let some_byte = ap (λ p. length p.0) first in
      elim (read_component-Component (c ∷ cs) 0 (omega arith)) [
        | long q big ↦
            beyond (pieces (c ∷ cs)).0 (pieces (c ∷ cs)).1
              (rw (path_next_component, live, e, q) refl) (all ∙ names) (omega (arith, big))
        | whole rest q r size small ↦
            another (pieces (c ∷ cs)).0 rest (rw (path_next_component, live, e, q) refl)
              (all ∙ (names ∙ ap (λ t. (pieces (c ∷ cs)).0 ∷ t) (sym r))) (omega (arith, small))
              (omega (arith, size, some_byte, length-skip_slashes path, ap length e))
      ]
]
