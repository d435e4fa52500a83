-- ===== src/Fs/Directory/Strings.antt =====
-- Names as C strings: `initrafs_name_length` is the length of one.
use initra_os.Base.{
  ℕ, zero, suc, ◌<◌, ◌≤◌, ◌≡◌, ◌≢◌, ◌∙◌, refl, ap, inl, inr, true, false, List, [], ◌∷◌, arith, leb,
  ◌==◌, ◌!=◌, if◌then◌else◌, length, get_or, take, first_from, first_from-some, first_from-none,
  Option-cases, Bool-cases,
}
use initra_os.Fs.Directory.{name_length}
use initra_os.Fs.Directory.Names.{text}

-- The bytes of a C string: those before the first zero byte.
unfoldable pub c_string : List ℕ → List ℕ
c_string [] = []
c_string (c ∷ cs) = let rest = c_string cs in if c == 0 then [] else c ∷ rest

c_string-take : (name : List ℕ) → take (length (c_string name)) name ≡ c_string name
unfolding c_string
c_string-take [] = refl
c_string-take (c ∷ cs) = elim (Bool-cases (c == 0)) [
  | inl z ↦ rw (c_string, z) refl
  | inr n ↦ rw (c_string, n) (ap (λ t. c ∷ t) (c_string-take cs))
]

inside_more :
    (c : ℕ) (cs : List ℕ) (n : ℕ)
    → (c == 0) ≡ false
    → ((j : ℕ) → j < n → get_or cs j 0 ≢ 0)
    → (j : ℕ) → j < suc n
    → get_or (c ∷ cs) j 0 ≢ 0
inside_more c cs n live h zero lt = ground arith
inside_more c cs n live h (suc j) lt = h j (omega arith)

-- The first zero byte, read past the end of the list where it has none.
pub c_string_end :
    (name : List ℕ)
    → (get_or name (length (c_string name)) 0 ≡ 0)
      × ((j : ℕ) → j < length (c_string name) → get_or name j 0 ≢ 0)
unfolding c_string
c_string_end [] = (refl, λ j h. absurd (omega arith))
c_string_end (c ∷ cs) = elim (Bool-cases (c == 0)) [
  | inl z ↦ rw (c_string, z) (ground arith, λ j h. absurd (omega arith))
  | inr n ↦
      rw (c_string, n)
        ((c_string_end cs).0, inside_more c cs (length (c_string cs)) n (c_string_end cs).1)
]

-- `initrafs_name_length` is the length of the C string, if that is at most 48.
pub name_length-c_string :
    (name : List ℕ)
    → name_length name ≡ (if leb (length (c_string name)) 48 then length (c_string name) else 0)
unfolding name_length
name_length-c_string name =
    let ends = c_string_end name in
    elim (Option-cases (first_from (λ i. get_or name i 0 == 0) 49 0)) [
      | inl e ↦
          let none_found = first_from-none (λ i. get_or name i 0 == 0) 49 0 in
          rw (e, name_length) (ground (arith, ends.0, none_found (length (c_string name)) e))
      | inr (k, e) ↦
          let f = first_from-some (λ i. get_or name i 0 == 0) 49 0 k e in
          rw (e, name_length)
            (ground
              (arith, ends.0, ends.1 k, f.passes, f.least (length (c_string name)), f.before_end))
    ]

pub text-c_string : (name : List ℕ) → length (c_string name) ≤ 48 → text name ≡ c_string name
text-c_string name h =
    ap (λ n. take n name) (ground (arith, name_length-c_string name)) ∙ c_string-take name

-- A name that has a length for the code is a C string of at most 48 bytes.
pub text-accepted : (name : List ℕ) → (name_length name != 0) ≡ true → text name ≡ c_string name
text-accepted name h = text-c_string name (ground (arith, h, name_length-c_string name))
