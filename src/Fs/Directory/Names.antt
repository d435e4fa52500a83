-- ===== src/Fs/Directory/Names.antt =====
-- Names as texts: what `initrafs_name_length` and `initrafs_name_equals` decide.
use native.Mathlib.Decide.{ℕ_discrete, dec_lt}
use initra_os.Base.{
  ℕ, zero, suc, ◌+◌, ◌≤◌, ◌≡◌, ◌↔◌, refl, ap, ◌∙◌, inl, inr, Bool, true, false, ◌&&◌, none, List,
  [], ◌∷◌, arith, ltb, leb, ◌==◌, ◌!=◌, if◌then◌else◌, length, get_or, set, take, first_from,
  first_from-some, first_from-none, IsFirst, take_ext, get_or-take, get_or-out, length-take,
  length-set, get_or-set_self, get_or-set_ne, Option-cases, suc,
}
use initra_os.Fs.Format.{Dirent, zero_dirent}
use initra_os.Fs.Directory.{copy_name, name_length, name_equals, new_dirent}

-- The text of a C string, and of a directory entry.
abbrev pub text : List ℕ → List ℕ
text name = take (name_length name) name

abbrev pub key : Dirent → List ℕ
key e = take e.name_length e.name

unfoldable pub same_text : List ℕ → List ℕ → Bool
same_text [] [] = true
same_text [] (y ∷ ys) = false
same_text (x ∷ xs) [] = false
same_text (x ∷ xs) (y ∷ ys) = x == y && same_text xs ys

pub same_text_iff : (xs ys : List ℕ) → (same_text xs ys ≡ true) ↔ (xs ≡ ys)
unfolding same_text
same_text_iff [] [] = (λ _. refl, λ _. refl)
same_text_iff [] (y ∷ ys) = (λ h. cc, λ h. cc)
same_text_iff (x ∷ xs) [] = (λ h. cc, λ h. cc)
same_text_iff (x ∷ xs) (y ∷ ys) = ground (arith, same_text_iff xs ys)

-- A live entry under the given text.
abbrev pub has_key : List ℕ → Dirent → Bool
has_key k e = e.inode_number != 0 && same_text (key e) k

-- The length that the code finds: the first zero byte, at most 48 bytes in.
pub name_length_lem : (name : List ℕ) → (name_length name ≤ 48) × (name_length name ≤ length name)
unfolding name_length
name_length_lem name = elim (Option-cases (first_from (λ i. get_or name i 0 == 0) 49 0)) [
  | inl e ↦ rw (e, name_length) (omega arith)
  | inr (k, e) ↦
      let f = first_from-some (λ i. get_or name i 0 == 0) 49 0 k e in
      rw (e, name_length) (omega (arith, f.before_end), inside k f)
]
  where
    inside : (k : ℕ) → IsFirst (λ i. get_or name i 0 == 0) 49 0 k → k ≤ length name
    inside k f = elim (dec_lt (length name) k) [
      | yes h ↦ absurd (
          ground (
            arith,
            f.least (length name) (omega arith) h,
            get_or-out name (length name) 0 (omega arith),
          ))
      | no h ↦ omega arith
    ]

bytes_agree :
    (n : ℕ) (xs ys : List ℕ)
    → n ≤ length xs
    → n ≤ length ys
    → (first_from (λ i. get_or xs i 0 != get_or ys i 0) n 0 ≡ none) ↔ (take n xs ≡ take n ys)
bytes_agree n xs ys h k = (same, agree)
  where
    differ_at : ℕ → Bool
    differ_at i = get_or xs i 0 != get_or ys i 0

    same : first_from differ_at n 0 ≡ none → take n xs ≡ take n ys
    same e =
        take_ext n xs ys 0 h k
          (λ i lt. ground (arith, first_from-none differ_at n 0 i e (omega arith) (omega arith)))

    agree : take n xs ≡ take n ys → first_from differ_at n 0 ≡ none
    agree t = elim (Option-cases (first_from differ_at n 0)) [
      | inl e ↦ e
      | inr (j, e) ↦
          let f = first_from-some differ_at n 0 j e in
          absurd (
            ground (
              arith,
              f.passes,
              f.before_end,
              get_or-take n xs j 0,
              get_or-take n ys j 0,
              ap (λ l. get_or l j 0) t,
            ))
    ]

key_lengths :
    (e : Dirent) (name : List ℕ) (n : ℕ)
    → e.name_length ≤ length e.name
    → n ≤ length name
    → key e ≡ take n name
    → e.name_length ≡ n
key_lengths e name n h k t =
    omega (arith, length-take e.name_length e.name, length-take n name, ap length t)

-- Where the entry's name length is within its array and the length within the name,
-- `initrafs_name_equals` holds exactly for a live entry whose text is the name's first bytes.
pub name_equals-has_key :
    (e : Dirent) (name : List ℕ) (n : ℕ)
    → e.name_length ≤ length e.name
    → n ≤ length name
    → name_equals e name n ≡ has_key (take n name) e
unfolding name_equals
name_equals-has_key e name n h k = elim (ℕ_discrete e.name_length n) [
  | yes q ↦ ground (
    arith,
    bytes_agree n e.name name (omega arith) k,
    same_text_iff (key e) (take n name),
    ap (λ t. take t e.name) q,
  )
  | no q ↦ ground (
    arith,
    same_text_iff (key e) (take n name),
    λ (t : key e ≡ take n name). q (key_lengths e name n h k t),
  )
]

get_or-copy_name :
    (d s : List ℕ) (r i j : ℕ)
    → i + r ≤ length d
    → get_or (copy_name d s r i) j 0
      ≡ (if leb i j && ltb j (i + r) then get_or s j 0 else get_or d j 0)
unfolding copy_name
get_or-copy_name d s zero i j h = ground arith
get_or-copy_name d s (suc r) i j h = ground (
  arith,
  length-set d i (get_or s i 0),
  get_or-copy_name (set d i (get_or s i 0)) s r (i + 1) j,
  get_or-set_self d i (get_or s i 0) 0,
  get_or-set_ne d i j (get_or s i 0) 0,
)

length-copy_name : (d s : List ℕ) (r i : ℕ) → length (copy_name d s r i) ≡ length d
unfolding copy_name
length-copy_name d s zero i = refl
length-copy_name d s (suc r) i =
    length-copy_name (set d i (get_or s i 0)) s r (i + 1) ∙ length-set d i (get_or s i 0)

-- A new entry has the text that it was made from.
pub key-new_dirent :
    (inode t : ℕ) (name : List ℕ) (n : ℕ)
    → n ≤ 48
    → n ≤ length name
    → (key (new_dirent inode t name n) ≡ take n name)
      × ((new_dirent inode t name n).name_length ≤ length (new_dirent inode t name n).name)
unfolding new_dirent
key-new_dirent inode t name n h k =
    let name' = copy_name zero_dirent.name name n 0 in
    let size : length name' ≡ 48 = length-copy_name zero_dirent.name name n 0 in
    (
      take_ext n name' name 0 (omega (arith, size)) k
          (λ i lt. ground (arith, get_or-copy_name zero_dirent.name name n 0 i)),
      omega (arith, size),
    )
