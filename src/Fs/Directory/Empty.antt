-- ===== src/Fs/Directory/Empty.antt =====
-- `initrafs_directory_is_empty` of fs/initrafs.c.
use initra_os.Base.{
  ℕ, suc, ◌≤◌, ◌≡◌, ◌≢◌, ◌↔◌, ◌⊎◌, refl, Bool, true, false, ◌&&◌, ◌||◌, Option, none, some, List,
  [], ◌∷◌, arith, ltb, ◌==◌, if◌then◌else◌, length, get_or, take, zero, All,
}
use initra_os.Fs.Format.{Dirent, unused_inode, root_dir_entries}
use initra_os.Fs.Directory.{dot}
use initra_os.Fs.Directory.Names.{key, same_text, same_text_iff}
use initra_os.Fs.Directory.Listing.{dot_text, dot_dot_text}
use initra_os.Fs.Directory.Laws.{find, IsSized}

-- An entry that the emptiness test passes over.
unfoldable pub passed_over : Dirent → Bool
passed_over e =
    e.inode_number == unused_inode
    || (e.name_length == 1 && get_or e.name 0 0 == dot)
    || (e.name_length == 2 && get_or e.name 0 0 == dot && get_or e.name 1 0 == dot)

pub empty_loop : List Dirent → Bool
unfolding passed_over
empty_loop [] = true
empty_loop (e ∷ es) = let rest = empty_loop es in if passed_over e then rest else false

unfoldable pub directory_is_empty : Option (List Dirent) → Bool
unfolding empty_loop
directory_is_empty none = false
directory_is_empty (some entries) =
    if ltb (length entries) root_dir_entries then false else empty_loop entries

abbrev is_dots : List ℕ → Bool
is_dots k = same_text k dot_text || same_text k dot_dot_text

one_dot :
    (n : ℕ) (xs : List ℕ)
    → n ≤ length xs
    → same_text (take n xs) dot_text ≡ (n == 1 && get_or xs 0 0 == dot)
unfolding same_text
one_dot zero xs h = ground arith
one_dot (suc n) [] h = absurd (omega arith)
one_dot (suc zero) (x ∷ xs) h = ground arith
one_dot (suc (suc n)) (x ∷ []) h = absurd (omega arith)
one_dot (suc (suc n)) (x ∷ y ∷ xs) h = ground arith

two_dots :
    (n : ℕ) (xs : List ℕ)
    → n ≤ length xs
    → same_text (take n xs) dot_dot_text ≡ (n == 2 && get_or xs 0 0 == dot && get_or xs 1 0 == dot)
unfolding same_text
two_dots zero xs h = ground arith
two_dots (suc n) [] h = absurd (omega arith)
two_dots (suc zero) (x ∷ xs) h = ground arith
two_dots (suc (suc n)) (x ∷ []) h = absurd (omega arith)
two_dots (suc (suc zero)) (x ∷ y ∷ xs) h = ground arith
two_dots (suc (suc (suc n))) (x ∷ y ∷ []) h = absurd (omega arith)
two_dots (suc (suc (suc n))) (x ∷ y ∷ z ∷ xs) h = ground arith

passed_over-is_dots :
    (e : Dirent) → IsSized e → passed_over e ≡ (e.inode_number == 0 || is_dots (key e))
unfolding passed_over
passed_over-is_dots e h =
    ground (arith, one_dot e.name_length e.name h, two_dots e.name_length e.name h)

empty_loop_sound :
    (es : List Dirent) (k : List ℕ)
    → All IsSized es
    → empty_loop es ≡ true
    → find k es ≢ none
    → is_dots k ≡ true
unfolding empty_loop find
empty_loop_sound [] k h p f = absurd (f refl)
empty_loop_sound (e ∷ es) k h p f =
    ground (arith, passed_over-is_dots e h.0, empty_loop_sound es k h.1, same_text_iff (key e) k)

find_rest : (k : List ℕ) (e : Dirent) (es : List Dirent) → find k (e ∷ es) ≡ none → find k es ≡ none
unfolding find
find_rest k e es z = ground arith

empty_loop_complete :
    (es : List Dirent)
    → All IsSized es
    → ((k : List ℕ) → find k es ≢ none → is_dots k ≡ true)
    → empty_loop es ≡ true
unfolding empty_loop find
empty_loop_complete [] h f = refl
empty_loop_complete (e ∷ es) h f =
    let rest = empty_loop_complete es h.1 (λ k g. f k (λ z. g (find_rest k e es z))) in
    ground (arith, passed_over-is_dots e h.0, rest, same_text_iff (key e) (key e), f (key e))

dots_cases : (k : List ℕ) → is_dots k ≡ true → (k ≡ dot_text) ⊎ (k ≡ dot_dot_text)
dots_cases k h = ground (arith, same_text_iff k dot_text, same_text_iff k dot_dot_text)

cases_dots : (k : List ℕ) → (k ≡ dot_text) ⊎ (k ≡ dot_dot_text) → is_dots k ≡ true
cases_dots k h = ground (arith, same_text_iff k dot_text, same_text_iff k dot_dot_text)

-- Where no entry's name length is beyond its array, `initrafs_directory_is_empty` holds exactly
-- when there are at least two entries and no text but `.` and `..` is found.
pub directory_is_empty_iff :
    (es : List Dirent)
    → All IsSized es
    → (directory_is_empty (some es) ≡ true)
      ↔ ((2 ≤ length es) × ((k : List ℕ) → find k es ≢ none → (k ≡ dot_text) ⊎ (k ≡ dot_dot_text)))
unfolding directory_is_empty
directory_is_empty_iff es h = (
  λ p. (ground arith, λ k f. dots_cases k (empty_loop_sound es k h (ground arith) f)),
  λ q. let rest = empty_loop_complete es h (λ k f. cases_dots k (q.1 k f)) in ground arith,
)
