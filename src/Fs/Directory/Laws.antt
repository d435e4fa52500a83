-- ===== src/Fs/Directory/Laws.antt =====
-- A directory as a map from texts to inode numbers.
use initra_os.Base.{
  ℕ, ◌≤◌, ltb, leb, ◌&&◌, ap, ◌≡◌, ◌≢◌, refl, Bool, true, Option, none, some, List, [], ◌∷◌, arith,
  ◌!=◌, if◌then◌else◌, length, take, All,
}
use initra_os.Fs.Format.{Dirent}
use initra_os.Fs.Directory.{name_length, lookup_loop, directory_lookup}
use initra_os.Fs.Directory.Names.{text, key, has_key, name_length_lem, name_equals-has_key}
use initra_os.Fs.Directory.Strings.{c_string, name_length-c_string, text-c_string}

-- The inode of the first live entry under a text.
unfoldable pub find : List ℕ → List Dirent → Option ℕ
find k [] = none
find k (e ∷ es) = let rest = find k es in if has_key k e then some (e.inode_number) else rest

-- No entry claims a name longer than its array, and no two live entries have one text.
abbrev pub IsSized : Dirent → Type 0
IsSized e = e.name_length ≤ length e.name

abbrev pub IsUnique : List Dirent → Type 0
IsUnique [] = Unit
IsUnique (e ∷ es) = (e.inode_number ≢ 0 → find (key e) es ≡ none) × IsUnique es

pub record IsValid (es : List Dirent) : Type 0 where
  pub sized : All IsSized es
  pub unique : IsUnique es

-- A name that has a length for the code.
abbrev pub is_name : List ℕ → Bool
is_name name = name_length name != 0

lookup_loop_lem :
    (name : List ℕ) (n : ℕ) (es : List Dirent)
    → All IsSized es
    → n ≤ length name
    → lookup_loop name n es ≡ find (take n name) es
unfolding lookup_loop find
lookup_loop_lem name n [] h k = refl
lookup_loop_lem name n (e ∷ es) h k =
    rw (name_equals-has_key e name n h.0 k, lookup_loop_lem name n es h.1 k)

pub lookup_empty : (k : List ℕ) (es : List Dirent) → length es ≡ 0 → find k es ≡ none
unfolding find
lookup_empty k [] h = refl
lookup_empty k (e ∷ es) h = absurd (omega arith)

-- Where no entry's name length is beyond its array, `initrafs_directory_lookup` of a C string of 1
-- to 48 bytes gives the inode of the first live entry with these bytes as its text, if there is
-- one; of any other string, nothing.
pub directory_lookup_lem :
    (es : List Dirent) (name : List ℕ)
    → All IsSized es
    → directory_lookup (some es) (some name) true ≡ (
        if ltb 0 (length (c_string name)) && leb (length (c_string name)) 48
        then find (c_string name) es
        else none)
unfolding directory_lookup
directory_lookup_lem es name h = ground (
  arith,
  name_length_lem name,
  name_length-c_string name,
  λ (small : length (c_string name) ≤ 48). ap (λ k. find k es) (text-c_string name small),
  lookup_loop_lem name (name_length name) es h,
  lookup_empty (text name) es,
)
