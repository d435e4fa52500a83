-- ===== src/Fs/Directory/Root.antt =====
-- The entries `.` and `..`, and the directory that `initrafs_root_directory_init` makes.
use initra_os.Base.{
  ℕ, ◌-◌, ◌≢◌, zero, suc, ◌≤◌, ◌≡◌, refl, false, none, some, List, [], ◌∷◌, arith, if◌then◌else◌,
  length, replicate, length-replicate, All,
}
use initra_os.Fs.Format.{Dirent, zero_dirent, type_directory}
use initra_os.Fs.Directory.{new_dirent}
use initra_os.Fs.Directory.Names.{key, same_text, same_text_iff}
use initra_os.Fs.Directory.Laws.{find, IsSized, IsUnique, IsValid}
use initra_os.Fs.Directory.Listing.{dot_text, dot_dot_text, root_directory_init, relink}

blank : ℕ → List Dirent
blank n = replicate n zero_dirent

find-blank : (n : ℕ) (k : List ℕ) → find k (blank n) ≡ none
unfolding find blank
find-blank zero k = refl
find-blank (suc n) k = ground (arith, find-blank n k)

blank-IsSized : (n : ℕ) → All IsSized (blank n)
unfolding blank
blank-IsSized zero = tt
blank-IsSized (suc n) = (omega arith, blank-IsSized n)

blank-IsUnique : (n : ℕ) → IsUnique (blank n)
unfolding blank
blank-IsUnique zero = tt
blank-IsUnique (suc n) = (λ l. absurd (l refl), blank-IsUnique n)

-- The entries `.` and `..` with the given inodes.
pub self_entry : ℕ → Dirent
self_entry n = new_dirent n type_directory dot_text 1

pub parent_entry : ℕ → Dirent
parent_entry p = new_dirent p type_directory dot_dot_text 2

keys : (n p : ℕ) → (key (self_entry n) ≡ dot_text) × (key (parent_entry p) ≡ dot_dot_text)
unfolding new_dirent self_entry parent_entry
keys n p = (refl, refl)

same_dots : (n p : ℕ) → same_text (key (parent_entry p)) (key (self_entry n)) ≡ false
unfolding new_dirent self_entry parent_entry same_text
same_dots n p = refl

entries :
    (n p : ℕ)
    → IsSized (self_entry n)
      × IsSized (parent_entry p)
      × ((self_entry n).inode_number ≡ n)
      × ((parent_entry p).inode_number ≡ p)
unfolding new_dirent self_entry parent_entry
entries n p = (omega arith, omega arith, refl, refl)

-- A directory of the given size with these two entries alone.
pub dots_only : ℕ → ℕ → ℕ → List Dirent
dots_only n p size = self_entry n ∷ parent_entry p ∷ blank (size - 2)

-- What is found in such a directory, when the inodes are live.
abbrev pub HasDots : ℕ → ℕ → ℕ → List Dirent → Type 0
HasDots n p size es =
    IsValid es
    × (length es ≡ size)
    × ((k : List ℕ)
        → find k es ≡ (
            if same_text dot_text k
            then some n
            else if same_text dot_dot_text k
            then some p
            else none))

pub dots_only-HasDots :
    (n p size : ℕ) → n ≢ 0 → p ≢ 0 → 2 ≤ size → HasDots n p size (dots_only n p size)
unfolding dots_only find
dots_only-HasDots n p size hn hp h = (
  record {
    sized = ((entries n p).0, ((entries n p).1, blank-IsSized (size - 2)));
    unique = (
      λ _. ground (arith, keys n p, same_dots n p, find-blank (size - 2) (key (self_entry n))),
      (λ _. find-blank (size - 2) (key (parent_entry p)), blank-IsUnique (size - 2)),
    );
  },
  unfold blank in omega (arith, length-replicate (size - 2) zero_dirent),
  λ k. ground (
    arith,
    keys n p,
    entries n p,
    same_text_iff (key (self_entry n)) k,
    same_text_iff (key (parent_entry p)) k,
    find-blank (size - 2) k,
  ),
)

pub root_directory_init-dots_only :
    (es : List Dirent)
    → 2 ≤ length es
    → root_directory_init (some es) ≡ some (dots_only 1 1 (length es))
unfolding root_directory_init dots_only self_entry parent_entry blank
root_directory_init-dots_only [] h = absurd (omega arith)
root_directory_init-dots_only (x ∷ []) h = absurd (omega arith)
root_directory_init-dots_only (x ∷ y ∷ es) h =
    let rest : suc (suc (length es)) - 2 ≡ length es = omega arith in rw (rest) (ground arith)

-- From any array of at least two entries, `initrafs_root_directory_init` makes a valid directory
-- of the same size in which exactly `.` and `..` are found, both with the root inode.
pub root_directory_init-IsValid :
    (es : List Dirent)
    → 2 ≤ length es
    → (es' : List Dirent) × (root_directory_init (some es) ≡ some es') × HasDots 1 1 (length es) es'
root_directory_init-IsValid es h = (
  dots_only 1 1 (length es),
  root_directory_init-dots_only es h,
  dots_only-HasDots 1 1 (length es) (omega arith) (omega arith) h,
)

-- The two entries with other inodes.
pub relinked : (n p a b size : ℕ) → relink (dots_only a b size) n p ≡ dots_only n p size
unfolding dots_only self_entry parent_entry new_dirent relink
relinked n p a b size = refl
