-- ===== src/Fs/Directory.antt =====
-- Directory entries of fs/initrafs.c. An array with its entry count is one list; a C string is the
-- list of its bytes, and a read past the list's end is the terminator 0. Pointers that the code
-- tests against null are options, and an output pointer is a Boolean.
pub mod Names
pub mod Strings
pub mod Laws
pub mod Add
pub mod Remove
pub mod Listing
pub mod Empty
pub mod Root
mod Tests
use initra_os.Base.{
  ℕ, zero, suc, ◌+◌, ◌*◌, Bool, true, false, not, ◌&&◌, ◌||◌, Option, none, some, List, [], ◌∷◌,
  ◌++◌, ltb, leb, ◌==◌, ◌!=◌, if◌then◌else◌, length, get_or, set, replicate, first_from,
}
use initra_os.Fs.Format.{
  Dirent, zero_dirent, unused_inode, root_inode_number, max_name_length, type_file, type_directory,
  type_symlink, type_device, root_dir_entries,
}

abbrev pub dot : ℕ
dot = b'.'

-- `initrafs_copy_name`: the first `length` bytes of the source.
pub copy_name : List ℕ → List ℕ → ℕ → ℕ → List ℕ
copy_name destination source zero index = destination
copy_name destination source (suc rounds) index =
    copy_name (set destination index (get_or source index 0)) source rounds (index + 1)

-- 0 stands for a name of more than 48 bytes, too.
unfoldable pub name_length : List ℕ → ℕ
name_length name = elim (first_from (λ length. get_or name length 0 == 0) (max_name_length + 1) 0) [
  | none ↦ 0
  | some length ↦ length
]

unfoldable pub name_equals : Dirent → List ℕ → ℕ → Bool
name_equals entry name length =
    if entry.inode_number == unused_inode || entry.name_length != length
    then false
    else elim (first_from (λ i. get_or entry.name i 0 != get_or name i 0) length 0) [
      | none ↦ true
      | some _ ↦ false
    ]

unfoldable pub name_reserved : List ℕ → ℕ → Bool
name_reserved name length =
    (length == 1 && get_or name 0 0 == dot)
    || (length == 2 && get_or name 0 0 == dot && get_or name 1 0 == dot)

pub type_valid : ℕ → Bool
type_valid t = t == type_file || t == type_directory || t == type_symlink || t == type_device

lookup_loop : List ℕ → ℕ → List Dirent → Option ℕ
lookup_loop name length [] = none
lookup_loop name length (e ∷ es) =
    let rest = lookup_loop name length es in
    if name_equals e name length then some (e.inode_number) else rest

lookup_live : List Dirent → List ℕ → Option ℕ
lookup_live entries name =
    let n = name_length name in
    if length entries == 0
    then none
    else if n == 0 || ltb max_name_length n
    then none
    else lookup_loop name n entries

-- What is stored through `inode_number`; `none` is the return value 0.
unfoldable pub directory_lookup : Option (List Dirent) → Option (List ℕ) → Bool → Option ℕ
unfolding lookup_live lookup_loop
directory_lookup (some entries) (some name) true = lookup_live entries name
directory_lookup _ _ _ = none

-- The result of the scan for a free slot.
data Scan : Type 0 where
  duplicate : Scan
  slot : Option ℕ → Scan

add_loop : List ℕ → ℕ → List Dirent → ℕ → Option ℕ → Scan
add_loop name length [] index free = slot free
add_loop name length (e ∷ es) index free =
    let next = add_loop name length es (index + 1) (elim free [
      | some i ↦ some i
      | none ↦ if e.inode_number == unused_inode then some index else none
    ]) in
    if name_equals e name length then duplicate else next

pub new_dirent : ℕ → ℕ → List ℕ → ℕ → Dirent
unfolding copy_name
new_dirent inode_number t name length = record {
  inode_number = inode_number;
  type = t;
  name_length = length;
  name = copy_name (zero_dirent.name) name length 0;
}

add_live : List Dirent → ℕ → ℕ → List ℕ → Option (List Dirent)
add_live entries inode_number t name =
    let n = name_length name in
    if length entries == 0 || inode_number == unused_inode || not (type_valid t)
    then none
    else if n == 0 || ltb max_name_length n || name_reserved name n
    then none
    else elim (add_loop name n entries 0 none) [
      | duplicate ↦ none
      | slot none ↦ none
      | slot (some i) ↦ some (set entries i (new_dirent inode_number t name n))
    ]

-- The new entries; `none` is the return value 0, with nothing written.
pub directory_add : Option (List Dirent) → ℕ → ℕ → Option (List ℕ) → Option (List Dirent)
unfolding add_live
directory_add (some entries) inode_number t (some name) = add_live entries inode_number t name
directory_add _ inode_number t _ = none

pub remove_loop : List ℕ → ℕ → List Dirent → Option (List Dirent)
remove_loop name length [] = none
remove_loop name length (e ∷ es) =
    let rest = remove_loop name length es in
    if name_equals e name length
    then some (zero_dirent ∷ es)
    else elim rest [ none ↦ none | some es' ↦ some (e ∷ es') ]

remove_live : List Dirent → List ℕ → Option (List Dirent)
remove_live entries name =
    let n = name_length name in
    if length entries == 0
    then none
    else if n == 0 || ltb max_name_length n || name_reserved name n
    then none
    else remove_loop name n entries

unfoldable pub directory_remove : Option (List Dirent) → Option (List ℕ) → Option (List Dirent)
unfolding remove_live remove_loop
directory_remove (some entries) (some name) = remove_live entries name
directory_remove _ _ = none
