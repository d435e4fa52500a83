-- ===== src/Fs/Directory/Tests.antt =====
-- A folder of four slots with the one file `notes`.
use initra_os.Base.{
  ℕ, ◌≤◌, ◌≡◌, ◌≢◌, ◌↔◌, ◌⊎◌, refl, true, some, none, arith, List, [], ◌∷◌, ◌++◌, ◌||◌, replicate,
  length, drop, ltb, leb, ◌&&◌, ◌==◌, if◌then◌else◌, first_from,
}
use initra_os.Fs.Format.{Dirent, zero_dirent}
use initra_os.Fs.Samples.{notes, todo, folder}
use initra_os.Fs.Directory.{
  name_length, name_equals, name_reserved, new_dirent, copy_name, type_valid, directory_lookup,
  directory_add, directory_remove, lookup_loop, add_loop, remove_loop,
}
use initra_os.Fs.Directory.Names.{same_text}
use initra_os.Fs.Directory.Strings.{c_string}
use initra_os.Fs.Directory.Laws.{find, IsValid, directory_lookup_lem}
use initra_os.Fs.Directory.Add.{directory_add-IsValid}
use initra_os.Fs.Directory.Remove.{directory_remove-IsValid}
use initra_os.Fs.Directory.Listing.{
  dot_text, dot_dot_text, directory_list, live, directory_list_lem,
}
use initra_os.Fs.Directory.Empty.{directory_is_empty, directory_is_empty_iff}

notes_entry : Dirent
notes_entry = record { inode_number = 5; type = 1; name_length = 5; name = notes ++ replicate 42 0 }

folder-IsValid : IsValid folder
unfolding find same_text
folder-IsValid = record {
  sized = omega arith;
  unique = (λ _. refl, (λ _. refl, (λ _. refl, (λ _. refl, tt))));
}

found : directory_lookup (some folder) (some notes) true ≡ some 5
unfolding directory_lookup lookup_loop name_equals name_length first_from
found = refl

-- The new entry takes the slot 1.
abbrev grown : List Dirent
grown =
    record { inode_number = 1; type = 2; name_length = 1; name = b'.' ∷ replicate 47 0 }
    ∷ record { inode_number = 6; type = 1; name_length = 4; name = todo ++ replicate 43 0 }
    ∷ record { inode_number = 5; type = 1; name_length = 5; name = notes ++ replicate 42 0 }
    ∷ zero_dirent
    ∷ []

added : directory_add (some folder) 6 1 (some todo) ≡ some grown
unfolding directory_add add_loop name_equals name_length first_from new_dirent copy_name type_valid
    name_reserved
added = refl

removed : directory_remove (some grown) (some todo) ≡ some folder
unfolding directory_remove remove_loop name_equals name_length first_from name_reserved
removed = refl

directory_lookup_lem_example : directory_lookup (some folder) (some notes) true ≡ (
    if ltb 0 (length (c_string notes)) && leb (length (c_string notes)) 48
    then find (c_string notes) folder
    else none)
directory_lookup_lem_example = directory_lookup_lem folder notes folder-IsValid.sized

grown-IsValid : IsValid grown
grown-IsValid = (directory_add-IsValid folder grown 6 1 todo folder-IsValid added).0

directory_add-IsValid_example :
    IsValid grown
    × (length grown ≡ length folder)
    × ((k : List ℕ)
        → find k grown ≡ (if same_text (c_string todo) k then some 6 else find k folder))
directory_add-IsValid_example = directory_add-IsValid folder grown 6 1 todo folder-IsValid added

directory_remove-IsValid_example :
    IsValid folder
    × (length folder ≡ length grown)
    × ((k : List ℕ) → find k folder ≡ (if same_text (c_string todo) k then none else find k grown))
directory_remove-IsValid_example = directory_remove-IsValid grown folder todo grown-IsValid removed

directory_list_lem_example : directory_list (some folder) (some (replicate 3 zero_dirent)) true ≡ (
    if length folder == 0 || ltb (length (replicate 3 zero_dirent)) (length (live folder))
    then none
    else some (
      live folder ++ drop (length (live folder)) (replicate 3 zero_dirent),
      length (live folder),
    ))
directory_list_lem_example = directory_list_lem folder (replicate 3 zero_dirent) (omega arith)

directory_is_empty_iff_example : (directory_is_empty (some folder) ≡ true) ↔ (
    (2 ≤ length folder)
    × ((k : List ℕ) → find k folder ≢ none → (k ≡ dot_text) ⊎ (k ≡ dot_dot_text)))
directory_is_empty_iff_example = directory_is_empty_iff folder folder-IsValid.sized
