-- ===== src/Fs/Directory/Listing.antt =====
-- `initrafs_root_directory_init` and `initrafs_directory_list` of fs/initrafs.c. An entry count
-- counts an array that fits in the memory, so that its number of bytes does not wrap around.
use mathlib.Core.List.{append_assoc}
use initra_os.Base.{
  ℕ, ◌+◌, ◌<◌, ◌≤◌, ◌≡◌, ◌^◌, refl, ap, Bool, true, ◌||◌, Option, none, some, List, [], ◌∷◌, ◌++◌,
  arith, ltb, ◌==◌, ◌!=◌, if◌then◌else◌, length, length-append, get_or, set, replicate, drop, u32,
}
use initra_os.Fs.Format.{
  Dirent, zero_dirent, unused_inode, root_inode_number, type_directory, root_dir_entries,
}
use initra_os.Fs.Directory.{dot, new_dirent}

abbrev pub dot_text : List ℕ
dot_text = dot ∷ []

abbrev pub dot_dot_text : List ℕ
dot_dot_text = dot ∷ dot ∷ []

unfoldable pub root_directory_init : Option (List Dirent) → Option (List Dirent)
root_directory_init none = none
root_directory_init (some entries) =
    if ltb (length entries) root_dir_entries
    then none
    else some (
        set
          (set (replicate (length entries) zero_dirent) 0
            (new_dirent root_inode_number type_directory dot_text 1))
          1 (new_dirent root_inode_number type_directory dot_dot_text 2))

-- `entries[0]` and `entries[1]` of a new directory receive their inodes.
unfoldable pub relink : List Dirent → ℕ → ℕ → List Dirent
relink entries inode_number parent_inode =
    let linked =
      set entries 0 (record (get_or entries 0 zero_dirent) { inode_number = inode_number }) in
    set linked 1 (record (get_or entries 1 zero_dirent) { inode_number = parent_inode })

count_live : List Dirent → ℕ → ℕ
count_live [] required = required
count_live (e ∷ es) required =
    count_live es (if e.inode_number != unused_inode then u32 (required + 1) else required)

copy_live : List Dirent → List Dirent → ℕ → List Dirent × ℕ
copy_live [] output index = (output, index)
copy_live (e ∷ es) output index =
    let dead = e.inode_number == unused_inode in
    copy_live es (if dead then output else set output index e)
      (if dead then index else u32 (index + 1))

-- The output array and what is stored through `listed`; the Boolean is whether that is not null.
pub directory_list : Option (List Dirent) → Option (List Dirent) → Bool → Option (List Dirent × ℕ)
unfolding count_live copy_live
directory_list (some entries) (some output) true =
    if length entries == 0
    then none
    else if ltb (length output) (count_live entries 0)
    then none
    else some (copy_live entries output 0)
directory_list _ _ _ = none

-- The live entries, in order.
pub live : List Dirent → List Dirent
live [] = []
live (e ∷ es) = if e.inode_number == 0 then live es else e ∷ live es

count_live_lem :
    (es : List Dirent) (n : ℕ) → n + length es < 2 ^ 32 → count_live es n ≡ n + length (live es)
unfolding count_live live
count_live_lem [] n h = omega arith
count_live_lem (e ∷ es) n h =
    ground (arith, count_live_lem es n (omega arith), count_live_lem es (n + 1) (omega arith))

set-append :
    (xs ys : List Dirent) (o e : Dirent)
    → set (xs ++ (o ∷ ys)) (length xs) e ≡ (xs ++ (e ∷ [])) ++ ys
set-append [] ys o e = refl
set-append (x ∷ xs) ys o e = ap (λ l. x ∷ l) (set-append xs ys o e)

-- Copying behind `done` fills the output from there on.
copy_live_lem :
    (es done output : List Dirent)
    → length done + length es < 2 ^ 32
    → length (live es) ≤ length output
    → copy_live es (done ++ output) (length done)
      ≡ (done ++ (live es ++ drop (length (live es)) output), length done + length (live es))
unfolding copy_live live
copy_live_lem [] done output h k = ap (λ n. (done ++ output, n)) (omega arith)
copy_live_lem (e ∷ es) done [] h k = ground (arith, copy_live_lem es done [])
copy_live_lem (e ∷ es) done (o ∷ output) h k = ground (
  arith,
  copy_live_lem es done (o ∷ output),
  copy_live_lem es (done ++ (e ∷ [])) output,
  set-append done output o e,
  length-append done (e ∷ []),
  append_assoc done (e ∷ []) (live es ++ drop (length (live es)) output),
)

-- With fewer than 2 ^ 32 entries, `initrafs_directory_list` copies exactly the live entries, in
-- order, to the front of the output, leaves the rest of it and stores their number; it fails when
-- there is no entry or the output is too small for the live ones.
pub directory_list_lem :
    (es output : List Dirent)
    → length es < 2 ^ 32
    → directory_list (some es) (some output) true ≡ (
        if length es == 0 || ltb (length output) (length (live es))
        then none
        else some (live es ++ drop (length (live es)) output, length (live es)))
unfolding directory_list
directory_list_lem es output h = ground (arith, count_live_lem es 0, copy_live_lem es [] output)
