-- ===== src/Vfs/Tests.antt =====
-- A filesystem that finds every path as one file of five bytes.
use initra_os.Base.{
  ℕ, ◌≡◌, refl, true, not, ◌&&◌, ◌||◌, Option, none, some, List, [], ◌∷◌, arith, ltb, ◌==◌, ◌+◌,
  ◌-◌, take, drop,
}
use initra_os.Fs.Format.{FsInode}
use initra_os.Vfs.{
  ℤ, pos, Caller, Vfs, Filesystem, initial, holds, filesystem_register, vfs_open, vfs_close,
  vfs_mount, fill, file_slot,
}
use initra_os.Vfs.Registry.{registered}
use initra_os.Vfs.Files.{file_at}
use initra_os.Vfs.Step.{Call, call_register, call_mount, call_open, call_seek, call_unmount}
use initra_os.Vfs.Inv.{IsValid}
use initra_os.Vfs.Steps.{run, runs, Reachable, start, next, reachable-IsValid}
use initra_os.Vfs.Calls.{Opened, vfs_open-Opened}
use initra_os.Vfs.Sequence.{IsReader, IsReading, got, total, run_reads, run_reads_lem}
use initra_os.Vfs.Stays.{runs_keep_open}
use initra_os.Vfs.Members.{has_name, register_lem}
use initra_os.Vfs.Reopen.{vfs_close-vfs_open}

abbrev bytes : List ℕ
bytes = b'h' ∷ b'e' ∷ b'l' ∷ b'l' ∷ b'o' ∷ []

abbrev read_hello : Caller → ℕ → ℕ → ℕ → ℕ → (ℤ × List ℕ) × ℕ
read_hello c w inode offset size =
    ((pos (got size (5 - offset)), take (got size (5 - offset)) (drop offset bytes)), w)

abbrev hello : Filesystem ℕ
hello = record {
  name = some (b'z' ∷ 0 ∷ []);
  mount = some (λ c w device. (true, w));
  unmount = some (λ c w. (true, w));
  lookup = some (λ c w path. (some 7, w));
  remove = none;
  read = some read_hello;
  write = none;
  mkdir = none;
  rmdir = none;
  readdir = none;
  private_data = 5;
}

abbrev table : ℕ → Filesystem ℕ
table p = hello

abbrev inode_at : ℕ → ℕ → FsInode
inode_at w i = record {
  inode_number = i;
  type = 1;
  mode = 0;
  flags = 0;
  size = 0;
  owner = 0;
  group = 0;
  link_count = 1;
  created_time = 0;
  modified_time = 0;
  accessed_time = 0;
}

-- After registering and mounting the filesystem, and after opening a file.
abbrev mounted : Vfs ℕ
mounted =
    run ℕ table inode_at (call_mount (some 3) (some 1))
      (run ℕ table inode_at (call_register (some 3)) (initial 0))

mounted-Reachable : Reachable ℕ table inode_at 0 mounted
mounted-Reachable = next (call_mount (some 3) (some 1)) (next (call_register (some 3)) start)

abbrev path : Option (List ℕ)
path = some (b'/' ∷ b'a' ∷ 0 ∷ [])

abbrev one_open : Vfs ℕ
one_open = run ℕ table inode_at (call_open path 2 true) mounted

one_open-Reachable : Reachable ℕ table inode_at 0 one_open
one_open-Reachable = next (call_open path 2 true) mounted-Reachable

reachable-IsValid_example : IsValid ℕ table one_open
reachable-IsValid_example = reachable-IsValid ℕ table inode_at 0 one_open one_open-Reachable

register_lem_example :
    let r = filesystem_register ℕ table (some 4) mounted in
    (r.0 ≡ (
      has_name (some (b'z' ∷ 0 ∷ []))
      && (not (holds mounted.filesystems 4) && ltb (registered mounted.filesystems) 8)))
    × ((q : ℕ) → holds r.1.filesystems q ≡ ((r.0 && 4 == q) || holds mounted.filesystems q))
register_lem_example =
    register_lem ℕ table mounted (reachable-IsValid ℕ table inode_at 0 mounted mounted-Reachable) 4

vfs_open-Opened_example :
    Opened ℕ table mounted
      (reachable-IsValid ℕ table inode_at 0 mounted mounted-Reachable)
      path
      2
      (vfs_open ℕ table path 2 true mounted)
vfs_open-Opened_example =
    vfs_open-Opened ℕ table mounted (reachable-IsValid ℕ table inode_at 0 mounted mounted-Reachable)
      path 2

read_hello-IsReader : IsReader ℕ table read_hello (0, 0) 7 bytes (λ w. w ≡ 0)
read_hello-IsReader = record { answer = λ w p size h. refl; stays = λ w p size h. h }

hello-IsReading :
    IsReading ℕ table read_hello
      (0, 0)
      7
      bytes
      (λ w. w ≡ 0)
      read_hello-IsReader
      (omega arith)
      0
      3
      refl
      0
      one_open
unfolding vfs_open run vfs_mount holds filesystem_register fill file_slot
hello-IsReading = record {
  slots = refl;
  inside = omega arith;
  open_there = refl;
  at = refl;
  below = omega arith;
  mounted = refl;
  caller = refl;
  holds = refl;
}

run_reads_lem_example :
    let r = run_reads ℕ table 0 (2 ∷ 9 ∷ []) one_open in
    (r.0 ≡ take (total (2 ∷ 9 ∷ [])) bytes)
    × ((file_at r.1.files 0).position ≡ 0 + got (total (2 ∷ 9 ∷ [])) (5 - 0))
run_reads_lem_example =
    run_reads_lem ℕ table read_hello (0, 0) 7 bytes (λ w. w ≡ 0) read_hello-IsReader (omega arith) 0
      3 refl (2 ∷ 9 ∷ []) 0 one_open hello-IsReading

first_slot : (vfs_open ℕ table path 2 true mounted).0 ≡ some 0
unfolding vfs_open run vfs_mount holds filesystem_register fill file_slot
first_slot = refl

vfs_close-vfs_open_example :
    let s' = (vfs_open ℕ table path 2 true mounted).1 in
    vfs_close ℕ table (some 0) s' ≡ (true, record mounted { world = s'.world })
vfs_close-vfs_open_example =
    vfs_close-vfs_open ℕ table mounted
      (reachable-IsValid ℕ table inode_at 0 mounted mounted-Reachable) path 2 0 first_slot

opened_inode : (file_at one_open.files 0).inode ≡ some 7
unfolding vfs_open run vfs_mount holds filesystem_register fill file_slot
opened_inode = refl

abbrev later : List Call
later = call_seek (some 0) 9 ∷ call_unmount (some 3) ∷ []

runs_keep_open_example :
    let s = runs ℕ table inode_at later one_open in
    ((file_at s.files 0).inode ≡ some 7) × (s.active ≡ one_open.active)
runs_keep_open_example =
    runs_keep_open ℕ table 0 7 inode_at later one_open reachable-IsValid_example
      (λ e. ground (arith, e), (λ e. ground (arith, e), tt)) opened_inode
