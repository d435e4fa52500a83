-- ===== src/Fs/Write/Tests.antt =====
-- Writing 600 bytes to a new file on a fresh disk of 40 blocks.
use native.Mathlib.Decide.{ℕ_discrete}
use initra_os.Base.{
  ℕ, ◌≡◌, ◌<◌, refl, sym, Bool, true, false, Option, none, some, List, arith, length,
  length-replicate, replicate, ◌==◌, get_or, first_from, test_mask, zero_bytes, set_mask,
}
use initra_os.Fs.Samples.{disk, dirty_bitmap, dirty_bitmap-IsBytes}
use initra_os.Fs.Format.{DiskInode, FsInode, zero_disk_inode}
use initra_os.Fs.Integrity.{integrity_update}
use initra_os.Fs.Integrity.Laws.{direct_blocks-update, identity-update}
use initra_os.Fs.Blocks.{BlockAllocator, is_marked, alloc_live, mark_used}
use initra_os.Fs.Blocks.Inv.{IsValid}
use initra_os.Fs.Blocks.Setup.{block_allocator_init-IsValid, fresh_bitmap, fresh_allocator}
use initra_os.Fs.Mapping.{get_live, map_live}
use initra_os.Fs.Mapping.Laws.{IsSound, SameObject, update-IsSound, get_live-blank}
use initra_os.Fs.File.{file_read}
use initra_os.Fs.File.Rollback.{Owned, AsBefore}
use initra_os.Fs.Device.{Device, IsStorage, IsHealthy}
use initra_os.Fs.Write.{Written, write_live, file_write}
use initra_os.Fs.Write.Laws.{
  IsStored, write_live-IsStored, write_live-AsBefore, write_live_elsewhere,
}
use initra_os.Fs.Write.Keeps.{IsWellFormed, write_live-IsWellFormed}
use initra_os.Fs.Write.Succeeds.{write_live_succeeds}
use initra_os.Fs.Write.Whole.{file_write_succeeds, file_read-file_write}

abbrev Block : Type 0
Block = (bytes : List ℕ) × (length bytes ≡ 512)

-- A memory of blocks.
abbrev memory_write : (ℕ → Block) → ℕ → List ℕ → Bool × (ℕ → Block)
memory_write s b bytes = elim (ℕ_discrete (length bytes) 512) [
  | yes e ↦ (true, λ c. elim (ℕ_discrete b c) [ yes _ ↦ (bytes, e) | no _ ↦ s c ])
  | no _ ↦ (false, s)
]

abbrev memory : Device
memory = record {
  State = ℕ → Block;
  block_size = 512;
  block_count = 40;
  read = λ s b. some (s b).0;
  write = memory_write;
}

memory-IsStorage : IsStorage memory
memory-IsStorage = record {
  full_block = λ s b bytes e. ground (arith, (s b).1, e);
  read-write = λ s b bytes full good. ground (arith, full);
  read-write_ne = λ s b c bytes ne. ground (arith, ne);
}

memory-IsHealthy : IsHealthy memory
memory-IsHealthy = record {
  reads = λ s b h e. ground (arith, e);
  writes = λ s b bytes h full. ground (arith, full);
}

abbrev blank : memory.State
blank = λ b. (replicate 512 0, length-replicate {A = ℕ} 512 0)

abbrev empty : DiskInode
empty = integrity_update (record zero_disk_inode { inode_number = 5; type = 1; link_count = 1 })

abbrev empty_inode : FsInode
empty_inode = record {
  inode_number = 5;
  type = 1;
  mode = 0;
  flags = 0;
  size = 0;
  owner = 0;
  group = 0;
  link_count = 1;
  created_time = 0;
  modified_time = 0;
  accessed_time = 0;
}

abbrev start_bitmap : List ℕ
start_bitmap =
    fresh_bitmap disk dirty_bitmap 16 dirty_bitmap-IsBytes (omega arith) (omega arith) (omega arith)
      (omega arith) (omega arith)

abbrev start : BlockAllocator
start =
    fresh_allocator disk dirty_bitmap 16 dirty_bitmap-IsBytes (omega arith) (omega arith)
      (omega arith) (omega arith) (omega arith)

start_cases : IsValid start_bitmap start × ((j : ℕ) → j < 40 → is_marked start_bitmap j ≡ (24 == j))
start_cases =
    let made =
      block_allocator_init-IsValid disk dirty_bitmap 16 dirty_bitmap-IsBytes (omega arith)
        (omega arith) (omega arith) (omega arith) (omega arith) in
    (made.1, made.2)

empty-IsSound : IsSound empty
empty-IsSound = update-IsSound _ refl (omega arith)

empty_size : empty.size ≡ 0
empty_size = (identity-update _).2

unmapped : (l : ℕ) → get_live empty l ≡ none
unmapped l = get_live-blank empty l (direct_blocks-update _)

empty-Owned : Owned (get_live empty) (is_marked start_bitmap)
empty-Owned = record {
  used = λ l b e. absurd (ground (arith, e, unmapped l));
  apart = λ l k b e f. absurd (ground (arith, e, unmapped l));
}

abbrev letters : List ℕ
letters = replicate 600 65

abbrev written : Written memory
written = write_live memory empty_inode empty start blank 0 letters 600

written_all : written.result ≡ some 600
written_all =
    write_live_succeeds memory empty_inode empty start_bitmap start blank 0 letters 600
      empty-IsSound start_cases.0 (omega arith) memory-IsStorage memory-IsHealthy
      (λ l b e. absurd (ground (arith, e, unmapped l))) (omega arith) (omega (arith, empty_size))
      (omega arith) (omega arith)

write_live-IsStored_example :
    IsStored memory empty_inode empty start_bitmap start blank 0 letters 600 empty-IsSound
      start_cases.0
      (omega arith)
      600
      written
write_live-IsStored_example =
    write_live-IsStored memory empty_inode empty start_bitmap start blank 0 letters 600
      empty-IsSound start_cases.0 (omega arith) 600 memory-IsStorage empty-Owned written_all

-- The root's block.
write_live_elsewhere_example : memory.read written.storage 24 ≡ memory.read blank 24
write_live_elsewhere_example =
    write_live_elsewhere memory empty_inode empty start_bitmap start blank 0 letters 600
      empty-IsSound start_cases.0 (omega arith) 24 memory-IsStorage (start_cases.1 24 (omega arith))
      (λ l e. ground (arith, e, unmapped l))

empty-IsWellFormed : IsWellFormed empty_inode empty start
empty-IsWellFormed = record {
  bitmap = start_bitmap;
  valid = start_cases.0;
  sound = empty-IsSound;
  owned = empty-Owned;
  pair = record {
    numbers = sym (identity-update _).0;
    memory_type = refl;
    disk_type = (identity-update _).1;
    sizes = sym empty_size;
    verified = empty-IsSound.verified;
  };
}

write_live-IsWellFormed_example : IsWellFormed written.inode written.disk_inode written.allocator
write_live-IsWellFormed_example =
    write_live-IsWellFormed empty_inode empty start empty-IsWellFormed memory blank 0 letters 600
      (omega arith)

abbrev call : Option (Written memory)
call = file_write memory (some empty_inode) (some empty) (some start) true blank 0 letters 600

accepted : (w : Written memory) × (call ≡ some w) × (w.result ≡ some 600)
accepted =
    file_write_succeeds memory empty_inode empty start empty-IsWellFormed blank 0 letters 600
      (omega arith) memory-IsStorage memory-IsHealthy
      (λ l b e. absurd (ground (arith, e, unmapped l))) refl (omega arith) (omega arith)
      (omega (arith, empty_size)) (omega arith) (omega arith)

file_write_succeeds_example : (w : Written memory) × (call ≡ some w) × (w.result ≡ some 600)
file_write_succeeds_example =
    file_write_succeeds memory empty_inode empty start empty-IsWellFormed blank 0 letters 600
      (omega arith) memory-IsStorage memory-IsHealthy
      (λ l b e. absurd (ground (arith, e, unmapped l))) refl (omega arith) (omega arith)
      (omega (arith, empty_size)) (omega arith) (omega arith)

file_read-file_write_example :
    let w = accepted.0 in
    let r =
      file_read 40
        (memory.read w.storage)
        (some w.inode)
        (some w.disk_inode)
        true
        512
        0
        (replicate 600 0)
        600 in
    (r.0 ≡ some 600) × ((k : ℕ) → k < 600 → get_or r.1 k 0 ≡ get_or letters k 0)
file_read-file_write_example =
    file_read-file_write memory empty_inode empty start empty-IsWellFormed blank 0 letters 600
      (omega arith) memory-IsStorage accepted.0 600 (replicate 600 0) accepted.1 accepted.2
      (omega arith) (omega arith) (omega (arith, empty_size))
      (omega (arith, length-replicate {A = ℕ} 600 0))

-- A memory that takes no write.
abbrev stuck : Device
stuck = record {
  State = ℕ → Block;
  block_size = 512;
  block_count = 40;
  read = λ s b. some (s b).0;
  write = λ s b bytes. (false, s);
}

abbrev failed : Written stuck
failed = write_live stuck empty_inode empty start blank 0 letters 600

fails : failed.result ≡ none
unfolding write_live integrity_update get_live alloc_live first_from is_marked test_mask mark_used
    zero_bytes set_mask map_live
fails = refl

write_live-AsBefore_example :
    (failed.inode ≡ empty_inode)
    × AsBefore empty start_bitmap start empty-IsSound start_cases.0
        (failed.disk_inode, failed.allocator)
    × SameObject empty failed.disk_inode
write_live-AsBefore_example =
    write_live-AsBefore stuck empty_inode empty start_bitmap start blank 0 letters 600 empty-IsSound
      start_cases.0 (omega arith) fails
