-- ===== src/Fs/Samples.antt =====
-- Small values for the tests of the filesystem's parts.
use initra_os.Base.{ℕ, ◌<◌, List, [], ◌∷◌, ◌++◌, zero, suc, replicate, arith, IsBytes}
use initra_os.Fs.Format.{Superblock, Dirent, zero_dirent}

-- A disk of 40 blocks, 16 of them for data.
abbrev pub disk : Superblock
disk = record {
  magic = 0x494E4653;
  version = 1;
  block_size = 512;
  total_blocks = 40;
  inode_count = 128;
  free_block_count = 16;
  inode_table_start = 1;
  inode_table_blocks = 23;
  data_start = 24;
  root_inode = 1;
  filesystem_flags = 1;
}

-- A bitmap that holds what the memory held before.
abbrev pub dirty_bitmap : List ℕ
dirty_bitmap = replicate 16 255

replicate-IsBytes : (n b : ℕ) → b < 256 → IsBytes (replicate n b)
replicate-IsBytes zero b h i = omega arith
replicate-IsBytes (suc n) b h zero = h
replicate-IsBytes (suc n) b h (suc i) = replicate-IsBytes n b h i

pub dirty_bitmap-IsBytes : IsBytes dirty_bitmap
dirty_bitmap-IsBytes = replicate-IsBytes 16 255 (omega arith)

-- A string and its terminator.
abbrev pub notes : List ℕ
notes = b'n' ∷ b'o' ∷ b't' ∷ b'e' ∷ b's' ∷ 0 ∷ []

abbrev pub todo : List ℕ
todo = b't' ∷ b'o' ∷ b'd' ∷ b'o' ∷ 0 ∷ []

-- A directory of four slots with one file, `notes`, in inode 5.
abbrev pub folder : List Dirent
folder =
    record { inode_number = 1; type = 2; name_length = 1; name = b'.' ∷ replicate 47 0 }
    ∷ zero_dirent
    ∷ record { inode_number = 5; type = 1; name_length = 5; name = notes ++ replicate 42 0 }
    ∷ zero_dirent
    ∷ []
