-- ===== src/Fs/Integrity.antt =====
-- The checksum of a disk inode in fs/initrafs.c: FNV-1a over its 92 bytes, stored in the first four
-- reserved bytes. The two static functions are called with pointers that their callers have tested.
pub mod Hash
pub mod Laws
mod Tests
use initra_os.Base.{
  ℕ, ◌+◌, ◌*◌, ◌/◌, ◌%◌, Bool, true, false, Option, none, some, List, [], ◌∷◌, ◌++◌, ◌==◌, u8, u32,
  bit_xor, get_or, set, zero_bytes, le_bytes, word_of,
}
use initra_os.Fs.Format.{DiskInode}

abbrev pub offset_basis : ℕ
offset_basis = 2166136261

abbrev pub fnv_prime : ℕ
fnv_prime = 16777619

pub hash_step : ℕ → ℕ → ℕ
hash_step hash byte = u32 (bit_xor hash byte * fnv_prime)

pub hash_bytes : ℕ → List ℕ → ℕ
unfolding hash_step
hash_bytes hash [] = hash
hash_bytes hash (byte ∷ bytes) = hash_bytes (hash_step hash byte) bytes

-- The bytes of an array of words.
pub words_bytes : List ℕ → List ℕ
words_bytes [] = []
words_bytes (w ∷ ws) = le_bytes w ++ words_bytes ws

-- The words of the structure before `indirect_block`, in order.
pub inode_words : DiskInode → List ℕ
inode_words i =
    i.inode_number ∷ i.type ∷ i.mode ∷ i.flags ∷ i.size ∷ i.owner ∷ i.group ∷ i.link_count
    ∷ i.created_time ∷ i.modified_time ∷ i.accessed_time ∷ i.direct_blocks

-- The packed structure in memory, field by field.
pub inode_bytes : DiskInode → List ℕ
inode_bytes i = words_bytes (inode_words i) ++ (le_bytes i.indirect_block ++ i.reserved)

-- The copy that is hashed: the checksum's own bytes are cleared.
pub masked : DiskInode → DiskInode
masked i = record i { reserved = zero_bytes 4 i.reserved }

pub integrity_checksum : DiskInode → ℕ
unfolding hash_bytes inode_bytes masked
integrity_checksum i = hash_bytes offset_basis (inode_bytes (masked i))

pub store_checksum : List ℕ → ℕ → List ℕ
store_checksum reserved checksum =
    set
      (set (set (set reserved 0 (u8 (checksum % 256))) 1 (u8 (checksum / 256 % 256))) 2
        (u8 (checksum / 65536 % 256)))
      3 (u8 (checksum / 16777216 % 256))

unfoldable pub integrity_update : DiskInode → DiskInode
unfolding integrity_checksum store_checksum masked
integrity_update i =
    let cleared = masked i in
    record cleared { reserved = store_checksum cleared.reserved (integrity_checksum cleared) }

pub stored_checksum : DiskInode → ℕ
stored_checksum i =
    word_of (get_or i.reserved 0 0) (get_or i.reserved 1 0) (get_or i.reserved 2 0)
      (get_or i.reserved 3 0)

pub inode_integrity_verify : Option DiskInode → Bool
unfolding stored_checksum integrity_checksum
inode_integrity_verify none = false
inode_integrity_verify (some i) = stored_checksum i == integrity_checksum i
