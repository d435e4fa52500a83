-- ===== src/Fs/Integrity/Tests.antt =====
-- The checksum of one inode.
use initra_os.Base.{◌<◌, ◌≡◌, refl, true, false, some, arith, All, zero_bytes}
use initra_os.Fs.Format.{DiskInode, zero_disk_inode}
use initra_os.Fs.Integrity.{
  masked, integrity_checksum, integrity_update, stored_checksum, inode_integrity_verify,
  inode_bytes, words_bytes, inode_words, store_checksum,
}
use initra_os.Fs.Integrity.Hash.{OneByteApart, here}
use initra_os.Fs.Integrity.Laws.{verify-update, verify-OneByteApart}

abbrev blank : DiskInode
blank = record zero_disk_inode { inode_number = 5; type = 1; link_count = 1 }

abbrev sealed : DiskInode
sealed = integrity_update blank

-- The sealed inode with another number, and the old checksum.
abbrev renumbered : DiskInode
renumbered = record sealed { inode_number = 6 }

verify-update_example :
    (inode_integrity_verify (some (integrity_update blank)) ≡ true)
    × (masked (integrity_update blank) ≡ masked blank)
verify-update_example = verify-update blank (omega arith)

sealed_bytes : All (λ x. x < 256) sealed.reserved
unfolding integrity_update store_checksum zero_bytes masked integrity_checksum
sealed_bytes = omega arith

apart : OneByteApart (inode_bytes (masked sealed)) (inode_bytes (masked renumbered))
unfolding inode_bytes integrity_update masked words_bytes inode_words
apart = here _ (λ e. absurd (omega arith))

same_checksum : stored_checksum sealed ≡ stored_checksum renumbered
unfolding stored_checksum
same_checksum = refl

verify-OneByteApart_example : inode_integrity_verify (some renumbered) ≡ false
verify-OneByteApart_example =
    verify-OneByteApart sealed renumbered sealed_bytes sealed_bytes same_checksum apart
      (verify-update blank (omega arith)).0
