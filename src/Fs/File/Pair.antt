-- ===== src/Fs/File/Pair.antt =====
-- `initrafs_file_inode_pair_valid` as a predicate.
use initra_os.Base.{◌≡◌, ◌↔◌, true, some, arith}
use initra_os.Fs.Format.{DiskInode, FsInode}
use initra_os.Fs.Integrity.{inode_integrity_verify}
use initra_os.Fs.File.{pair_valid_live}

-- The two inodes of one regular file agree, and the disk inode's checksum is right.
pub record IsOneFile (inode : FsInode) (i : DiskInode) : Type 0 where
  pub numbers : inode.inode_number ≡ i.inode_number
  pub memory_type : inode.type ≡ 1
  pub disk_type : i.type ≡ 1
  pub sizes : inode.size ≡ i.size
  pub verified : inode_integrity_verify (some i) ≡ true

pub pair_valid_live_iff :
    (inode : FsInode) (i : DiskInode) → (pair_valid_live inode i ≡ true) ↔ IsOneFile inode i
unfolding pair_valid_live
pair_valid_live_iff inode i = (
  λ h. record {
    numbers = ground arith;
    memory_type = ground arith;
    disk_type = ground arith;
    sizes = ground arith;
    verified = ground arith;
  },
  λ p. ground (arith, p.numbers, p.memory_type, p.disk_type, p.sizes, p.verified),
)
