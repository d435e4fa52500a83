-- ===== src/Fs/Permission/Tests.antt =====
-- Rights on a file of user 7 and group 3 with the mode 0640.
use initra_os.Base.{◌≡◌, ◌&&◌, ◌!=◌, ltb, refl, true, false, some, arith}
use initra_os.Fs.Format.{FsInode}
use initra_os.Fs.Permission.{
  inode_check_permission, covers, class_digit, inode_check_permission_lem,
}

abbrev letter : FsInode
letter = record {
  inode_number = 5;
  type = 1;
  mode = 0o640;
  flags = 0;
  size = 0;
  owner = 7;
  group = 3;
  link_count = 1;
  created_time = 0;
  modified_time = 0;
  accessed_time = 0;
}

owner_writes : inode_check_permission (some letter) 7 0 3 ≡ true
unfolding inode_check_permission
owner_writes = refl

-- The group's digit grants reading, and no writing.
group_only_reads : inode_check_permission (some letter) 8 3 3 ≡ false
unfolding inode_check_permission
group_only_reads = refl

inode_check_permission_lem_example :
    inode_check_permission (some letter) 8 3 1
    ≡ (1 != 0 && ltb 1 8 && covers (class_digit letter 8 3) 1)
inode_check_permission_lem_example = inode_check_permission_lem letter 8 3 1 (omega arith)
