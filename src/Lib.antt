-- ===== src/Lib.antt =====
-- InitraOS: the security core, InitraFS and the VFS.
--
-- The kernel asks security.c for every authorization decision, and keeps its objects in InitraFS,
-- fs/initrafs.c: a filesystem of 512-byte blocks with a superblock, a bitmap of data blocks, a bitmap
-- of inodes, inodes of eight direct blocks under a checksum, and directories of fixed-size entries.
-- The VFS, fs/vfs.c, mounts such a filesystem and keeps the open files. This library models these
-- parts as functions, and proves what each promises to its callers.
--
-- The parts of the program and their files:
--
-- security.h and security.c
--   Security.antt has the static variables as one record, `State`, and one function for each of
--   `security_init`, `security_authorize`, `security_resource_authorize`, `security_status`,
--   `security_audit_get_filtered` and `security_audit_get`; `store` and `audit_record` are
--   `security_audit_record`. Security/Log.antt reads the ring as the list of the events that it holds,
--   Security/History.antt runs sequences of requests against the policy, Security/Reads.antt is about
--   the two readers.
--
-- fs/format.h, fs/inode.h, and the structures of fs/fs.h and fs/initrafs.h
--   Fs/Format.antt. The two allocators are in Fs/Blocks.antt and Fs/Inodes.antt.
--
-- fs/block.h
--   Fs/Device.antt: `struct block_device` as an interface, with the laws of a storage.
--
-- fs/initrafs.c
--   Fs/Superblock.antt: `initrafs_superblock_init` and `initrafs_superblock_validate`.
--   Fs/Blocks.antt: the allocator of data blocks, its invariant in Fs/Blocks/Inv.antt.
--   Fs/Inodes.antt: the allocator of inodes, `initrafs_inode_init` and `initrafs_inode_create`.
--   Fs/Integrity.antt: the checksum of an inode. Fs/Integrity/Hash.antt is about FNV-1a.
--   Fs/Directory.antt: names, `initrafs_directory_lookup`, `_add` and `_remove`. Fs/Directory/Laws.antt
--   has a directory as a map from texts to inode numbers, on which the other children build.
--   Fs/Directory/Root.antt, Listing.antt and Empty.antt are about `initrafs_root_directory_init`,
--   `initrafs_directory_list` and `initrafs_directory_is_empty`.
--   Fs/Mapping.antt: the direct blocks of an inode, which every change seals again by the checksum.
--   Fs/Permission.antt: `initrafs_inode_check_permission`.
--   Fs/File.antt: `initrafs_file_create`, `initrafs_file_read` and the rollback of new blocks. They use
--   the inode allocator, the checksum and the block map.
--   Fs/Write.antt: `initrafs_file_write`. Its first phase takes and maps the blocks
--   (Fs/Write/Blocks.antt), its second writes them (Chunk.antt, Data.antt, Stored.antt, Reach.antt);
--   Cases.antt and Ready.antt join the two for Laws.antt and the files after it. Whole.antt is about
--   both `initrafs_file_write` and `initrafs_file_read` with all their guards.
--   Fs/Namespace.antt: the name space, an array of nodes, which Fs/Namespace/Map.antt reads as a map from
--   inode numbers to nodes; Laws.antt and Register.antt are about removing and adding one.
--   Fs/Path.antt: `initrafs_path_lookup`. Fs/Path/Split.antt says what the components of a path are, and
--   Walk.antt what it means to walk along them, which Lookup.antt prepares.
--   Fs/Removal.antt: `initrafs_path_remove_directory`, which joins the paths, the name space, the
--   directories and the inode allocator. Fs/Removal/Name.antt is about the entry's name, Facts.antt about
--   what the tests have found out.
--   Fs/Instance.antt: `initrafs_instance_init` and `initrafs_instance_unmount`. The superblock stands in
--   the block allocator, and the root's objects in its node of the name space.
--   Fs/Creation.antt: `initrafs_root_inode_init`, `initrafs_inode_set_owner_group` and
--   `initrafs_directory_create`.
--
-- fs/vfs.c, fs/vfs.h and fs/file.h
--   Vfs.antt has the static variables as one record, `Vfs`, and one function for each call. The
--   functions of a filesystem are the interface `Filesystem`. Vfs/Step.antt has what a call can do as
--   a step relation, Vfs/Inv.antt the invariant that every step keeps, Vfs/Steps.antt the states that
--   sequences of calls lead to; Registry.antt and Files.antt are about the two tables, Sequence.antt about reads of one
--   file after another.
--
-- Base.antt and its children are shared: tests, lists, single bits of byte arrays, masks, words, the
-- search loops and the pools that a bitmap stands for.
--
-- How the code is read. An `unsigned int` is a natural number with its wrap-around written out (`u32`,
-- `sub32`); a byte array is a list of numbers below 256, read as 0 past its end. A pointer that the
-- code tests against null is an option, or a Boolean where only the test matters; a function that
-- writes through a pointer returns the new value. The return value 0 is `none` where nothing is then
-- written, and so is -1. The superblock that the block allocator points to is a field of its record,
-- since the allocator writes its counter; the inode allocator's pointer to the superblock is never
-- read after it is stored, and is left out. Functions with the ending `_live` take over behind the
-- tests for null. A block device is a parameter: its geometry, a function that gives a block's bytes or
-- fails, and one that writes a block. In the VFS a pointer to a filesystem or an inode is a number, and
-- a pointer to an open file the number of its slot; what the filesystems work on is one value that
-- their functions pass on.
--
-- Loops are structural recursion on the array, or search a range of known length. The loop of
-- `initrafs_file_read` has as fuel the number of bytes to read and one more, which is enough since each
-- round reads at least one byte, and so has the second loop of `initrafs_file_write`. Its first loop has
-- as many rounds as the range has blocks. The loop of `initrafs_path_lookup` has as fuel the length of the
-- path and one more, since each round but the last passes at least one byte; the scan for the last component has the same fuel.
--
-- Not modelled: the VFS adapter of fs/initrafs.c; the self-test in fs/vfs.c; kernel.c and kernel64.c with the scheduler, paging,
-- drivers and shell; the boot code in assembly; the tools. Time stamps and owners of new objects are 0
-- in the code. Calls are taken one after the other.
pub mod Base
pub mod Security
pub mod Fs
pub mod Vfs
