-- ===== src/Fs.antt =====
-- fs/initrafs.c, InitraFS, one module for each part.
pub mod Format
mod Samples
pub mod Superblock
pub mod Blocks
pub mod Integrity
pub mod Directory
pub mod Inodes
pub mod Mapping
pub mod Permission
pub mod Device
pub mod File
pub mod Write
pub mod Namespace
pub mod Path
pub mod Removal
pub mod Instance
pub mod Creation
