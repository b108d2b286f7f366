-- ===== src/Ext2.antt =====
-- EXT2_File_System: tools that change an ext2 disk image. `Bitmaps` to `Blocks` are what the tools
-- share (ext2general.c, ext2.h), `Tools` the options and exit statuses, and `Ls`, `Rm`, `Mkdir` and
-- `Ln` the tools themselves.
pub mod Bitmaps
pub mod Disk
pub mod Names
pub mod Lookup
pub mod Allocate
pub mod Blocks
pub mod Tools
pub mod Ls
pub mod Rm
pub mod Mkdir
pub mod Ln
pub mod Cp
mod Examples
mod SmallDisk
mod DiskExamples
mod CpExamples
