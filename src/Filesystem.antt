-- ===== src/Filesystem.antt =====
-- filesystem.h and filesystem.cpp: the inode file system on an ATA disk.
-- Filesystem/Layout has the structures and their bytes, Filesystem/Machine what the code calls of
-- the disk driver and the allocator, Filesystem/Store the sectors, and Filesystem/Files the files and Filesystem/Data
-- their contents.
pub mod Layout
pub mod Buffers
pub mod Codec
pub mod Machine
pub mod Tests
pub mod Store
pub mod Files
pub mod Data
pub mod Table
pub mod Hardware
pub mod Images
pub mod Persist
pub mod TableStore
pub mod TableLoad
pub mod Mounting
pub mod Names
pub mod Lookup
pub mod Directory
pub mod Operations
pub mod Opening
pub mod Deleting
pub mod Formatting
pub mod Allocating
pub mod Writing
pub mod Reading
pub mod Contents
pub mod Fetching
pub mod Placing
pub mod RoundTrip
pub mod Rewriting
pub mod Session
