-- ===== src/Fs.antt =====
-- The virtual file system: open files and vnodes, the directory cache, path lookup, files in memory.
pub mod Files
pub mod Dcache
pub mod Generic
pub mod Lookup
pub mod Ramfs
mod Tests
