-- ===== src/Mm.antt =====
-- kernel/mm: the memory managers.
pub mod Pmm
pub mod VmSpace
pub mod MemoryMap
pub mod PageFault
pub mod Slab
pub mod Calls
mod Tests
