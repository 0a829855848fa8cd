-- ===== src/Libk.antt =====
-- The kernel's own C library: memory and string routines, intrusive lists, and number formatting.
pub mod Memory
pub mod Format
pub mod ListHead
mod Tests
