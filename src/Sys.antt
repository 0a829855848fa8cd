-- ===== src/Sys.antt =====
-- kernel/sys: clocks, timers and interrupts.
pub mod Clock
pub mod Irq
