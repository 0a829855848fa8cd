-- ===== src/Dev.antt =====
-- kernel/dev and kernel/sys/device.c: terminals, device tables, disks, the clock chip and the keyboard.
pub mod Tty
pub mod Device
pub mod Rtc
pub mod Disk
pub mod Keyboard
mod Tests
