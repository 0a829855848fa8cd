-- ===== src/Sched.antt =====
-- kernel/sched and kernel/sys: tasks, signals, queues of tasks, and the mutex.
pub mod Task
pub mod Process
pub mod Wait
pub mod Signal
pub mod SleepQueue
pub mod RunQueue
pub mod Mutex
pub mod WaitQueue
mod Tests
