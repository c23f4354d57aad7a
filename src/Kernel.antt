-- ===== src/Kernel.antt =====
-- The kernel's locks, threads and scheduler.
pub mod Lifecycle
pub mod Mutex
pub mod Process
pub mod Scheduler
pub mod Spinlock
pub mod Syscall
mod LifecycleTests
mod Tests
pub mod Thread
