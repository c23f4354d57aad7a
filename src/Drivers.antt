-- ===== src/Drivers.antt =====
-- The drivers' code that formats text.
pub mod Console
pub mod Klog
pub mod Printf
pub mod Screen
pub mod Serial
mod Tests
