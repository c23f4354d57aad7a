-- ===== src/Arch.antt =====
-- The descriptor tables and the interrupt controller of x86-64.
pub mod Acpi
pub mod Idt
pub mod Gdt
pub mod Ioapic
mod AcpiTests
mod Tests
mod TimerTests
pub mod Timer
