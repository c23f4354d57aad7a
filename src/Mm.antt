-- ===== src/Mm.antt =====
-- The memory managers of mm/.
pub mod Buddy
mod HeapTests
pub mod Kmalloc
pub mod Mapping
pub mod MemoryMap
pub mod Pmm
pub mod Region
pub mod Slab
pub mod Stack
pub mod Startup
mod MemoryMapTests
mod StartupTests
mod Tests
pub mod Vmalloc
pub mod Vmm
