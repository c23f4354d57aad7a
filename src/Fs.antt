-- ===== src/Fs.antt =====
-- fs/: the ramdisk and its file system.
pub mod Dfs
pub mod Ramdisk
mod Tests
