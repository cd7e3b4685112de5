-- ===== src/Fs.antt =====
-- The in-memory file system: kernel/src/fs.
pub mod Ramfs
