-- ===== src/Fs/Ramfs.antt =====
-- The file system of kernel/src/fs/ramfs.c: the node table, the table of open files, the descriptors of
-- the current process, and path resolution. A name or a path is the list of its bytes. An `int` that
-- is an index or -1 is an `Option`. `Outcome.fault` stands for what C leaves undefined: a write past the
-- end of a buffer, or a NULL pointer that is followed. Whether `kmalloc` gives memory is an argument.
mod Types
mod Path
pub mod Ops
mod Tests
pub mod Dirs
pub mod Cwd
pub mod Fuel
pub mod File
pub mod Fds
unfoldable pub use Types.*
unfoldable pub use Path.*
