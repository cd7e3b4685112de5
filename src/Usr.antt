-- ===== src/Usr.antt =====
-- The user library and the shell: usr/lib and usr/shell.c.
pub mod Malloc
pub mod Memory
pub mod Stdio
pub mod Strtok
pub mod Atoi
pub mod Shell
mod Tests
