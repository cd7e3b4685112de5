-- ===== src/Arch.antt =====
-- The descriptor tables of kernel/src/arch.
pub mod Gates
pub mod Tables
pub mod System
pub mod Syscall
pub mod Isr
mod Tests
