-- ===== src/Proc.antt =====
-- Processes: kernel/src/proc and the timer of kernel/src/arch/timer.c.
pub mod Sched
pub mod Create
