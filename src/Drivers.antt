-- ===== src/Drivers.antt =====
-- Device drivers: kernel/src/drivers.
pub mod Keyboard
pub mod Console
