-- ===== src/Drivers.antt =====
-- The kernel's drivers, kernel/src/Drivers.
pub mod Display
pub mod Console
pub mod Keyboard
pub mod Ports
pub mod Pit
pub mod Pic
pub mod Idt
