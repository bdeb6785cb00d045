-- ===== src/Core.antt =====
-- kernel/src/Core and kernel/src/kernel.c.
pub mod Pci
pub mod Start
pub mod Gdt
pub mod Panic
pub mod Kernel
