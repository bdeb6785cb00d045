-- ===== src/Paging.antt =====
-- kernel/src/Paging: the page frame allocator and the page tables.
pub mod Frames
pub mod Entry
pub mod Tables
