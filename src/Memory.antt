-- ===== src/Memory.antt =====
-- kernel/src/Memory: the page bitmap, the firmware's memory map and the kernel heap.
pub mod Bitmap
pub mod Efi
pub mod Heap
