-- ===== src/Tests.antt =====
-- The properties at concrete inputs.
mod Libc
mod Paging
mod Memory
mod Drivers
mod Stdlib
mod Heap
mod Streams
mod Kernel
