-- ===== src/Libc.antt =====
-- lib/libc: the C library, over a memory of bytes.
pub mod Bytes
pub mod Ctype
pub mod Strings
pub mod Blocks
pub mod Stdlib
pub mod Double
pub mod Memory
pub mod Stdio
pub mod Assert
