-- ===== src/Libc/Memory/Calloc.antt =====
-- `calloc` hands out zeros.
use os_tk.Memory.Heap.{Heap}
use os_tk.Libc.Bytes.{Bytes}
