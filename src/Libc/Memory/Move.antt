-- ===== src/Libc/Memory/Move.antt =====
-- What `memmove` does.
use os_tk.Base.{ℕ}
use os_tk.Memory.Heap.{Heap}
use os_tk.Libc.Bytes.{Bytes}
use os_tk.Libc.Blocks.{copy_loop}

-- The two copies, over a block at `temp`.
abbrev moved : Bytes → (temp dest src n : ℕ) → Bytes
moved m temp dest src n = copy_loop (copy_loop m temp src n 0) dest temp n 0
