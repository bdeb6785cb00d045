-- ===== src/Libc/Memory/Realloc.antt =====
-- What `realloc` returns.
use os_tk.Base.{ℕ, ltb, if◌then◌else◌}
use os_tk.Memory.Heap.{Heap}
use os_tk.Libc.Bytes.{Bytes}

abbrev smaller : ℕ → ℕ → ℕ
smaller a b = if ltb a b then a else b
