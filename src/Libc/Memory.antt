-- ===== src/Libc/Memory.antt =====
-- `malloc`, `calloc`, `realloc` and `free` of lib/libc/src/stdlib.c, on the kernel's heap, and
-- `memmove` of string.c, which calls them. The bytes of the blocks are a memory beside the headers.
pub mod Calloc
pub mod Realloc
pub mod Move
use os_tk.Base.{ℕ, ◌-◌, ◌*◌, Bool, ltb, ◌==◌, if◌then◌else◌, Option, none, some, u64, sub_u64}
use os_tk.Memory.Heap.{Heap, header_size, heap_allocate, heap_free}
use os_tk.Libc.Bytes.{Bytes, null, int_rounds}
use os_tk.Libc.Blocks.{memset, memcpy, copy_loop}

-- `tries` and `fuel` are those of `heap_allocate`.
abbrev pub malloc : (tries fuel : ℕ) → ℕ → Heap → Option (ℕ × Heap)
malloc tries fuel size s = heap_allocate tries fuel size s

abbrev pub free : ℕ → Heap → Heap
free address s = heap_free address s

-- `calloc`: the pointer, and the heap and the bytes after it. The block is cleared also at NULL.
pub calloc : (tries fuel : ℕ) → (nitems size : ℕ) → Heap → Bytes → Option (ℕ × Heap × Bytes)
calloc tries fuel nitems size s m =
    let buffer_size = u64 (nitems * size) in
    elim (malloc tries fuel buffer_size s) [
      | none ↦ none
      | some (buffer, t) ↦ some (buffer, t, (memset m buffer 0 buffer_size).1)
    ]

-- `realloc`, which returns the pointer that it was given.
pub realloc : (tries fuel : ℕ) → (pointer size : ℕ) → Heap → Bytes → Option (ℕ × Heap × Bytes)
realloc tries fuel pointer size s m = elim (malloc tries fuel size s) [
  | none ↦ none
  | some (block, t) ↦
      let original_size = (t.headers (sub_u64 pointer header_size)).size in
      let to_copy = if ltb original_size size then original_size else size in
      if block == null
      then some (pointer, t, m)
      else if pointer == null
      then some (pointer, t, m)
      else some (pointer, free pointer t, (memcpy m block pointer to_copy).1)
]

-- `memmove`, with its block from `malloc`: the pointer returned, the heap and the bytes. The block is
-- not tested against NULL.
pub memmove : (tries fuel : ℕ) → (dest src size : ℕ) → Heap → Bytes → Option (ℕ × Heap × Bytes)
memmove tries fuel dest src size s m = elim (malloc tries fuel size s) [
  | none ↦ none
  | some (temp, t) ↦
      let m' = copy_loop m temp src (int_rounds size) 0 in
      some (dest, free temp t, copy_loop m' dest temp (int_rounds size) 0)
]
