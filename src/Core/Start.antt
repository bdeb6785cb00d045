-- ===== src/Core/Start.antt =====
-- kernel/src/kernel.c: how the kernel brings up its memory. The kernel's and the frame buffer's
-- addresses are parameters.
pub mod Identity
pub mod Direct
use os_tk.Base.{
  Option, none, some, ltb, ◌==◌, if◌then◌else◌, ◌-◌, ◌^◌, ◌*◌, ℕ, zero, suc, ◌+◌, ◌/◌, u64, sub_u64,
}
use os_tk.Memory.Efi.{Descriptors, get_memory_size}
use os_tk.Paging.Frames.{Frames, lock_pages, request_page, read_efi_memory_map}
use os_tk.Paging.Tables.{Mapper, clear_page, map_memory}

-- `for (i = …; i < …; i += 0x1000) MapMemory(i, i)`, with `left` rounds to go.
pub map_identity : (left i : ℕ) → Mapper → Mapper
map_identity zero i m = m
map_identity (suc left) i m = map_identity left (u64 (i + 0x1000)) (map_memory i i m)

-- The rounds of such a loop over `size` bytes.
abbrev pub pages_of : ℕ → ℕ
pages_of size = (size + 0xfff) / 0x1000

pub record Boot : Type 0 where
  pub memory_map : ℕ
  pub memory_map_size : ℕ
  pub descriptor_size : ℕ
  pub kernel_start : ℕ
  pub kernel_end : ℕ
  pub frame_buffer_base : ℕ
  pub frame_buffer_size : ℕ

-- `for (i = start; i < end; i += 0x1000) MapMemory(i, i)`, or `none` where `i` wraps round before it
-- comes to the end, since the loop goes on for ever then.
pub identity_loop : (start end : ℕ) → Mapper → Option Mapper
identity_loop start end m =
    let left = pages_of (end - start) in
    if ltb (start + left * 0x1000) (2 ^ 64) then some (map_identity left start m) else none

-- The page tables that `InitMemory` builds, once the kernel's pages are locked.
pub build_tables : (words : ℕ → ℕ) → Boot → (memory_size : ℕ) → Frames → Option Mapper
build_tables words b memory_size locked =
    let (root, frames) = request_page locked in
    let empty : Mapper = record {
      page_table_map4 = root;
      frames = frames;
      words = clear_page words root;
    } in
    let base = b.frame_buffer_base in
    let buffer_size = u64 (b.frame_buffer_size + 0x1000) in
    elim (identity_loop 0 memory_size empty) [
      | none ↦ none
      | some direct ↦
          identity_loop base (u64 (base + buffer_size))
            (record direct { frames = lock_pages base (buffer_size / 0x1000 + 1) direct.frames })
    ]

-- The static variable of `GetMemorySize` and the allocator when the kernel's pages are locked.
abbrev pub locked_frames :
    (at : Descriptors) (contents : ℕ → ℕ → ℕ) → Boot → ℕ × Frames → ℕ × Frames
locked_frames at contents b s =
    let (known_size, read) =
      read_efi_memory_map at b.memory_map b.descriptor_size contents b.memory_map_size s in
    let kernel_pages = sub_u64 b.kernel_end b.kernel_start / 4096 + 1 in
    (known_size, lock_pages b.kernel_start kernel_pages read)

-- The memory's size as `InitMemory` has it.
abbrev pub size_of_memory : (at : Descriptors) (contents : ℕ → ℕ → ℕ) → Boot → ℕ × Frames → ℕ
size_of_memory at contents b s =
    get_memory_size at b.memory_map b.descriptor_size (locked_frames at contents b s).0
      (b.memory_map_size / b.descriptor_size)

-- `InitMemory`: the static variable of `GetMemorySize` and the page tables after it, or `none` where
-- it does not end, or divides by a descriptor size of 0, which faults. The load of `cr3` has no
-- effect on the tables.
pub init_memory :
    (at : Descriptors) (contents : ℕ → ℕ → ℕ) (words : ℕ → ℕ)
    → Boot
    → ℕ × Frames
    → Option (ℕ × Mapper)
init_memory at contents words b s =
    let memory_size = size_of_memory at contents b s in
    let tables = build_tables words b memory_size (locked_frames at contents b s).1 in
    if b.descriptor_size == 0
    then none
    else elim tables [ none ↦ none | some mapper ↦ some (memory_size, mapper) ]
