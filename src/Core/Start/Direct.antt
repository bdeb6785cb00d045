-- ===== src/Core/Start/Direct.antt =====
-- What `InitMemory` maps.
use os_tk.Base.{◌≢◌, ne→==, ℕ, suc, ◌+◌, ◌*◌, ◌/◌, ◌≡◌, ap, Option, none, some, u64}
use os_tk.Core.Start.{
  Boot, pages_of, identity_loop, build_tables, locked_frames, size_of_memory, init_memory,
}
use os_tk.Memory.Efi.{Descriptors}
use os_tk.Paging.Frames.{Frames, lock_pages}
use os_tk.Paging.Tables.{Mapper}
use os_tk.Paging.Tables.Range.{tables_of}

-- The bytes of the frame buffer that are mapped.
abbrev pub buffer_size : Boot → ℕ
buffer_size b = u64 (b.frame_buffer_size + 0x1000)

-- The pages that the locks, the root and the tables take.
abbrev pub all_needed : Boot → (memory_size spare : ℕ) → ℕ
all_needed b memory_size spare = suc (
    buffer_size b / 0x1000
    + 1
    + (spare + 3 * tables_of (pages_of (buffer_size b)) b.frame_buffer_base)
    + 3 * tables_of (pages_of memory_size) 0)

-- What `InitMemory` does behind the first of its two loops.
abbrev after_direct : Boot → Option Mapper → Option Mapper
after_direct b none = none
after_direct b (some direct) =
    let base = b.frame_buffer_base in
    identity_loop base (u64 (base + buffer_size b))
      (record direct { frames = lock_pages base (buffer_size b / 0x1000 + 1) direct.frames })

-- What `InitMemory` returns, once its tables are built.
pub init_memory-done :
    (at : Descriptors) (contents : ℕ → ℕ → ℕ) (words : ℕ → ℕ) (b : Boot) (s : ℕ × Frames)
    (memory_size : ℕ) (m : Mapper)
    → b.descriptor_size ≢ 0
    → size_of_memory at contents b s ≡ memory_size
    → build_tables words b memory_size (locked_frames at contents b s).1 ≡ some m
    → init_memory at contents words b s ≡ some (memory_size, m)
unfolding init_memory
init_memory-done at contents words b s memory_size m described size done =
    let divides = ne→== b.descriptor_size 0 described in
    rw (size, divides, done) (ap (λ z. some (z, m)) size)
