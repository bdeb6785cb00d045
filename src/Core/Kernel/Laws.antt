-- ===== src/Core/Kernel/Laws.antt =====
-- The kernel when it calls `kmain`.
use os_tk.Base.{◌%◌, ◌≢◌, ℕ, suc, ◌^◌, ◌+◌, ◌*◌, ◌<◌, ◌≤◌, ◌≡◌, [], true, Option, some, none}
use os_tk.Memory.Heap.{Heap, init_heap, round_up}
use os_tk.Libc.Bytes.{Bytes}
use os_tk.Drivers.Idt.{IdtEntry}
use os_tk.Memory.Heap.Chain.{Segment, IsHeap}
use os_tk.Memory.Heap.Take.{taken}
use os_tk.Paging.Frames.{Frames}
use os_tk.Drivers.Ports.{outportb}
use os_tk.Drivers.Display.{text_renderer_init, frame_buffer_init}
use os_tk.Core.Start.{Boot, pages_of, locked_frames, size_of_memory}
use os_tk.Core.Start.Direct.{buffer_size, all_needed}
use os_tk.Paging.Tables.{Mapper}
use os_tk.Paging.Tables.Range.{tables_of}
use os_tk.Paging.Tables.Supply.{CanGrant}
use os_tk.Drivers.Idt.Laws.{LeadsTo, among}
use os_tk.Drivers.Idt.{vectors}
use os_tk.Core.Kernel.{Kernel, Machine, heap_start, isr_install, console_start}

-- The heap of `InitHeap` as one free segment.
abbrev pub whole : Segment
whole = record { size = 65504; free = true }

-- The kernel's state when it calls `kmain`.
pub record IsRunning (machine : Machine) (n : ℕ) (k : Kernel) : Type 0 where
  pub placed : k.buffer ≡ 0x0000100000000020
  pub segments : IsHeap k.heap (taken (round_up 0x10 n) whole [])
  pub installed :
      (i : ℕ)
      → machine.handler i < 2 ^ 64
      → (e : IdtEntry) × LeadsTo machine.handler (among vectors i) i e (k.interrupts i)

-- What `_start` does after `Console_Init`.
abbrev start_end : Machine → Option Kernel → Option Kernel
start_end machine none = none
start_end machine (some k) =
    let k' = isr_install machine.answer machine.handler machine.entries k in
    some (record k' { trace = outportb 0xA1 0b11101111 (outportb 0x21 0b11111000 k'.trace) })

-- What `_start` does after `InitMemory`.
abbrev start_rest : (tries fuel : ℕ) → Machine → Kernel → Option (ℕ × Mapper) → Option Kernel
start_rest tries fuel machine k none = none
start_rest tries fuel machine k (some (memory_size, mapper)) =
    let screen =
      text_renderer_init machine.font (frame_buffer_init machine.frame_buffer k.console.display) in
    start_end machine (
      console_start tries fuel machine.bytes (record k {
        memory_size = memory_size;
        heap = init_heap heap_start 0x10 (record k.heap { mapper = mapper });
        console = record k.console { display = screen };
      }))

-- The pages that the start takes: those of `InitMemory`, the heap's with its tables, and the page of
-- the interrupt table.
abbrev pub start_needed : Boot → (memory_size spare : ℕ) → ℕ
start_needed b memory_size spare =
    all_needed b memory_size (16 + (suc spare + 3 * tables_of 16 heap_start))

-- The memory map, the kernel and the frame buffer are such that `InitMemory` comes to its end: the
-- map has descriptors of a size, and behind the kernel's pages the allocator can grant all pages that
-- the start takes, and `spare` more. The memory and the frame buffer, which starts at a page's
-- address, end below the heap.
pub record CanStart (base total spare memory_size : ℕ) (machine : Machine) (s : ℕ × Frames)
    : Type 0 where
  pub described : machine.boot.descriptor_size ≢ 0
  pub size : size_of_memory machine.at machine.contents machine.boot s ≡ memory_size
  pub pages :
      CanGrant base total
        (start_needed machine.boot memory_size spare)
        (locked_frames machine.at machine.contents machine.boot s).1
  pub low : pages_of memory_size * 4096 ≤ heap_start
  pub aligned : machine.boot.frame_buffer_base % 4096 ≡ 0
  pub high :
      machine.boot.frame_buffer_base + pages_of (buffer_size machine.boot) * 4096 ≤ heap_start
