-- ===== src/Core/Kernel.antt =====
-- kernel/src/kernel.c: `_start` up to the call of `kmain`. The load of the descriptor tables and of
-- `cr3`, and the instruction that turns interrupts on, change nothing that is modelled.
pub mod Running
pub mod Laws
use os_tk.Base.{List, codes, get_or, ℕ, ◌+◌, ◌*◌, Option, none, some, u32}
use os_tk.Memory.Efi.{Descriptors}
use os_tk.Memory.Heap.{Heap, init_heap}
use os_tk.Paging.Frames.{Frames, request_page}
use os_tk.Paging.Tables.{Mapper}
use os_tk.Libc.Bytes.{Bytes}
use os_tk.Libc.Memory.{malloc, free}
use os_tk.Drivers.Display.{
  PsfFont, FrameBuffer, frame_buffer_init, text_renderer_init, get_width, get_height,
}
use os_tk.Drivers.Console.{Console, console_init, console_clear}
use os_tk.Drivers.Idt.{IdtEntry, vectors, install_gates}
use os_tk.Drivers.Ports.{Trace, outportb}
use os_tk.Drivers.Pic.{remap_pic}
use os_tk.Core.Pci.{DeviceConfig, DeviceHeader, enumerate_pci, find_table}
use os_tk.Core.Start.{Boot, init_memory}

-- The kernel's static state, the interrupt table and the accesses to the ports. `buffer` is
-- `Console.buffer`.
pub record Kernel : Type 0 where
  pub memory_size : ℕ
  pub heap : Heap
  pub console : Console
  pub buffer : ℕ
  pub interrupts : ℕ → IdtEntry
  pub trace : Trace

-- `ISRInstall`. `entries p` are the entries that lie in the page `p`, and `handler i` is the address
-- of the function for entry `i`.
pub isr_install :
    (answer : ℕ → Trace → ℕ) → (handler : ℕ → ℕ) → (entries : ℕ → ℕ → IdtEntry) → Kernel → Kernel
isr_install answer handler entries k =
    let (page, frames) = request_page k.heap.mapper.frames in
    record k {
      heap = record k.heap { mapper = record k.heap.mapper { frames = frames } };
      interrupts = install_gates handler vectors (entries page);
      trace = remap_pic answer k.trace;
    }

-- `Console_Init` with its `malloc`; `bytes` is the memory that the buffer lies in.
pub console_start : (tries fuel : ℕ) → (bytes : Bytes) → Kernel → Option Kernel
console_start tries fuel bytes k =
    let d = k.console.display in
    elim (malloc tries fuel (u32 (get_width d * get_height d)) k.heap) [
      | none ↦ none
      | some (buffer, heap) ↦ some (record k {
        heap = heap;
        buffer = buffer;
        console = console_init (λ i. bytes (buffer + i)) k.console;
      })
    ]

-- What the firmware, the build and the devices give.
pub record Machine : Type 0 where
  pub at : Descriptors
  pub contents : ℕ → ℕ → ℕ
  pub words : ℕ → ℕ
  pub bytes : Bytes
  pub answer : ℕ → Trace → ℕ
  pub handler : ℕ → ℕ
  pub entries : ℕ → ℕ → IdtEntry
  pub boot : Boot
  pub frame_buffer : FrameBuffer
  pub font : PsfFont

-- The address of the heap.
abbrev pub heap_start : ℕ
heap_start = 0x0000100000000000

-- `_start`, or `none` where `InitMemory` does not end or faults. Before `Console_Init` the screen is
-- that of `FrameBuffer_Init` and `TextRenderer_Init`.
pub start : (tries fuel : ℕ) → Machine → Frames → Kernel → Option Kernel
start tries fuel machine frames k =
    let screen =
      text_renderer_init machine.font (frame_buffer_init machine.frame_buffer k.console.display) in
    let after_memory = λ (memory_size : ℕ) (mapper : Mapper).
      console_start tries fuel machine.bytes (record k {
        memory_size = memory_size;
        heap = init_heap heap_start 0x10 (record k.heap { mapper = mapper });
        console = record k.console { display = screen };
      }) in
    let memory =
      init_memory machine.at machine.contents machine.words machine.boot (k.memory_size, frames) in
    elim memory [
      | none ↦ none
      | some (memory_size, mapper) ↦ elim (after_memory memory_size mapper) [
        | none ↦ none
        | some k1 ↦
            let k2 = isr_install machine.answer machine.handler machine.entries k1 in
            some
              (record k2 { trace = outportb 0xA1 0b11101111 (outportb 0x21 0b11111000 k2.trace) })
      ]
    ]

-- `Console_Destroy`
pub console_destroy : Kernel → Kernel
console_destroy k = record k { console = console_clear k.console; heap = free k.buffer k.heap }

-- The firmware's tables and configuration space, by their addresses. `outside` lies behind the table
-- of device classes.
pub record Tables : Type 0 where
  pub entry : (table i : ℕ) → ℕ
  pub character : (table i : ℕ) → ℕ
  pub size : (table : ℕ) → ℕ
  pub config : (table i : ℕ) → DeviceConfig
  pub header_at : ℕ → DeviceHeader
  pub outside : List ℕ

-- `InitACPI`, of which `_start` has the call in a comment. `xsdt` is the address in the descriptor.
pub init_acpi : Tables → (xsdt : ℕ) → Kernel → Kernel
init_acpi tables xsdt k =
    let mcfg =
      find_table (tables.entry xsdt) tables.character (λ i. get_or (codes "MCFG") i 0)
        (tables.size xsdt) in
    let (mapper, console) =
      enumerate_pci tables.header_at tables.outside (tables.config mcfg) (tables.size mcfg)
        (k.heap.mapper, k.console) in
    record k { heap = record k.heap { mapper = mapper }; console = console }
