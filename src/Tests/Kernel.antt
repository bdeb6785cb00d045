-- ===== src/Tests/Kernel.antt =====
-- The kernel's start on a screen of three columns and two rows.
use os_tk.Base.{◌+◌, ◌*◌, ◌≡◌, [], true, ◌==◌, if◌then◌else◌}
use os_tk.Core.Pci.{find_table}
use os_tk.Core.Pci.Find.{find_table-fourth}
use os_tk.Core.Kernel.{Kernel, Machine}
use os_tk.Paging.Frames.{Frames}
use os_tk.Tests.Memory.{heap}
use os_tk.Tests.Drivers.{display, console, empty_gate, handler}

abbrev machine : Machine
machine = record {
  at = λ a. record {
    type = 0;
    physical_address = 0;
    virtual_address = 0;
    pages_amount = 64;
    attributes = 0;
  };
  contents = λ i a. 0;
  words = λ a. 0;
  bytes = λ a. 0;
  answer = λ port t. 0;
  handler = handler;
  entries = λ page i. empty_gate;
  boot = record {
    memory_map = 0;
    memory_map_size = 48;
    descriptor_size = 48;
    kernel_start = 0x2000;
    kernel_end = 0x3000;
    frame_buffer_base = 0x80000000;
    frame_buffer_size = 3072;
  };
  frame_buffer = display.frame_buffer;
  font = display.renderer.font;
}

abbrev before : Kernel
before = record {
  memory_size = 0;
  heap = heap;
  console = console;
  buffer = 0;
  interrupts = λ i. empty_gate;
  trace = [];
}

-- Sixty-four pages, of which the first two are taken.
abbrev frames : Frames
frames = record {
  free_memory = 253952;
  reserved_memory = 0;
  used_memory = 8192;
  page_bitmap_index = 0;
  initialized = true;
  bitmap = record { buffer = 0; size = 8; bytes = λ i. if i == 0 then 0b11000000 else 0 };
}

-- Five tables, from 0x1000 on, whose signatures consist of the letter G.
find_table-fourth_example : find_table (λ i. 0x1000 + i * 64) (λ a i. 71) (λ i. 71) 76 ≡ 0x10C0
find_table-fourth_example = find_table-fourth (λ i. 0x1000 + i * 64) (λ a i. 71) (λ i. 71) 76
