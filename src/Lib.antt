-- ===== src/Lib.antt =====
-- Verification of OS-TK: the kernel (kernel/src) and its C library (lib/libc/src).
--
-- The firmware's memory map goes to the page frame allocator, which keeps one bit for each page.
-- The page tables take their pages from the allocator; the heap maps its pages through the page
-- tables. The C library works on bytes.
--
--  * kernel/src/Paging/PageTableManager.c: Paging/Entry (an entry's bits), Paging/Tables (the tables);
--    Paging/Tables/Route is the processor's walk. Steps, Reuse and LastStep are the steps of
--    `MapMemory`, and Range counts the tables that page after page needs.
--  * kernel/src/Paging/PageFrameAllocator.c: Paging/Frames.
--  * kernel/src/Memory/Bitmap.c, Memory.c, EFIMemory.h, Heap.c: Memory/Bitmap, Memory/Efi, Memory/Heap.
--  * lib/libc/src/ctype.c: Libc/Ctype. lib/libc/src/string.c: Libc/Strings and Libc/Blocks.
--  * kernel/src/Drivers/Display.c, Console.c, Keyboard.c, PIC.c, PIT.c: Drivers/Display, Console,
--    Keyboard, Pic, Pit. kernel/src/Core/IO.c: Drivers/Ports. kernel/src/Descriptors/IDT.c: Drivers/Idt.
--  * kernel/src/Core/PCI.c and ACPI.c: Core/Pci.
--  * lib/libc/src/stdlib.c: Libc/Stdlib.
--  * kernel/src/kernel.c: Core/Start is `InitMemory`, with what it maps in Direct, Core/Kernel the rest of `_start`,
--    with the kernel's memory in Running.
--    kernel/src/Core/Panic.c and Interrupts.c: Core/Panic and Drivers/Pic.
--  * kernel/src/Memory/Heap.c in detail: Memory/Heap/Segments cuts a segment, Chain is the heap as a
--    list of segments, Allocate and Blocks are the contract on the list, Take, Refine, Keep and Free
--    relate the code to it.
--  * lib/libc/src/stdio.c: Libc/Stdio, with `sscanf` in Libc/Stdio/Scan; Lines is about `fgets`.
--    The allocation of stdlib.c: Libc/Memory. `strtok`: Libc/Strings/Token.
--    `itoa`: Libc/Stdlib/Print. `atof` and `strtod`: Libc/Stdlib/Real, over the doubles of Libc/Double.
--    `realloc` and `memmove`: Libc/Memory/Realloc and Move. lib/libc/src/assert.c: Libc/Assert.
--  * kernel/src/Memory/Heap.c where it extends the heap: Memory/Heap/Expand and Grow; the pages
--    behind it: Backing and Mapped; what `HeapFree` does before a free segment: Overlap.
--    kernel/src/Descriptors/GDT.c: Core/Gdt. The waits of PIT.c: Drivers/Pit/Sleep.
--  * kernel/src/Drivers/Display.c: Drivers/Display/Clear is about the cleared screen, Rows and Glyph about a
--    character.
--  * Bits and Base hold the bits of numbers, the words and the lists that the parts share.
--
-- Numbers are the natural numbers, with the wrap-around of a w-bit integer written out; a signed
-- integer is its bit pattern. Memory is a function from addresses, and a write returns the function
-- after it: bytes for the C library, 64-bit words for the page tables, headers for the heap.
--
-- A loop over a counter is recursion on the rounds left. A loop that runs to a zero byte takes fuel,
-- and `none` means that the fuel ran out; the theorems show that the length of the string, or of
-- both, and one more is enough. A read of the keyboard takes the scan codes to come as a list, and
-- `none` means that it still waits behind the last of them. `heap_allocate` takes the length of the
-- segment list as fuel, and a number of tries for the calls that it makes to itself after it has
-- extended the heap.
--
-- The operations on doubles are an interface, Libc/Double, since they are the processor's: the time of
-- PIT.c is counted in them, and `atof` and `strtod` return one. A wait for the timer takes the number
-- of the ticks to come.
--
-- Not modelled: lib/libc/src/math.c, which is a copy of fdlibm that nothing else calls; vendor, which
-- is another project's; assembly, the loads of the descriptor tables with it; and errno.c with the
-- tables of constants in the headers.
pub mod Base
pub mod Bits
pub mod Core
pub mod Drivers
pub mod Libc
pub mod Memory
pub mod Paging
pub mod Tests
