-- ===== src/Tests/Paging.antt =====
-- The page tables and the frame allocator at concrete states.
use os_tk.Base.{ℕ, ◌≡◌, ◌<◌, refl, true, false, ◌==◌, if◌then◌else◌, some, [], ◌∷◌, arith}
use os_tk.Memory.Bitmap.{get}
use os_tk.Memory.Heap.{Heap, init_heap}
use os_tk.Memory.Heap.Backing.{IsBacked}
use os_tk.Memory.Heap.Mapped.{init_heap-IsBacked}
use os_tk.Tests.Memory.{heap}
use os_tk.Memory.Efi.{Descriptor, get_memory_size, sum_sizes}
use os_tk.Paging.Entry.{present, get_flag}
use os_tk.Core.Start.{Boot}
use os_tk.Paging.Frames.{Frames, request_page, largest_segment, read_efi_memory_map}
use os_tk.Paging.Frames.Marks.{is_marked}
use os_tk.Paging.Frames.Ledger.{
  count, IsSound, perform_all, perform_all-IsSound, lock, unlock, request,
}
use os_tk.Paging.Frames.Request.{Requested, request_page-Requested}
use os_tk.Paging.Frames.Boot.{read_efi_memory_map-bits}
use os_tk.Paging.Tables.{Mapper, map_memory}
use os_tk.Paging.Tables.Supply.{CanGrant, get_flag-zero}
use os_tk.Paging.Tables.Tree.{Shape, IsTree}
use os_tk.Paging.Tables.Route.{translate}
use os_tk.Paging.Tables.MapMemory.{map_memory-translate, map_memory-keeps, map_memory-IsTree}

-- Eight pages, of which the first two are taken.
abbrev frames : Frames
frames = record {
  free_memory = 24576;
  reserved_memory = 0;
  used_memory = 8192;
  page_bitmap_index = 0;
  initialized = true;
  bitmap = record { buffer = 0; size = 1; bytes = λ i. if i == 0 then 0b11000000 else 0 };
}

frames-IsSound : IsSound 0 32768 frames
unfolding count get
frames-IsSound = record {
  balanced = record { taken = refl; whole = refl };
  hinted = λ j below inside. absurd (omega arith);
}

-- The root alone, at 4096, and empty.
abbrev mapper : Mapper
mapper = record { page_table_map4 = 4096; frames = frames; words = λ a. 0 }

abbrev shape : Shape
shape = record { level = λ t. if t == 4096 then 4 else 0; up = λ t. 0 }

only_root : (t : ℕ) → 0 < shape.level t → t ≡ 4096
only_root t h = ground arith

no_entry : {A : Type 0} → get_flag 0 present ≡ true → A
no_entry p = absurd (ground (arith, p, get_flag-zero))

mapper-IsTree : IsTree shape mapper
unfolding get
mapper-IsTree = record {
  root = refl;
  aligned = λ t h. omega (arith, only_root t h);
  taken = λ t h. rw (only_root t h);
  child_level = λ t i h l p. no_entry p;
  child_up = λ t i h l p. no_entry p;
}

frames-CanGrant : CanGrant 0 32768 6 frames
unfolding count get
frames-CanGrant = record { sound = frames-IsSound; small = omega arith; spare = omega arith }

-- Another address of the page that is mapped.
map_memory-translate_example :
    translate (map_memory 0x123456789abc 0x7000 mapper).words 4096 0x123456789123 ≡ some 0x7123
map_memory-translate_example =
    map_memory-translate 0 32768 3 shape mapper mapper-IsTree frames-CanGrant 0x123456789abc 0x7000
      (omega arith) 0x123456789123 refl

abbrev grown : Mapper
grown = map_memory 0x123456789abc 0x7000 mapper

map_memory-IsTree_example :
    (g : Shape) × IsTree g grown × CanGrant 0 32768 3 grown.frames × (grown.page_table_map4 ≡ 4096)
map_memory-IsTree_example =
    map_memory-IsTree 0 32768 3 shape mapper mapper-IsTree frames-CanGrant 0x123456789abc 0x7000
      (omega arith)

-- A second page, mapped after the first, leaves the first where it was.
grown-IsTree :
    (g : Shape) × IsTree g grown × CanGrant 0 32768 3 grown.frames × (grown.page_table_map4 ≡ 4096)
grown-IsTree =
    map_memory-IsTree 0 32768 3 shape mapper mapper-IsTree frames-CanGrant 0x123456789abc 0x7000
      (omega arith)

grown-translate : translate grown.words grown.page_table_map4 0x123456789abc ≡ some 0x7abc
grown-translate = rw (grown-IsTree.3) (
    map_memory-translate 0 32768 3 shape mapper mapper-IsTree frames-CanGrant 0x123456789abc 0x7000
      (omega arith) 0x123456789abc refl)

map_memory-keeps_example :
    translate (map_memory 0x1000 0x6000 grown).words grown.page_table_map4 0x123456789abc
    ≡ some 0x7abc
map_memory-keeps_example =
    map_memory-keeps 0 32768 0 grown-IsTree.0 grown grown-IsTree.1 grown-IsTree.2 0x1000 0x6000
      (omega arith) 0x123456789abc 0x7abc (λ e. omega arith) grown-translate

request_page-Requested_example : Requested frames (request_page frames)
request_page-Requested_example = request_page-Requested frames (omega arith) frames-IsSound.hinted

perform_all-IsSound_example :
    IsSound 0 32768 (perform_all (request ∷ lock 0x3000 ∷ unlock 0x1000 ∷ request ∷ []) frames)
perform_all-IsSound_example =
    perform_all-IsSound 0 32768 (request ∷ lock 0x3000 ∷ unlock 0x1000 ∷ request ∷ []) frames
      frames-IsSound

-- Two conventional segments: 1 MiB at 0 and 2 MiB at 1 MiB.
abbrev two_segments : ℕ → Descriptor
two_segments a =
    if a == 0x5000
    then record {
      type = 7;
      physical_address = 0;
      virtual_address = 0;
      pages_amount = 256;
      attributes = 0;
    }
    else record {
      type = 7;
      physical_address = 0x100000;
      virtual_address = 0;
      pages_amount = 512;
      attributes = 0;
    }

abbrev unread : Frames
unread = record frames { initialized = false }

-- Page 0x104 is free after the start.
read_efi_memory_map-bits_example :
    is_marked (read_efi_memory_map two_segments 0x5000 0x30 (λ a i. 0xff) 0x60 (0, unread)).1 0x104
    ≡ false
unfolding get_memory_size sum_sizes largest_segment
read_efi_memory_map-bits_example =
    read_efi_memory_map-bits two_segments 0x5000 0x30 (λ i. ground arith) (λ a i. 0xff) 0x60 0
      unread 0x104 refl (omega arith) (omega arith) (omega arith)

-- A heap that is not mapped yet, and ends at 0x2000.
abbrev unmapped : Heap
unmapped = record heap { mapper = mapper }

init_heap-IsBacked_example :
    IsBacked 0 32768 2 1 0x10000 mapper (init_heap 0x10000 1 unmapped).mapper
init_heap-IsBacked_example =
    init_heap-IsBacked 0 32768 2 shape unmapped mapper-IsTree 0x10000 1 frames-CanGrant refl
      (omega arith)

-- Sixteen pages, of which the first two are taken.
abbrev sixteen : Frames
sixteen = record {
  free_memory = 57344;
  reserved_memory = 0;
  used_memory = 8192;
  page_bitmap_index = 0;
  initialized = true;
  bitmap = record { buffer = 0; size = 2; bytes = λ i. if i == 0 then 0b11000000 else 0 };
}

-- Three pages of memory, and a frame buffer of one page.
abbrev boot : Boot
boot = record {
  memory_map = 0x5000;
  memory_map_size = 0x60;
  descriptor_size = 0x30;
  kernel_start = 0;
  kernel_end = 0x1000;
  frame_buffer_base = 0x80000000;
  frame_buffer_size = 0x1000;
}
