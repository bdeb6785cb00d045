-- ===== src/Tests/Memory.antt =====
-- A bitmap and a heap segment.
use os_tk.Base.{◌≡◌, true, arith}
use os_tk.Memory.Bitmap.{Bitmap, get, set}
use os_tk.Memory.Bitmap.Laws.{get-set}
use os_tk.Memory.Heap.{Heap}

abbrev bitmap : Bitmap
bitmap = record { buffer = 0; size = 2; bytes = λ i. 0 }

get-set_example : get (set bitmap 9 true).1 9 ≡ true
get-set_example = get-set bitmap 9 9 true (omega arith)

abbrev pub heap : Heap
heap = record {
  start = 0x1000;
  end = 0x2000;
  last_header = 0x1000;
  headers = λ a. record { size = 4064; free = true; next = 0; last = 0 };
  mapper = record {
    page_table_map4 = 0;
    frames = record {
      free_memory = 0;
      reserved_memory = 0;
      used_memory = 0;
      page_bitmap_index = 0;
      initialized = true;
      bitmap = bitmap;
    };
    words = λ a. 0;
  };
}
