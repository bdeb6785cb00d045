-- ===== src/Memory/Heap/Mapped.antt =====
-- The pages behind the heap when it starts and when it grows.
use os_tk.Base.{ℕ, ◌+◌, ◌*◌, ◌%◌, ◌^◌, ◌≤◌, ◌≡◌}
use os_tk.Memory.Heap.{Heap, init_heap}
use os_tk.Memory.Heap.Backing.{IsBacked, map_pages-IsBacked}
use os_tk.Paging.Tables.Supply.{CanGrant}
use os_tk.Paging.Tables.Range.{tables_of}
use os_tk.Paging.Tables.Tree.{Shape, IsTree}

module _ (base total spare : ℕ) (g : Shape) (s : Heap) (tree : IsTree g s.mapper) where
  -- `InitHeap` maps each page of the heap to a page of its own, which was free before and is taken
  -- then, and changes no other translation of an address below 2 ^ 48; the tables are a tree again,
  -- and `spare` pages are left. Before, the tables are a tree, and the allocator can grant these,
  -- one for each page of the heap, and three for each block of 2 ^ 21 bytes that the heap touches.
  -- The heap starts at a page's address and ends at 2 ^ 48 or below.
  pub init_heap-IsBacked :
      (heap_address pages_amount : ℕ)
      → CanGrant base total
          (pages_amount + (spare + 3 * tables_of pages_amount heap_address))
          s.mapper.frames
      → heap_address % 4096 ≡ 0
      → heap_address + pages_amount * 4096 ≤ 2 ^ 48
      → IsBacked base total spare pages_amount heap_address s.mapper
          (init_heap heap_address pages_amount s).mapper
  unfolding init_heap
  init_heap-IsBacked heap_address pages_amount pages whole small =
      map_pages-IsBacked base total spare pages_amount heap_address g s.mapper tree pages whole
        small
