-- ===== src/Core/Kernel/Running.antt =====
-- The memory of the kernel when it runs.
use os_tk.Base.{
  ℕ, suc, ◌+◌, ◌-◌, ◌*◌, ◌/◌, ◌%◌, ◌<◌, ◌≤◌, ◌≡◌, ◌≢◌, ◌⊎◌, inl, sym, subst, true, some, arith,
}
use os_tk.Core.Kernel.{heap_start}
use os_tk.Core.Start.{Boot}
use os_tk.Core.Start.Direct.{buffer_size}
use os_tk.Memory.Heap.Backing.{IsBacked}
use os_tk.Paging.Frames.{request_page}
use os_tk.Paging.Frames.Marks.{is_marked}
use os_tk.Paging.Frames.Kept.{request_page-StaysMarked}
use os_tk.Paging.Tables.{Mapper}
use os_tk.Paging.Tables.Kept.{IsTree-request}
use os_tk.Paging.Tables.Route.{translate}
use os_tk.Paging.Tables.Supply.{CanGrant, request_page-IsGranted}
use os_tk.Paging.Tables.Tree.{Shape, IsTree}

-- The address lies in the memory or in the frame buffer.
abbrev pub IsDevice : Boot → (memory_size u : ℕ) → Type 0
IsDevice b memory_size u =
    (u < memory_size) ⊎ ((b.frame_buffer_base ≤ u) × (u < b.frame_buffer_base + buffer_size b))

-- The memory and the frame buffer are mapped to themselves, and the 16 pages of the heap to pages of
-- their own, which are taken; the tables are a tree, and `spare` pages are left.
pub record HasMemory (base total spare memory_size : ℕ) (b : Boot) (m : Mapper) : Type 0 where
  pub direct : (u : ℕ) → IsDevice b memory_size u → translate m.words m.page_table_map4 u ≡ some u
  pub frame : ℕ → ℕ
  pub maps :
      (u : ℕ)
      → heap_start ≤ u
      → u < heap_start + 16 * 4096
      → translate m.words m.page_table_map4 u
        ≡ some (frame ((u - heap_start) / 4096) * 4096 + u % 4096)
  pub is_taken : (j : ℕ) → j < 16 → is_marked m.frames (frame j) ≡ true
  pub apart : (i j : ℕ) → i < j → j < 16 → frame i ≢ frame j
  pub shape : Shape
  pub tree : IsTree shape m
  pub grants : CanGrant base total spare m.frames

-- The heap lies behind the memory and the frame buffer.
pub IsBacked-HasMemory :
    (base total spare memory_size : ℕ) (b : Boot) (m h : Mapper)
    → memory_size ≤ heap_start
    → b.frame_buffer_base + buffer_size b ≤ heap_start
    → ((u : ℕ) → IsDevice b memory_size u → translate m.words m.page_table_map4 u ≡ some u)
    → IsBacked base total spare 16 heap_start m h
    → HasMemory base total spare memory_size b h
IsBacked-HasMemory base total spare memory_size b m h low high direct r = record {
  direct = λ u inside.
      let below : u < heap_start = ground (arith, inside, low, high) in
      subst (λ t. translate h.words t u ≡ some u) (sym r.same_root)
        (r.kept u u (omega (arith, below)) (inl below) (direct u inside));
  frame = r.frame;
  maps = λ u from to.
      subst
        (λ t. translate h.words t u ≡ some (r.frame ((u - heap_start) / 4096) * 4096 + u % 4096))
        (sym r.same_root) (r.maps u from to);
  is_taken = r.is_taken;
  apart = r.apart;
  shape = r.shape;
  tree = r.tree;
  grants = r.grants;
}

-- A page that is granted changes none of this.
pub HasMemory-request :
    (base total spare memory_size : ℕ) (b : Boot) (m : Mapper)
    → HasMemory base total (suc spare) memory_size b m
    → HasMemory base total spare memory_size b (record m { frames = (request_page m.frames).1 })
HasMemory-request base total spare memory_size b m h = record {
  direct = h.direct;
  frame = h.frame;
  maps = h.maps;
  is_taken = λ j lt. request_page-StaysMarked m.frames (h.frame j) (h.is_taken j lt);
  apart = h.apart;
  shape = h.shape;
  tree = IsTree-request h.shape m h.tree;
  grants = (request_page-IsGranted base total spare m.frames h.grants).rest;
}
