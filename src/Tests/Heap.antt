-- ===== src/Tests/Heap.antt =====
-- The heap as segments: 4096 bytes from 0x1000 on.
use os_tk.Base.{◌==◌, ◌≡◌, refl, true, false, List, [], ◌∷◌, some, if◌then◌else◌, arith}
use os_tk.Memory.Heap.{set_free, Heap, init_heap, heap_allocate, heap_free}
use os_tk.Memory.Heap.Chain.{Segment, IsHeap}
use os_tk.Memory.Heap.Blocks.{IsFresh}
use os_tk.Memory.Heap.Refine.{init_heap-IsHeap, heap_allocate-refines, heap_allocate-IsFresh}
use os_tk.Memory.Heap.Free.{heap_free-refines}
use os_tk.Libc.Bytes.{Bytes}
use os_tk.Memory.Heap.Overlap.{heap_free-overlaps}
use os_tk.Tests.Memory.{heap}

abbrev started : Heap
started = init_heap 0x1000 1 heap

abbrev whole : List Segment
whole = record { size = 4064; free = true } ∷ []

started-IsHeap : IsHeap started whole
started-IsHeap = init_heap-IsHeap 0x1000 1 heap (omega arith) (omega arith) (omega arith)

-- Behind a block of 112 bytes.
abbrev cut : List Segment
cut = record { size = 112; free = false } ∷ record { size = 3920; free = true } ∷ []

heap_allocate-refines_example :
    (t : Heap) × (heap_allocate 1 1 100 started ≡ some (0x1020, t))
    × IsHeap t cut
    × (t.start ≡ started.start)
unfolding init_heap
heap_allocate-refines_example =
    heap_allocate-refines 0 1 100 started whole 0x1020 cut started-IsHeap (omega arith)
      (omega arith) (omega arith) refl

heap_allocate-IsFresh_example :
    (t : Heap) × (heap_allocate 1 1 100 started ≡ some (0x1020, t))
    × IsHeap t cut
    × IsFresh t.start 112 whole cut 0x1020
unfolding init_heap
heap_allocate-IsFresh_example =
    heap_allocate-IsFresh 0 1 100 started whole 0x1020 cut started-IsHeap (omega arith)
      (omega arith) (omega arith) refl

-- Two blocks in use, at 0x1000 and at 0x1090.
abbrev full : Heap
full = record heap {
  headers = λ a.
      if a == 0x1000
      then record { size = 112; free = false; next = 0x1090; last = 0 }
      else record { size = 3920; free = false; next = 0; last = 0x1000 };
}

heap_free-refines_example :
    (heap_free 0x10B0 full ≡ set_free 0x1090 true full)
    × IsHeap
        (heap_free 0x10B0 full)
        (record { size = 112; free = false } ∷ record { size = 3920; free = true } ∷ [])
heap_free-refines_example =
    heap_free-refines full (record { size = 112; free = false } ∷ [])
      (record { size = 3920; free = false }) []
      (record {
        chain = (refl, refl, refl, refl, (refl, refl, refl, refl, (refl, refl)));
        placed = omega arith;
        bounded = omega arith;
      })
      refl refl

-- One block in use, and no room behind it.
abbrev used_up : Heap
used_up = record heap { headers = λ a. record { size = 4064; free = false; next = 0; last = 0 } }

-- A block of 112 bytes in use and the rest free.
abbrev half : Heap
half = record heap {
  headers = λ a.
      if a == 0x1000
      then record { size = 112; free = false; next = 0x1090; last = 0 }
      else record { size = 3920; free = true; next = 0; last = 0x1000 };
}

half-IsHeap : IsHeap half cut
half-IsHeap = record {
  chain = (refl, refl, refl, refl, (refl, refl, refl, refl, (refl, refl)));
  placed = omega arith;
  bounded = omega arith;
}

heap_free-overlaps_example :
    let t = heap_free 0x1020 half in
    (t.headers 0x1000 ≡ record { size = 4064; free = true; next = 0x1090; last = 0 })
    × ((t.headers 0x1090).free ≡ true)
    × ((t.headers 0x1090).size ≡ 3920)
heap_free-overlaps_example =
    heap_free-overlaps half [] (record { size = 112; free = false })
      (record { size = 3920; free = true }) [] half-IsHeap refl refl
