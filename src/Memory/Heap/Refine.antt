-- ===== src/Memory/Heap/Refine.antt =====
-- The heap of `InitHeap` and `HeapAllocate` as its list of segments.
use os_tk.Base.{
  ℕ, suc, ◌+◌, ◌-◌, ◌*◌, ◌%◌, ◌^◌, ◌<◌, ◌≤◌, ◌≡◌, refl, true, false, ◌==◌, arith, List, [], ◌∷◌,
  length, some, u64, sub_u64, ne→==, ==-refl,
}
use os_tk.Memory.Heap.{Heap, header_size, init_heap, round_up, heap_allocate}
use os_tk.Memory.Heap.Chain.{Segment, IsHeap}
use os_tk.Memory.Heap.Allocate.{allocate, find_segment-Answers}
use os_tk.Memory.Heap.Blocks.{IsFresh, allocate-IsFresh}

-- `InitHeap` leaves one free segment, which fills the heap but for its header. The heap is not at
-- NULL, has a page at least and ends below 2 ^ 63.
pub init_heap-IsHeap :
    (address pages : ℕ) (s : Heap)
    → 0 < address
    → 0 < pages
    → address + pages * 0x1000 < 2 ^ 63
    → IsHeap
        (init_heap address pages s)
        (record { size = pages * 0x1000 - header_size; free = true } ∷ [])
unfolding init_heap
init_heap-IsHeap address pages s pos some_pages fit =
    let long : u64 (pages * 0x1000) ≡ pages * 0x1000 = omega arith in
    let size : sub_u64 (pages * 0x1000) header_size ≡ pages * 0x1000 - header_size = omega arith in
    let end : u64 (address + pages * 0x1000) ≡ address + pages * 0x1000 = omega arith in
    record {
      chain = rw (long, end, ==-refl address, size) (refl, refl, refl, refl, (refl, omega arith));
      placed = pos;
      bounded = rw (long, end) fit;
    }

pub round_up-lem :
    (size : ℕ)
    → 0 < size
    → size < 2 ^ 63
    → (0x10 ≤ round_up 0x10 size) × (round_up 0x10 size % 0x10 ≡ 0)
round_up-lem size pos small = ground arith

pub round_up_again : (size : ℕ) → size % 0x10 ≡ 0 → round_up 0x10 size ≡ size
round_up_again size e = ground arith

-- `HeapAllocate` does what its contract says on the list of segments, where one of them fits the
-- size rounded up to 16: it returns that address, and the heap has the contract's segments. The
-- size is from 1 to 2 ^ 63 - 1. A fuel of the number of segments is enough, and the call is made
-- once.
pub heap_allocate-refines :
    (tries fuel size : ℕ) (s : Heap) (segments : List Segment) (p : ℕ) (ys : List Segment)
    → IsHeap s segments
    → 0 < size
    → size < 2 ^ 63
    → length segments ≤ fuel
    → allocate (round_up 0x10 size) s.start segments ≡ some (p, ys)
    → (t : Heap) × (heap_allocate (suc tries) fuel size s ≡ some (p, t))
      × IsHeap t ys
      × (t.start ≡ s.start)
unfolding heap_allocate
heap_allocate-refines tries fuel size s [] p ys h pos small enough e =
    absurd (omega (arith, h.chain.0, h.placed))
heap_allocate-refines tries fuel size s (x ∷ xs) p ys h pos small enough e =
    let r = round_up-lem size pos small in
    let nonzero : (round_up 0x10 size == 0) ≡ false = ne→== _ 0 (λ z. omega (arith, r.0)) in
    let a =
      find_segment-Answers s.end (round_up 0x10 size) s r.0 h.bounded fuel 0 s.start x xs h.placed
        h.chain (omega arith) in
    let (t, found, after) = rw e at a in
    (
      t,
      rw (heap_allocate, nonzero, found) refl,
      record {
        chain = rw (after.same_start, after.same_end) after.chain;
        placed = rw (after.same_start) (h.placed);
        bounded = rw (after.same_end) (h.bounded);
      },
      after.same_start,
    )

-- The block that `HeapAllocate` returns is in use afterwards with the size rounded up to 16, every
-- block in use stays so, and the two do not overlap, where a segment fits that size. The size is
-- from 1 to 2 ^ 63 - 1. A fuel of the number of segments is enough, and the call is made once.
pub heap_allocate-IsFresh :
    (tries fuel size : ℕ) (s : Heap) (segments : List Segment) (p : ℕ) (ys : List Segment)
    → IsHeap s segments
    → 0 < size
    → size < 2 ^ 63
    → length segments ≤ fuel
    → allocate (round_up 0x10 size) s.start segments ≡ some (p, ys)
    → (t : Heap) × (heap_allocate (suc tries) fuel size s ≡ some (p, t))
      × IsHeap t ys
      × IsFresh t.start (round_up 0x10 size) segments ys p
heap_allocate-IsFresh tries fuel size s segments p ys h pos small enough e =
    let (t, done, heap, start) =
      heap_allocate-refines tries fuel size s segments p ys h pos small enough e in
    (t, done, heap, rw start (allocate-IsFresh (round_up 0x10 size) s.start segments p ys e))
