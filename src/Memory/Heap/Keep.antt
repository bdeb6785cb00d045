-- ===== src/Memory/Heap/Keep.antt =====
-- `HeapAllocate` leaves the page tables alone where a segment fits.
use os_tk.Base.{
  ℕ, zero, suc, ◌^◌, ◌<◌, ◌≤◌, ◌≡◌, refl, Bool, true, false, ◌==◌, ltb, Bool-cases, inl, inr, arith,
  List, [], ◌∷◌, length, Option, none, some, ne→==, if◌then◌else◌, sub_u64,
}
use os_tk.Memory.Heap.{
  Heap, header_size, round_up, split, take_segment, find_segment, heap_allocate, ltb_int64,
}
use os_tk.Memory.Heap.Allocate.{allocate, find_segment-Answers}
use os_tk.Memory.Heap.Chain.{Segment, IsHeap}
use os_tk.Memory.Heap.Refine.{round_up-lem}
use os_tk.Paging.Tables.{Mapper}

-- If there is a block, the page tables are `m`.
abbrev pub KeepsMapper : Mapper → Option (ℕ × Heap) → Type 0
KeepsMapper m none = Unit {0}
KeepsMapper m (some (p, t)) = t.mapper ≡ m

abbrev SearchKeeps : Mapper → Option (Option (ℕ × Heap)) → Type 0
SearchKeeps m none = Unit {0}
SearchKeeps m (some r) = KeepsMapper m r

split-mapper : (header n : ℕ) (s : Heap) → (split header n s).1.mapper ≡ s.mapper
unfolding split
split-mapper header n s = elim (Bool-cases (ltb n 0x10)) [
  | inl short ↦ rw short refl
  | inr long ↦
      elim (Bool-cases (ltb_int64 (sub_u64 (sub_u64 (s.headers header).size n) header_size) 0x10)) [
        | inl little ↦ rw (long, little) refl
        | inr enough ↦ rw (long, enough) refl
      ]
]

take_segment-KeepsMapper :
    (size current : ℕ) (s : Heap) → KeepsMapper s.mapper (take_segment size current s)
unfolding take_segment
take_segment-KeepsMapper size current s = elim (Bool-cases (s.headers current).free) [
  | inr used ↦ rw used tt
  | inl free ↦ elim (Bool-cases (ltb size (s.headers current).size)) [
    | inl larger ↦ rw (free, larger) (split-mapper current size s)
    | inr other ↦ elim (Bool-cases ((s.headers current).size == size)) [
      | inl same ↦ rw (free, other, same) refl
      | inr smaller ↦ rw (free, other, smaller) tt
    ]
  ]
]

abbrev next_of : Option (Option (ℕ × Heap)) → Bool → Option (ℕ × Heap) → Option (Option (ℕ × Heap))
next_of rest last (some r) = some (some r)
next_of rest last none = if last then some none else rest

next_of-SearchKeeps :
    (m : Mapper) (rest : Option (Option (ℕ × Heap))) (last : Bool) (r : Option (ℕ × Heap))
    → KeepsMapper m r
    → SearchKeeps m rest
    → SearchKeeps m (next_of rest last r)
next_of-SearchKeeps m rest last (some r) k h = k
next_of-SearchKeeps m rest true none k h = tt
next_of-SearchKeeps m rest false none k h = h

find_segment-SearchKeeps :
    (fuel size current : ℕ) (s : Heap) → SearchKeeps s.mapper (find_segment fuel size current s)
unfolding find_segment
find_segment-SearchKeeps zero size current s = tt
find_segment-SearchKeeps (suc fuel) size current s =
    let next = (s.headers current).next in
    next_of-SearchKeeps s.mapper (find_segment fuel size next s) (next == 0)
      (take_segment size current s) (take_segment-KeepsMapper size current s)
      (find_segment-SearchKeeps fuel size next s)

-- Under the conditions of its contract the call extends nothing.
pub heap_allocate-KeepsMapper :
    (tries fuel size : ℕ) (s : Heap) (segments : List Segment) (p : ℕ) (ys : List Segment)
    → IsHeap s segments
    → 0 < size
    → size < 2 ^ 63
    → length segments ≤ fuel
    → allocate (round_up 0x10 size) s.start segments ≡ some (p, ys)
    → KeepsMapper s.mapper (heap_allocate (suc tries) fuel size s)
unfolding heap_allocate
heap_allocate-KeepsMapper tries fuel size s [] p ys h pos small enough e =
    absurd (omega (arith, h.chain.0, h.placed))
heap_allocate-KeepsMapper tries fuel size s (x ∷ xs) p ys h pos small enough e =
    let r = round_up-lem size pos small in
    let nonzero : (round_up 0x10 size == 0) ≡ false = ne→== _ 0 (λ z. omega (arith, r.0)) in
    let a =
      find_segment-Answers s.end (round_up 0x10 size) s r.0 h.bounded fuel 0 s.start x xs h.placed
        h.chain (omega arith) in
    let (t, found, after) = rw e at a in
    let keeps = rw found at (find_segment-SearchKeeps fuel (round_up 0x10 size) s.start s) in
    rw (heap_allocate, nonzero, found) keeps
