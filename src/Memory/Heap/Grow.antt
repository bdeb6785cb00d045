-- ===== src/Memory/Heap/Grow.antt =====
-- `HeapAllocate` where no segment fits: it extends the heap and takes the new segment.
use os_tk.Base.{ℕ, List, ◌∷◌, Option, some, none}
use os_tk.Memory.Heap.{Heap}
use os_tk.Memory.Heap.Chain.{Segment}

abbrev passed : Segment → Option (ℕ × List Segment) → Option (ℕ × List Segment)
passed x none = none
passed x (some (p, ys)) = some (p, x ∷ ys)
