-- ===== src/Memory/Heap.antt =====
-- kernel/src/Memory/Heap.c. A segment header is found by its address; the header at NULL is a
-- place like any other, since the code reads and writes it without a check.
pub mod Segments
pub mod Chain
pub mod Take
pub mod Allocate
pub mod Blocks
pub mod Refine
pub mod Keep
pub mod Free
pub mod Expand
pub mod Grow
pub mod Backing
pub mod Mapped
pub mod Overlap
use os_tk.Base.{
  ℕ, zero, suc, ◌+◌, ◌-◌, ◌*◌, ◌/◌, ◌%◌, ◌^◌, Bool, true, false, not, ◌&&◌, ◌||◌, ◌==◌, ltb, leb,
  if◌then◌else◌, Option, none, some, u64, sub_u64,
}
use os_tk.Paging.Frames.{request_page}
use os_tk.Paging.Tables.{Mapper, map_memory}

-- `HeapSegmentHeader`
pub record Header : Type 0 where
  pub size : ℕ
  pub free : Bool
  pub next : ℕ
  pub last : ℕ

abbrev pub header_size : ℕ
header_size = 32

-- The static `Heap`, the headers in memory, and the page tables that `ExpandHeap` extends.
pub record Heap : Type 0 where
  pub start : ℕ
  pub end : ℕ
  pub last_header : ℕ
  pub headers : ℕ → Header
  pub mapper : Mapper

abbrev pub put : ℕ → Header → Heap → Heap
put a h s = record s { headers = λ b. if a == b then h else s.headers b }

abbrev pub set_size : ℕ → ℕ → Heap → Heap
set_size a v s = put a (record (s.headers a) { size = v }) s

abbrev pub set_free : ℕ → Bool → Heap → Heap
set_free a v s = put a (record (s.headers a) { free = v }) s

abbrev pub set_next : ℕ → ℕ → Heap → Heap
set_next a v s = put a (record (s.headers a) { next = v }) s

abbrev pub set_last : ℕ → ℕ → Heap → Heap
set_last a v s = put a (record (s.headers a) { last = v }) s

pub combine_forward : ℕ → Heap → Heap
combine_forward header s =
    let next = (s.headers header).next in
    if next == 0
    then s
    else if not (s.headers next).free
    then s
    else let s1 = if next == s.last_header then record s { last_header = header } else s in
      let next_next = (s1.headers next).next in
      let s2 = if not (next_next == 0) then set_last next_next header s1 else s1 in
      set_size header
        (u64 ((s2.headers header).size + (s2.headers (s2.headers header).next).size + header_size))
        s2

pub combine_backward : ℕ → Heap → Heap
combine_backward header s =
    let last = (s.headers header).last in
    if not (last == 0) && (s.headers last).free then combine_forward last s else s

-- `a < b` on `int64_t`s, for a number `b` below 2 ^ 63.
abbrev pub ltb_int64 : ℕ → ℕ → Bool
ltb_int64 a b = ltb (u64 (a + 2 ^ 63)) (u64 (b + 2 ^ 63))

-- `HeapSegmentHeader_Split`: the new header or NULL, and the heap. The last assignment of the C
-- code changes its parameter only, and `Heap.lastHeader` stays.
pub split : ℕ → ℕ → Heap → ℕ × Heap
split header split_length s =
    let split_seg_length = sub_u64 (sub_u64 (s.headers header).size split_length) header_size in
    if ltb split_length 0x10
    then (0, s)
    else if ltb_int64 split_seg_length 0x10
    then (0, s)
    else let new_split = u64 (header + split_length + header_size) in
      let s1 = set_last (s.headers header).next new_split s in
      let s2 = set_next new_split (s1.headers header).next s1 in
      let s3 = set_next header new_split s2 in
      let s4 = set_last new_split header s3 in
      let s5 = set_size new_split split_seg_length s4 in
      let s6 = set_free new_split (s5.headers header).free s5 in
      (new_split, set_size header split_length s6)

-- The pages that `InitHeap` and `ExpandHeap` map: at `position`, with `left` to go.
pub map_pages : ℕ → ℕ → Mapper → Mapper
map_pages zero position m = m
map_pages (suc left) position m =
    let (page, frames) = request_page m.frames in
    map_pages left (u64 (position + 0x1000))
      (map_memory position page (record m { frames = frames }))

-- `InitHeap`
unfoldable pub init_heap : ℕ → ℕ → Heap → Heap
init_heap heap_address pages_amount s =
    let heap_length = u64 (pages_amount * 0x1000) in
    put heap_address
      (record { size = sub_u64 heap_length header_size; free = true; next = 0; last = 0 })
      (record s {
        start = heap_address;
        end = u64 (heap_address + heap_length);
        last_header = heap_address;
        mapper = map_pages pages_amount heap_address s.mapper;
      })

-- `size -= size % unit; size += unit;` unless the size is a multiple already.
abbrev pub round_up : ℕ → ℕ → ℕ
round_up unit size = if ltb 0 (size % unit) then u64 (size - size % unit + unit) else size

-- `ExpandHeap`
pub expand_heap : ℕ → Heap → Heap
expand_heap size s =
    let rounded = round_up 0x1000 size in
    let page_count = rounded / 0x1000 in
    let new_segment = s.end in
    let s1 = record s {
      mapper = map_pages page_count s.end s.mapper;
      end = u64 (s.end + page_count * 0x1000);
    } in
    let s2 = set_free new_segment true s1 in
    let s3 = set_last new_segment s2.last_header s2 in
    let s4 = set_next s3.last_header new_segment s3 in
    let s5 = record s4 { last_header = new_segment } in
    let s6 = set_next new_segment 0 s5 in
    let s7 = set_size new_segment (sub_u64 rounded header_size) s6 in
    combine_backward new_segment s7

-- What the loop of `HeapAllocate` does at a free segment: split it, or take it whole, or pass.
pub take_segment : ℕ → ℕ → Heap → Option (ℕ × Heap)
take_segment size current s =
    let h = s.headers current in
    if not h.free
    then none
    else if ltb size h.size
    then some (u64 (current + header_size), set_free current false (split current size s).1)
    else if h.size == size
    then some (u64 (current + header_size), set_free current false s)
    else none

-- The search from a segment on. The outer option is the fuel, the inner one the end of the list.
pub find_segment : ℕ → ℕ → ℕ → Heap → Option (Option (ℕ × Heap))
find_segment zero size current s = none
find_segment (suc fuel) size current s =
    let rest = find_segment fuel size (s.headers current).next s in
    elim (take_segment size current s) [
      | some r ↦ some (some r)
      | none ↦ if (s.headers current).next == 0 then some none else rest
    ]

-- `HeapAllocate`. `tries` bounds the calls that it makes to itself after expanding the heap.
pub heap_allocate : (tries fuel : ℕ) → ℕ → Heap → Option (ℕ × Heap)
heap_allocate zero fuel size s = none
heap_allocate (suc tries) fuel size s =
    let rounded = round_up 0x10 size in
    let again = heap_allocate tries fuel rounded (expand_heap rounded s) in
    if rounded == 0 then some (0, s) else elim (find_segment fuel rounded s.start s) [
      | none ↦ none
      | some (some r) ↦ some r
      | some none ↦ again
    ]

-- `HeapFree`
pub heap_free : ℕ → Heap → Heap
heap_free address s =
    let segment = sub_u64 address header_size in
    combine_backward segment (combine_forward segment (set_free segment true s))
