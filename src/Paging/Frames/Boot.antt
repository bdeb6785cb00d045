-- ===== src/Paging/Frames/Boot.antt =====
-- What `ReadEFIMemoryMap` leaves in the bitmap.
use os_tk.Base.{
  ℕ, zero, suc, ◌*◌, ◌/◌, ◌≤◌, ◌≡◌, refl, inl, inr, Bool, true, false, arith, ◌==◌, ◌&&◌, ◌||◌, not,
  ltb, u64, ◌+◌, Bool-cases, ◌^◌, ◌∙◌, ap,
}
use os_tk.Memory.Efi.{Descriptor, Descriptors, entry_address, get_memory_size}
use os_tk.Paging.Frames.{
  Frames, lock_page, reserve_page, unreserve_page, lock_pages, reserve_pages, unreserve_pages,
  unreserve_conventional, largest_segment, init_bitmap, read_efi_memory_map,
}
use os_tk.Paging.Frames.Marks.{
  is_marked, limit, lock_page-PageEffect, reserve_page-PageEffect, unreserve_page-PageEffect,
}
use os_tk.Paging.Frames.Ranges.{in_pages, IsRangeMarked, pages-IsRangeMarked}

reserve_pages-IsRangeMarked :
    (address n : ℕ) (s : Frames)
    → address + n * 4096 ≤ 2 ^ 64
    → IsRangeMarked true (address / 4096) n s (reserve_pages address n s)
unfolding reserve_pages
reserve_pages-IsRangeMarked =
    pages-IsRangeMarked true reserve_page (λ a s. reserve_page-PageEffect a s)

lock_pages-IsRangeMarked :
    (address n : ℕ) (s : Frames)
    → address + n * 4096 ≤ 2 ^ 64
    → IsRangeMarked true (address / 4096) n s (lock_pages address n s)
unfolding lock_pages
lock_pages-IsRangeMarked = pages-IsRangeMarked true lock_page (λ a s. lock_page-PageEffect a s)

unreserve_pages-IsRangeMarked :
    (address n : ℕ) (s : Frames)
    → address + n * 4096 ≤ 2 ^ 64
    → IsRangeMarked false (address / 4096) n s (unreserve_pages address n s)
unfolding unreserve_pages
unreserve_pages-IsRangeMarked =
    pages-IsRangeMarked false unreserve_page (λ a s. unreserve_page-PageEffect a s)

limit_same :
    {v : Bool} {first n : ℕ} {s t : Frames} → IsRangeMarked v first n s t → limit t ≡ limit s
limit_same e = ap (λ n. u64 (n * 8)) e.same_size

module _ (at : Descriptors) (memory_map descriptor_size : ℕ) where
  abbrev pub descriptor : ℕ → Descriptor
  descriptor i = at (entry_address memory_map descriptor_size i)

  -- Page `k` lies in a conventional segment of the `left` entries from `i` on.
  abbrev pub is_conventional : ℕ → ℕ → ℕ → Bool
  is_conventional zero i k = false
  is_conventional (suc left) i k =
      ((descriptor i).type == 7
        && in_pages ((descriptor i).physical_address / 4096) (descriptor i).pages_amount k)
      || is_conventional left (i + 1) k

  -- No segment wraps round the end of the address space.
  abbrev pub SegmentsFit : Type 0
  SegmentsFit =
      (i : ℕ) → (descriptor i).physical_address + (descriptor i).pages_amount * 4096 ≤ 2 ^ 64

  record IsReleased (left i : ℕ) (s t : Frames) : Type 0 where
    bits : (k : ℕ) → k ≤ limit s → is_marked t k ≡ (is_marked s k && not (is_conventional left i k))
    same_size : t.bitmap.size ≡ s.bitmap.size
    same_buffer : t.bitmap.buffer ≡ s.bitmap.buffer

  module _ (fit : SegmentsFit) where
    unreserve_conventional-IsReleased :
        (left i : ℕ) (s : Frames)
        → IsReleased left i s (unreserve_conventional at memory_map descriptor_size left i s)
    unfolding unreserve_conventional
    unreserve_conventional-IsReleased zero i s = record {
      bits = λ k inside. ground arith;
      same_size = refl;
      same_buffer = refl;
    }
    unreserve_conventional-IsReleased (suc left) i s =
        elim (Bool-cases ((descriptor i).type == 7)) [
          | inl free ↦
              let d = descriptor i in
              let t = unreserve_pages d.physical_address d.pages_amount s in
              let one = unreserve_pages-IsRangeMarked d.physical_address d.pages_amount s (fit i) in
              let rest = unreserve_conventional-IsReleased left (i + 1) t in
              rw free (record {
                bits = λ k inside. ground (arith, rest.bits k, one.bits k, limit_same one, free);
                same_size = rest.same_size ∙ one.same_size;
                same_buffer = rest.same_buffer ∙ one.same_buffer;
              })
          | inr other ↦
              let rest = unreserve_conventional-IsReleased left (i + 1) s in
              rw other (record {
                bits = λ k inside. ground (arith, rest.bits k, other);
                same_size = rest.same_size;
                same_buffer = rest.same_buffer;
              })
        ]

    -- The map after a first call, on every page of the memory whose size the map adds up to. A page
    -- is free exactly if it lies in a conventional segment, above the first 0x100 pages and outside
    -- the pages that hold the bitmap. No segment, nor the memory, nor the bitmap wraps round the end
    -- of the address space.
    pub read_efi_memory_map-bits :
        (contents : ℕ → ℕ → ℕ) (memory_map_size memory_size_bytes : ℕ) (s : Frames) (k : ℕ)
        → s.initialized ≡ false
        → let entries = memory_map_size / descriptor_size in
          let size = get_memory_size at memory_map descriptor_size memory_size_bytes entries in
          let buffer = (largest_segment at memory_map descriptor_size entries 0 (0, 0)).0 in
          let buffer_pages = (size / 4096 / 8 + 1) / 4096 + 1 in
          let final =
            (read_efi_memory_map at memory_map descriptor_size contents memory_map_size
              (memory_size_bytes, s)).1 in
          size + 4096 ≤ 2 ^ 64
          → buffer + buffer_pages * 4096 ≤ 2 ^ 64
          → k ≤ size / 4096
          → is_marked final k ≡ (
              ltb k 0x100
              || in_pages (buffer / 4096) buffer_pages k
              || not (is_conventional entries 0 k))
    unfolding read_efi_memory_map init_bitmap
    read_efi_memory_map-bits contents memory_map_size memory_size_bytes s k first small room
          inside =
        rw first (
          ground (
            arith,
            locked.bits k,
            low.bits k,
            released.bits k,
            reserved.bits k,
            size_kept,
            buffer_kept,
            released.same_size,
            reserved.same_size,
          ))
      where
        entries : ℕ
        entries = memory_map_size / descriptor_size

        size : ℕ
        size = get_memory_size at memory_map descriptor_size memory_size_bytes entries

        buffer : ℕ
        buffer = (largest_segment at memory_map descriptor_size entries 0 (0, 0)).0

        mapped : Frames
        mapped =
            init_bitmap (contents buffer) (size / 4096 / 8 + 1) buffer
              (record s { initialized = true; free_memory = size })

        all : Frames
        all = reserve_pages 0 (size / 4096 + 1) mapped

        freed : Frames
        freed = unreserve_conventional at memory_map descriptor_size entries 0 all

        base : Frames
        base = reserve_pages 0 0x100 freed

        reserved : IsRangeMarked true (0 / 4096) (size / 4096 + 1) mapped all
        reserved = reserve_pages-IsRangeMarked 0 (size / 4096 + 1) mapped (omega arith)

        released : IsReleased entries 0 all freed
        released = unreserve_conventional-IsReleased entries 0 all

        low : IsRangeMarked true (0 / 4096) 0x100 freed base
        low = reserve_pages-IsRangeMarked 0 0x100 freed (omega arith)

        size_kept : base.bitmap.size ≡ size / 4096 / 8 + 1
        size_kept = low.same_size ∙ released.same_size ∙ reserved.same_size

        buffer_kept : base.bitmap.buffer ≡ buffer
        buffer_kept = low.same_buffer ∙ released.same_buffer ∙ reserved.same_buffer

        locked :
            IsRangeMarked true
              (base.bitmap.buffer / 4096)
              (base.bitmap.size / 4096 + 1)
              base
              (lock_pages base.bitmap.buffer (base.bitmap.size / 4096 + 1) base)
        locked =
            lock_pages-IsRangeMarked base.bitmap.buffer (base.bitmap.size / 4096 + 1) base
              (rw (buffer_kept, size_kept) room)
