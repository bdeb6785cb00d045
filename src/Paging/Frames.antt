-- ===== src/Paging/Frames.antt =====
-- kernel/src/Paging/PageFrameAllocator.c. The file's `Info` and `GlobalAllocator` are one record;
-- each function returns the record after it. An address is a number, and NULL is 0.
pub mod Marks
pub mod Ledger
pub mod Request
pub mod Kept
pub mod Ranges
pub mod Boot
use os_tk.Base.{
  ℕ, zero, suc, ◌+◌, ◌-◌, ◌*◌, ◌/◌, Bool, true, false, not, ltb, ◌==◌, if◌then◌else◌, u64, sub_u64,
}
use os_tk.Memory.Bitmap.{Bitmap, get, set}
use os_tk.Memory.Efi.{Descriptor, Descriptors, entry_address, get_memory_size}

pub record Frames : Type 0 where
  pub free_memory : ℕ
  pub reserved_memory : ℕ
  pub used_memory : ℕ
  pub page_bitmap_index : ℕ
  pub initialized : Bool
  pub bitmap : Bitmap

-- `contents i` is the byte that lies at `buffer_address + i` before the call.
pub init_bitmap : (contents : ℕ → ℕ) → ℕ → ℕ → Frames → Frames
init_bitmap contents bitmap_size buffer_address s = record s {
  bitmap = record {
    buffer = buffer_address;
    size = bitmap_size;
    bytes = λ i. if ltb i bitmap_size then 0 else contents i;
  };
}

abbrev pub lower_hint : ℕ → ℕ → ℕ
lower_hint hint index = if ltb index hint then index else hint

pub free_page : ℕ → Frames → Frames
free_page address s =
    let index = address / 4096 in
    if not (get s.bitmap index)
    then s
    else let (done, b) = set s.bitmap index false in
      if done
      then record s {
        bitmap = b;
        free_memory = u64 (s.free_memory + 4096);
        used_memory = sub_u64 s.used_memory 4096;
        page_bitmap_index = lower_hint s.page_bitmap_index index;
      }
      else record s { bitmap = b }

pub lock_page : ℕ → Frames → Frames
lock_page address s =
    let index = address / 4096 in
    if get s.bitmap index
    then s
    else let (done, b) = set s.bitmap index true in
      if done
      then record s {
        bitmap = b;
        free_memory = sub_u64 s.free_memory 4096;
        used_memory = u64 (s.used_memory + 4096);
      }
      else record s { bitmap = b }

pub unreserve_page : ℕ → Frames → Frames
unreserve_page address s =
    let index = address / 4096 in
    if not (get s.bitmap index)
    then s
    else let (done, b) = set s.bitmap index false in
      if done
      then record s {
        bitmap = b;
        free_memory = u64 (s.free_memory + 4096);
        reserved_memory = sub_u64 s.reserved_memory 4096;
        page_bitmap_index = lower_hint s.page_bitmap_index index;
      }
      else record s { bitmap = b }

pub reserve_page : ℕ → Frames → Frames
reserve_page address s =
    let index = address / 4096 in
    if get s.bitmap index
    then s
    else let (done, b) = set s.bitmap index true in
      if done
      then record s {
        bitmap = b;
        free_memory = sub_u64 s.free_memory 4096;
        reserved_memory = u64 (s.reserved_memory + 4096);
      }
      else record s { bitmap = b }

-- `for (i = 0; i < pageCount; i++) page(address + i * 4096)`, at page `i` with `left` to go.
pub each_page : (ℕ → Frames → Frames) → ℕ → ℕ → ℕ → Frames → Frames
each_page page address zero i s = s
each_page page address (suc left) i s =
    each_page page address left (i + 1) (page (u64 (address + i * 4096)) s)

pub free_pages : ℕ → ℕ → Frames → Frames
free_pages address page_count = each_page free_page address page_count 0

pub lock_pages : ℕ → ℕ → Frames → Frames
lock_pages address page_count = each_page lock_page address page_count 0

pub unreserve_pages : ℕ → ℕ → Frames → Frames
unreserve_pages address page_count = each_page unreserve_page address page_count 0

pub reserve_pages : ℕ → ℕ → Frames → Frames
reserve_pages address page_count = each_page reserve_page address page_count 0

-- The loop of `RequestPage`. `left` is `size * 8 - pageBitmapIndex`, the rounds until its test
-- fails.
pub request_loop : ℕ → Frames → ℕ × Frames
request_loop zero s = (0, s)
request_loop (suc left) s =
    let rest = request_loop left (record s { page_bitmap_index = s.page_bitmap_index + 1 }) in
    if get s.bitmap s.page_bitmap_index
    then rest
    else (u64 (s.page_bitmap_index * 4096), lock_page (u64 (s.page_bitmap_index * 4096)) s)

-- The address returned, and the allocator after the call.
pub request_page : Frames → ℕ × Frames
request_page s = request_loop (u64 (s.bitmap.size * 8) - s.page_bitmap_index) s

abbrev pub get_free_ram : Frames → ℕ
get_free_ram s = s.free_memory

abbrev pub get_used_ram : Frames → ℕ
get_used_ram s = s.used_memory

abbrev pub get_reserved_ram : Frames → ℕ
get_reserved_ram s = s.reserved_memory

module _ (at : Descriptors) (memory_map descriptor_size : ℕ) where
  -- The first loop of `ReadEFIMemoryMap`: the largest conventional segment, as address and size.
  unfoldable pub largest_segment : ℕ → ℕ → ℕ × ℕ → ℕ × ℕ
  largest_segment zero i best = best
  largest_segment (suc left) i best =
      let d = at (entry_address memory_map descriptor_size i) in
      largest_segment left (i + 1) (
        if d.type == 7
        then (if ltb best.1 (u64 (d.pages_amount * 4096))
            then (d.physical_address, u64 (d.pages_amount * 4096))
            else best)
        else best)

  -- The second loop: every conventional segment is released.
  pub unreserve_conventional : ℕ → ℕ → Frames → Frames
  unreserve_conventional zero i s = s
  unreserve_conventional (suc left) i s =
      let d = at (entry_address memory_map descriptor_size i) in
      unreserve_conventional left (i + 1)
        (if d.type == 7 then unreserve_pages d.physical_address d.pages_amount s else s)

  -- `ReadEFIMemoryMap`, with the static variable of `GetMemorySize`. `contents a i` is the byte
  -- at `a + i` before the call.
  unfoldable pub read_efi_memory_map : (contents : ℕ → ℕ → ℕ) → ℕ → ℕ × Frames → ℕ × Frames
  read_efi_memory_map contents memory_map_size (memory_size_bytes, s) =
      if s.initialized
      then (memory_size_bytes, s)
      else let entries = memory_map_size / descriptor_size in
        let largest = largest_segment entries 0 (0, 0) in
        let memory_size = get_memory_size at memory_map descriptor_size memory_size_bytes entries in
        let bitmap_size = memory_size / 4096 / 8 + 1 in
        let started = record s { initialized = true; free_memory = memory_size } in
        let mapped = init_bitmap (contents largest.0) bitmap_size largest.0 started in
        let reserved = reserve_pages 0 (memory_size / 4096 + 1) mapped in
        let released = unreserve_conventional entries 0 reserved in
        let low = reserve_pages 0 0x100 released in
        (memory_size, lock_pages low.bitmap.buffer (low.bitmap.size / 4096 + 1) low)
