-- ===== src/Paging/Tables.antt =====
-- The page tables: the second half of kernel/src/Paging/PageTableManager.c. The memory that holds
-- them is a map from the address of a 64-bit word to the word; all accesses are aligned.
pub mod Supply
pub mod Tree
pub mod Grow
pub mod Route
pub mod Walk
pub mod Steps
pub mod LastStep
pub mod Reuse
pub mod MapMemory
pub mod Range
pub mod Lock
pub mod Kept
use os_tk.Base.{ℕ, ◌+◌, ◌*◌, ◌/◌, ◌^◌, Bool, true, ltb, leb, ◌==◌, ◌&&◌, if◌then◌else◌, u64}
use os_tk.Paging.Frames.{Frames, request_page}
use os_tk.Paging.Entry.{
  present, read_write, PageMapIndexer, init_page_map_index, set_flag, set_address, get_flag,
  get_address,
}

-- `GlobalPageTableManager.pageTableMap4`, the allocator, and the words of memory.
pub record Mapper : Type 0 where
  pub page_table_map4 : ℕ
  pub frames : Frames
  pub words : ℕ → ℕ

-- `&table->entries[index]`
abbrev pub slot : ℕ → ℕ → ℕ
slot table index = table + 8 * index

abbrev pub store_word : (ℕ → ℕ) → ℕ → ℕ → ℕ → ℕ
store_word words a w b = if a == b then w else words b

-- `memset(table, 0, 0x1000)`
abbrev pub clear_page : (ℕ → ℕ) → ℕ → ℕ → ℕ
clear_page words table b = if leb table b && ltb b (table + 0x1000) then 0 else words b

-- `SetAddress`, then `Present` and `ReadWrite`.
pub point_to : ℕ → ℕ → ℕ
point_to pde address =
    set_flag (set_flag (set_address pde (address / 2 ^ 12)) present true) read_write true

-- The block that `MapMemory` writes out for each of its upper three levels: follow the entry, or
-- ask for a page, clear it and enter it. The page is not checked against NULL.
pub next_table : ℕ → ℕ → Mapper → ℕ × Mapper
next_table table index m =
    let pde = m.words (slot table index) in
    if get_flag pde present
    then (u64 (get_address pde * 2 ^ 12), m)
    else let (page, frames) = request_page m.frames in
      (
        page,
        record m {
          frames = frames;
          words = store_word (clear_page m.words page) (slot table index) (point_to pde page);
        },
      )

-- The last step: the page's own entry.
pub map_page : ℕ → ℕ → ℕ → Mapper → Mapper
map_page table index physical_memory m =
    let pde = m.words (slot table index) in
    record m { words = store_word m.words (slot table index) (point_to pde physical_memory) }

-- `PageTableManager_MapMemory`
pub map_memory : ℕ → ℕ → Mapper → Mapper
map_memory virtual_memory physical_memory m =
    let indexer = init_page_map_index virtual_memory in
    let (pdp, m1) = next_table m.page_table_map4 indexer.page_directory_pointer m in
    let (pd, m2) = next_table pdp indexer.page_directory m1 in
    let (pt, m3) = next_table pd indexer.page_table m2 in
    map_page pt indexer.page physical_memory m3
