-- ===== src/Paging/Entry.antt =====
-- The entries of the page tables: the first half of kernel/src/Paging/PageTableManager.c.
pub mod Laws
use os_tk.Base.{
  ℕ, ◌*◌, ◌/◌, ◌^◌, Bool, true, false, bit_and, bit_or, ltb, if◌then◌else◌, u64, not_u64,
}

-- `PageDirectoryFlag`; the value of each is the number of its bit.
pub data Flag : Type 0 where
  present read_write user_super write_throug cache_disabled accessed larger_pages : Flag
  custom0 custom1 custom2 nx : Flag

abbrev pub flag_bit : Flag → ℕ
flag_bit present = 0
flag_bit read_write = 1
flag_bit user_super = 2
flag_bit write_throug = 3
flag_bit cache_disabled = 4
flag_bit accessed = 5
flag_bit larger_pages = 7
flag_bit custom0 = 9
flag_bit custom1 = 10
flag_bit custom2 = 11
flag_bit nx = 63

pub record PageMapIndexer : Type 0 where
  pub page_directory_pointer : ℕ
  pub page_directory : ℕ
  pub page_table : ℕ
  pub page : ℕ

-- `InitPageMapIndex`
pub init_page_map_index : ℕ → PageMapIndexer
init_page_map_index virtual_address =
    let a = virtual_address / 2 ^ 12 in
    let b = a / 2 ^ 9 in
    let c = b / 2 ^ 9 in
    let d = c / 2 ^ 9 in
    record {
      page_directory_pointer = bit_and d 0x1ff;
      page_directory = bit_and c 0x1ff;
      page_table = bit_and b 0x1ff;
      page = bit_and a 0x1ff;
    }

-- The functions on `PageDirectoryEntry` take and return its `value`.
pub set_flag : ℕ → Flag → Bool → ℕ
set_flag value flag enabled =
    let bit_selector = u64 (2 ^ flag_bit flag) in
    let cleared = bit_and value (not_u64 bit_selector) in
    if enabled then bit_or cleared bit_selector else cleared

pub set_address : ℕ → ℕ → ℕ
set_address value address =
    bit_or (bit_and value 0xfff0000000000fff) (u64 (bit_and address 0x000000ffffffffff * 2 ^ 12))

pub get_flag : ℕ → Flag → Bool
get_flag value flag = if ltb 0 (bit_and value (u64 (2 ^ flag_bit flag))) then true else false

pub get_address : ℕ → ℕ
get_address value = bit_and value 0x000ffffffffff000 / 2 ^ 12
