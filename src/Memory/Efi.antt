-- ===== src/Memory/Efi.antt =====
-- kernel/src/Memory/Memory.c and EFIMemory.h: the firmware's memory map and the memory's size.
use os_tk.Base.{List, [], ◌∷◌, codes, ℕ, zero, suc, ◌+◌, ◌*◌, ltb, if◌then◌else◌, u64}

-- `EFI_MEMORY_DESCRIPTOR`
pub record Descriptor : Type 0 where
  pub type : ℕ
  pub physical_address : ℕ
  pub virtual_address : ℕ
  pub pages_amount : ℕ
  pub attributes : ℕ

-- The descriptors that the loop finds: a map from the address of a structure to the structure.
abbrev pub Descriptors : Type 0
Descriptors = ℕ → Descriptor

-- `memoryMap + i * descriptorSize`
abbrev pub entry_address : ℕ → ℕ → ℕ → ℕ
entry_address memory_map descriptor_size i = u64 (memory_map + i * descriptor_size)

module _ (at : Descriptors) (memory_map descriptor_size : ℕ) where
  -- The loop at entry `i`, with `left` entries to go.
  unfoldable pub sum_sizes : ℕ → ℕ → ℕ → ℕ
  sum_sizes zero i bytes = bytes
  sum_sizes (suc left) i bytes =
      sum_sizes left (i + 1)
        (u64 (bytes + (at (entry_address memory_map descriptor_size i)).pages_amount * 4096))

  -- `GetMemorySize`. The first argument is its static variable; the result is both the value
  -- returned and what the static variable holds afterwards.
  unfoldable pub get_memory_size : ℕ → ℕ → ℕ
  get_memory_size memory_size_bytes entries =
      if ltb 0 memory_size_bytes then memory_size_bytes else sum_sizes entries 0 memory_size_bytes

-- `EFI_MEMORY_TYPES` of EFIMemory.c.
abbrev pub memory_types : List (List ℕ)
memory_types =
    codes "EFIReservedMemoryType"
    ∷ codes "EFILoaderCode"
    ∷ codes "EFILoaderData"
    ∷ codes "EFIBootServicesCode"
    ∷ codes "EFIBootServicesData"
    ∷ codes "EFIRuntimeServicesCode"
    ∷ codes "EFIRuntimeServicesData"
    ∷ codes "EFIConventionalMemory"
    ∷ codes "EFIUnusableMemory"
    ∷ codes "EFIACPIReclaimMemory"
    ∷ codes "EFIACPIMemoryNVS"
    ∷ codes "EFIMemoryMappedIO"
    ∷ codes "EFIMemoryMappedIOPortSpace"
    ∷ codes "EFIPalCode"
    ∷ []
