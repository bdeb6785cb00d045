-- ===== src/Core/Gdt.antt =====
-- kernel/src/Descriptors/GDT.c: the segment descriptors. `LoadGDT` is assembly.
use os_tk.Base.{ℕ, List, [], ◌∷◌}

-- `GDTEntry`
pub record GdtEntry : Type 0 where
  pub limit0 : ℕ
  pub base0 : ℕ
  pub base1 : ℕ
  pub access_byte : ℕ
  pub flags : ℕ
  pub base2 : ℕ

abbrev entry : (access_byte flags : ℕ) → GdtEntry
entry access_byte flags = record {
  limit0 = 0;
  base0 = 0;
  base1 = 0;
  access_byte = access_byte;
  flags = flags;
  base2 = 0;
}

-- `GlobalDescriptorTable`: none, the kernel's code and data, none, the user's code and data.
abbrev pub global_descriptor_table : List GdtEntry
global_descriptor_table =
    entry 0x00 0x00
    ∷ entry 0x9A 0xA0
    ∷ entry 0x92 0xA0
    ∷ entry 0x00 0x00
    ∷ entry 0x9A 0xA0
    ∷ entry 0x92 0xA0
    ∷ []

-- `GDTDescriptor`
pub record GdtDescriptor : Type 0 where
  pub size : ℕ
  pub offset : ℕ
