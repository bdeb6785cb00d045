-- ===== src/Drivers/Idt.antt =====
-- kernel/src/Descriptors/IDT.c: the entries of the interrupt table.
pub mod Laws
use os_tk.Base.{
  ℕ, ◌==◌, if◌then◌else◌, List, [], ◌∷◌, ◌*◌, ◌/◌, ◌^◌, bit_and, bit_or, u16, u32, u64,
}

-- `IDTEntry`
pub record IdtEntry : Type 0 where
  pub offset0 : ℕ
  pub selector : ℕ
  pub interrupt_stack_table : ℕ
  pub type_attribute : ℕ
  pub offset1 : ℕ
  pub offset2 : ℕ
  pub ignore : ℕ

-- `IDTEntry_SetOffset`
pub set_offset : ℕ → IdtEntry → IdtEntry
set_offset offset entry = record entry {
  offset0 = u16 (bit_and offset 0x000000000000ffff);
  offset1 = u16 (bit_and offset 0x00000000ffff0000 / 2 ^ 16);
  offset2 = u32 (bit_and offset 0xffffffff00000000 / 2 ^ 32);
}

-- `IDTEntry_GetOffset`
pub get_offset : IdtEntry → ℕ
get_offset entry =
    let offset = bit_or 0 entry.offset0 in
    let offset1 = bit_or offset (u64 (entry.offset1 * 2 ^ 16)) in
    bit_or offset1 (u64 (entry.offset2 * 2 ^ 32))

-- `SetIDTGate` of kernel/src/kernel.c.
pub set_idt_gate : (handler attribute : ℕ) → IdtEntry → IdtEntry
set_idt_gate handler attribute entry = record (set_offset handler entry) {
  type_attribute = attribute;
  selector = 0x08;
}

-- The entries that `ISRInstall` of kernel/src/kernel.c writes, in the order of the code; 0x21 is the
-- keyboard's and 0x20 the timer's.
abbrev pub vectors : List ℕ
vectors =
    0x00 ∷ 0x01 ∷ 0x02 ∷ 0x03 ∷ 0x04 ∷ 0x05 ∷ 0x06 ∷ 0x07 ∷ 0x08 ∷ 0x09 ∷ 0x0A ∷ 0x0B ∷ 0x0C ∷ 0x0D
    ∷ 0x0E ∷ 0x0F ∷ 0x10 ∷ 0x12 ∷ 0x13 ∷ 0x21 ∷ 0x20 ∷ []

-- The gates of `ISRInstall`: `table i` is entry `i` of the interrupt table, and `handler i` the
-- address of the function for it. All are interrupt gates.
pub install_gates : (handler : ℕ → ℕ) → List ℕ → (ℕ → IdtEntry) → ℕ → IdtEntry
install_gates handler [] table = table
install_gates handler (v ∷ vs) table =
    install_gates handler vs
      (λ i. if v == i then set_idt_gate (handler v) 0b10001110 (table v) else table i)
