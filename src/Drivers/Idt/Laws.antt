-- ===== src/Drivers/Idt/Laws.antt =====
-- The offset that an interrupt gate keeps in three parts, and the installed table.
use Prim.Native.Nat.{bit_or-bitwise}
use os_tk.Base.{
  ℕ, ◌+◌, ◌*◌, ◌/◌, ◌%◌, ◌^◌, ◌<◌, ◌≡◌, refl, sym, ◌∙◌, ap, subst, bit_and, bit_or, Bool, true,
  false, ◌==◌, ◌||◌, if◌then◌else◌, List, [], ◌∷◌, arith, u16, u32, u64, Bool-cases, inl, inr,
  ==→eq,
}
use os_tk.Bits.Shift.{bit_and-lt}
use os_tk.Bits.Field.{high, bit_and-low, bit_and-high, bit_or-add}
use os_tk.Drivers.Idt.{IdtEntry, set_offset, get_offset, set_idt_gate, install_gates}

low_16 : (a : ℕ) → bit_and a 0xffff ≡ a % 2 ^ 16
low_16 a = omega (arith, bit_and-low 16 a, bit_and-lt 16 a 0xffff (omega arith))

high_16 : (a : ℕ) → high 16 a ≡ a / 2 ^ 16
high_16 a = omega (arith, bit_and-low 16 a, bit_and-lt 16 a 0xffff (omega arith))

high_32 : (a : ℕ) → high 32 a ≡ a / 2 ^ 32
high_32 a = omega (arith, bit_and-low 32 a, bit_and-lt 32 a 0xffffffff (omega arith))

low_32 : (a : ℕ) → bit_and a 0xffffffff ≡ a % 2 ^ 32
low_32 a = omega (arith, bit_and-low 32 a, bit_and-lt 32 a 0xffffffff (omega arith))

middle : (a : ℕ) → bit_and a 0xffff0000 / 2 ^ 16 ≡ a / 2 ^ 16 % 2 ^ 16
middle a = omega (arith, bit_and-high 16 a 0xffff, low_16 (high 16 a), high_16 a)

upper : (a : ℕ) → bit_and a 0xffffffff00000000 / 2 ^ 32 ≡ a / 2 ^ 32 % 2 ^ 32
upper a = omega (arith, bit_and-high 32 a 0xffffffff, low_32 (high 32 a), high_32 a)

-- `IDTEntry_GetOffset` returns what `IDTEntry_SetOffset` stored, for every 64-bit offset.
pub get_offset-set_offset :
    (offset : ℕ) (entry : IdtEntry)
    → offset < 2 ^ 64
    → get_offset (set_offset offset entry) ≡ offset
unfolding get_offset set_offset
get_offset-set_offset offset entry small =
    let first : u16 (bit_and offset 0xffff) ≡ offset % 2 ^ 16 = omega (arith, low_16 offset) in
    let second : u64 (u16 (bit_and offset 0xffff0000 / 2 ^ 16) * 2 ^ 16)
        ≡ offset / 2 ^ 16 % 2 ^ 16 * 2 ^ 16 =
      omega (arith, middle offset) in
    let third : u64 (u32 (bit_and offset 0xffffffff00000000 / 2 ^ 32) * 2 ^ 32)
        ≡ offset / 2 ^ 32 * 2 ^ 32 =
      omega (arith, upper offset) in
    let start : bit_or 0 (offset % 2 ^ 16) ≡ offset % 2 ^ 16 = bit_or-bitwise 0 (offset % 2 ^ 16) in
    let two = bit_or-add 16 (offset % 2 ^ 16) (offset / 2 ^ 16 % 2 ^ 16) (omega arith) in
    let joined : offset % 2 ^ 16 + offset / 2 ^ 16 % 2 ^ 16 * 2 ^ 16 ≡ offset % 2 ^ 32 =
      omega arith in
    let three = bit_or-add 32 (offset % 2 ^ 32) (offset / 2 ^ 32) (omega arith) in
    rw (first, second, third, start, two, joined, three) (omega arith)

-- Whether the entry is one of the vectors.
abbrev pub among : List ℕ → ℕ → Bool
among [] i = false
among (v ∷ vs) i = (v == i) || among vs i

-- `i` leads to its handler through an interrupt gate of the kernel's code segment, or is as before.
abbrev pub LeadsTo : (ℕ → ℕ) → Bool → (i : ℕ) → (old new : IdtEntry) → Type 0
LeadsTo handler true i old new =
    (get_offset new ≡ handler i) × (new.type_attribute ≡ 0x8E) × (new.selector ≡ 0x08)
LeadsTo handler false i old new = new ≡ old

install_other :
    (handler : ℕ → ℕ) (vs : List ℕ) (table : ℕ → IdtEntry) (i : ℕ)
    → among vs i ≡ false
    → install_gates handler vs table i ≡ table i
unfolding install_gates
install_other handler [] table i out = refl
install_other handler (v ∷ vs) table i out =
    let away : (v == i) ≡ false = ground arith in
    install_other handler vs _ i (ground arith) ∙ rw away refl

gate_set :
    (handler : ℕ → ℕ) (i : ℕ) (old : IdtEntry)
    → handler i < 2 ^ 64
    → LeadsTo handler true i old (set_idt_gate (handler i) 0x8E old)
unfolding set_idt_gate get_offset
gate_set handler i old small = (get_offset-set_offset (handler i) old small, refl, refl)

-- The table after one gate.
abbrev one_gate : (ℕ → ℕ) → ℕ → (ℕ → IdtEntry) → ℕ → IdtEntry
one_gate handler v table i = if v == i then set_idt_gate (handler v) 0x8E (table v) else table i

-- After the gates are written, each of their entries leads to its handler, and the other entries are
-- as before. The handlers have 64-bit addresses.
pub install_gates-LeadsTo :
    (handler : ℕ → ℕ) (vs : List ℕ) (table : ℕ → IdtEntry) (i : ℕ)
    → handler i < 2 ^ 64
    → LeadsTo handler (among vs i) i (table i) (install_gates handler vs table i)
unfolding install_gates
install_gates-LeadsTo handler [] table i small = refl
install_gates-LeadsTo handler (v ∷ vs) table i small =
    let rest = install_gates-LeadsTo handler vs (one_gate handler v table) i small in
    elim (Bool-cases (v == i)) [
      | inr away ↦ rw away (rw away at rest)
      | inl here ↦ elim (Bool-cases (among vs i)) [
        | inl again ↦ rw here (rw again at rest)
        | inr last ↦
            let kept = install_other handler vs (one_gate handler v table) i last in
            let place = ==→eq v i here in
            let gate : one_gate handler v table i ≡ set_idt_gate (handler i) 0x8E (table i) =
              rw here (ap (λ k. set_idt_gate (handler k) 0x8E (table k)) place) in
            rw here (
              subst (LeadsTo handler true i (table i)) (sym (kept ∙ gate))
                (gate_set handler i (table i) small))
      ]
    ]
