-- ===== src/Tests/Drivers.antt =====
-- A small console and the keyboard.
use os_tk.Base.{◌<◌, ◌≤◌, ◌⊎◌, ℕ, ◌*◌, ◌+◌, ◌≡◌, refl, true, false, [], ◌∷◌, arith}
use os_tk.Drivers.Display.{Display, clear_color, render_char}
use os_tk.Drivers.Display.Glyph.{pixel, render_char-draws}
use os_tk.Drivers.Display.Clear.{clear_color-fills}
use os_tk.Drivers.Console.{Console, new_line}
use os_tk.Drivers.Console.Scroll.{new_line-cells}
use os_tk.Drivers.Idt.{IdtEntry, vectors, install_gates}
use os_tk.Drivers.Idt.Laws.{LeadsTo, install_gates-LeadsTo}
use os_tk.Drivers.Keyboard.{KeyboardState}
use os_tk.Drivers.Keyboard.Shift.{handle_all, handle_all-held}

abbrev pub display : Display
display = record {
  renderer = record {
    color = 0xffffff;
    clear_color = 0;
    font = record { char_size = 16; glyph_buffer = 0 };
  };
  frame_buffer = record {
    base_address = 0;
    buffer_size = 3072;
    width = 24;
    height = 32;
    pixels_per_scan_line = 24;
  };
  pixels = λ a. 0;
  bytes = λ a. 0;
}

-- Three columns and two rows, with the cell's index as its character.
abbrev pub console : Console
console = record { x = 3; y = 0; width = 3; height = 2; cells = λ i. 65 + i; display = display }

new_line-cells_example : (new_line console).cells 1 ≡ 69
new_line-cells_example = new_line-cells console 1 refl (omega arith) (omega arith) 1

abbrev pub keyboard : KeyboardState
keyboard = record { is_left_shift = false; is_right_shift = true; is_read = false; buffer = 0 }

-- Left shift down, a, right shift up, b.
handle_all-held_example :
    ((handle_all 0 (0x2A ∷ 30 ∷ 0xB6 ∷ 48 ∷ []) (keyboard, console)).0.is_left_shift ≡ true)
    × ((handle_all 0 (0x2A ∷ 30 ∷ 0xB6 ∷ 48 ∷ []) (keyboard, console)).0.is_right_shift ≡ false)
handle_all-held_example = handle_all-held 0 (0x2A ∷ 30 ∷ 0xB6 ∷ 48 ∷ []) (keyboard, console)

abbrev pub empty_gate : IdtEntry
empty_gate = record {
  offset0 = 0;
  selector = 0;
  interrupt_stack_table = 0;
  type_attribute = 0;
  offset1 = 0;
  offset2 = 0;
  ignore = 0;
}

-- Handlers at every sixteenth address.
abbrev pub handler : ℕ → ℕ
handler i = 0xffff800000000000 + i * 16

install_gates-LeadsTo_example :
    LeadsTo handler true 0x21 empty_gate (install_gates handler vectors (λ i. empty_gate) 0x21)
install_gates-LeadsTo_example =
    install_gates-LeadsTo handler vectors (λ i. empty_gate) 0x21 (omega arith)

clear_color-fills_example :
    ((row column : ℕ)
      → row < 32
      → column < 24
      → (clear_color 0xff display).pixels (0 + 24 * 4 * row + 4 * column) ≡ 0xff)
    × ((a : ℕ) → (a < 0) ⊎ (0 + 24 * 4 * 32 ≤ a) → (clear_color 0xff display).pixels a ≡ 0)
clear_color-fills_example = clear_color-fills 0xff display (omega arith) (omega arith)

-- Glyphs with a line to the left and one to the right.
abbrev inked : Display
inked = record display { bytes = λ a. 0b10000001 }

render_char-draws_example : (render_char 65 1 0 inked).pixels (pixel inked 8 3) ≡ 0xffffff
render_char-draws_example =
    render_char-draws 65 1 0 8 3 inked (omega arith) (omega arith) (omega arith) (omega arith)
      (omega arith) (omega arith)
