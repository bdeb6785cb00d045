-- ===== src/Drivers/Display/Glyph.antt =====
-- What `TextRenderer_RenderChar` draws.
use os_tk.Base.{
  ℕ, ◌+◌, ◌-◌, ◌*◌, ◌^◌, ◌<◌, ◌≤◌, ◌≡◌, refl, Bool, true, if◌then◌else◌, ◌&&◌, ltb, leb, arith, u32,
  u64,
}
use os_tk.Drivers.Display.{Display, render_char}
use os_tk.Drivers.Display.Rows.{painted, draw_rows-pixels}

-- The first byte of a character's glyph.
abbrev pub glyph : Display → (character : ℕ) → ℕ
glyph s character = u64 (s.renderer.font.glyph_buffer + character * s.renderer.font.char_size)

-- The address of a pixel.
abbrev pub pixel : Display → (x y : ℕ) → ℕ
pixel s x y = s.frame_buffer.base_address + 4 * (x + y * s.frame_buffer.pixels_per_scan_line)

-- The pixel lies in the cell of a character.
abbrev pub in_cell : (x_off y_off x y : ℕ) → Bool
in_cell x_off y_off x y =
    leb (x_off * 8) x && ltb x (x_off * 8 + 8) && (leb (y_off * 16) y && ltb y (y_off * 16 + 16))

-- `TextRenderer_RenderChar`, pixel by pixel: in the cell of the character a space clears, any other
-- character below 128 draws the bits of its glyph and leaves the pixels between them, and no pixel
-- outside the cell changes. The cell lies within the lines of the frame buffer, and the addresses do
-- not wrap round.
pub render_char-draws :
    (character x_off y_off x y : ℕ) (s : Display)
    → character < 128
    → x_off * 8 + 8 ≤ s.frame_buffer.pixels_per_scan_line
    → s.frame_buffer.pixels_per_scan_line < 2 ^ 32
    → y_off * 16 + 16 < 2 ^ 32
    → pixel s s.frame_buffer.pixels_per_scan_line (y_off * 16 + 16) < 2 ^ 64
    → x < s.frame_buffer.pixels_per_scan_line
    → (render_char character x_off y_off s).pixels (pixel s x y) ≡ (
        if in_cell x_off y_off x y
        then painted s.renderer.color s.renderer.clear_color character
            (s.bytes (glyph s character + (y - y_off * 16)))
            (x - x_off * 8)
            (s.pixels (pixel s x y))
        else s.pixels (pixel s x y))
unfolding render_char
render_char-draws character x_off y_off x y s plain wide line high fits inside =
    let left : u32 (x_off * 8) ≡ x_off * 8 = omega (arith, wide, line) in
    let top : u32 (y_off * 16) ≡ y_off * 16 = omega (arith, high) in
    let columns : u32 (x_off * 8 + 8) - x_off * 8 ≡ 8 = omega (arith, wide, line) in
    let rows : u32 (y_off * 16 + 16) - y_off * 16 ≡ 16 = omega (arith, high) in
    let ascii : ltb character 128 ≡ true = ground (arith, plain) in
    rw (left, top, columns, rows, ascii)
      (draw_rows-pixels s.frame_buffer.base_address s.frame_buffer.pixels_per_scan_line
        s.renderer.color s.renderer.clear_color s.bytes character (x_off * 8) 8 16
        (glyph s character) (y_off * 16) x y s
        (record {
          base_address = refl;
          line = refl;
          color_of = refl;
          clear_of = refl;
          bytes_of = λ a. refl;
        })
        wide inside fits)
