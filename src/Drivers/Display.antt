-- ===== src/Drivers/Display.antt =====
-- kernel/src/Drivers/Display.c. `pixels` is the memory of 32-bit words that the frame buffer lies
-- in, and `bytes` the memory of the font and of the texts.
pub mod Clear
pub mod Rows
pub mod Glyph
use os_tk.Base.{
  ℕ, zero, suc, ◌+◌, ◌-◌, ◌*◌, ◌/◌, ◌^◌, bit_and, ltb, ◌==◌, not, if◌then◌else◌, Option, none, some,
  u32, u64,
}
use os_tk.Libc.Bytes.{Bytes, store}

-- `PSFFont` with the one field of its header that is used.
pub record PsfFont : Type 0 where
  pub char_size : ℕ
  pub glyph_buffer : ℕ

pub record FrameBuffer : Type 0 where
  pub base_address : ℕ
  pub buffer_size : ℕ
  pub width : ℕ
  pub height : ℕ
  pub pixels_per_scan_line : ℕ

pub record TextRenderer : Type 0 where
  pub color : ℕ
  pub clear_color : ℕ
  pub font : PsfFont

-- `GlobalTextRenderer`, `GlobalFrameBuffer` and the memory.
pub record Display : Type 0 where
  pub renderer : TextRenderer
  pub frame_buffer : FrameBuffer
  pub pixels : ℕ → ℕ
  pub bytes : Bytes

abbrev pub set_font : PsfFont → Display → Display
set_font font s = record s { renderer = record s.renderer { font = font } }

abbrev pub set_color : ℕ → Display → Display
set_color color s = record s { renderer = record s.renderer { color = color } }

abbrev pub text_renderer_init : PsfFont → Display → Display
text_renderer_init font s = record s {
  renderer = record s.renderer { color = 0xFFFFFF; font = font };
}

-- The inner loop of `FrameBuffer_ClearColor`, with `left` pixels of the line to go.
pub fill_line : ℕ → ℕ → ℕ → (ℕ → ℕ) → ℕ → ℕ
fill_line color zero pixel_pointer pixels = pixels
fill_line color (suc left) pixel_pointer pixels =
    fill_line color left (pixel_pointer + 4) (store pixels pixel_pointer color)

-- The outer loop, from a line on. A line that wraps round the end of the address space ends before
-- its start and is left out.
pub fill_lines : (color base bytes_per_scanline : ℕ) → (left line : ℕ) → (ℕ → ℕ) → ℕ → ℕ
fill_lines color base bytes_per_scanline zero line pixels = pixels
fill_lines color base bytes_per_scanline (suc left) line pixels =
    fill_lines color base bytes_per_scanline left (line + 1) (
      let start = u64 (base + bytes_per_scanline * line) in
      let end = u64 (start + bytes_per_scanline) in
      fill_line color ((end - start + 3) / 4) start pixels)

-- `FrameBuffer_ClearColor`
unfoldable pub clear_color : ℕ → Display → Display
clear_color color s =
    let f = s.frame_buffer in
    record s {
      renderer = record s.renderer { clear_color = color };
      pixels =
          fill_lines color f.base_address (u32 (f.pixels_per_scan_line * 4)) f.height 0 s.pixels;
    }

abbrev pub frame_buffer_init : FrameBuffer → Display → Display
frame_buffer_init frame_buffer s = clear_color 0x00 (record s { frame_buffer = frame_buffer })

-- `TextRenderer_Clear`
abbrev pub clear : Display → Display
clear s = clear_color s.renderer.clear_color s

-- The body of the inner loop of `TextRenderer_RenderChar`.
abbrev pub draw_pixel : (character font_pointer x_off x y : ℕ) → Display → Display
draw_pixel character font_pointer x_off x y s =
    let place =
      u64 (s.frame_buffer.base_address + 4 * (x + y * s.frame_buffer.pixels_per_scan_line)) in
    if character == 32
    then record s { pixels = store s.pixels place s.renderer.clear_color }
    else if ltb 0 (bit_and (s.bytes font_pointer) (0b10000000 / 2 ^ (x - x_off)))
    then record s { pixels = store s.pixels place s.renderer.color }
    else s

-- Its inner loop, with `left` columns to go, and its outer loop, with `left` rows to go.
pub draw_row : (character font_pointer x_off : ℕ) → (left x y : ℕ) → Display → Display
draw_row character font_pointer x_off zero x y s = s
draw_row character font_pointer x_off (suc left) x y s =
    draw_row character font_pointer x_off left (x + 1) y
      (draw_pixel character font_pointer x_off x y s)

pub draw_rows : (character x_off columns : ℕ) → (left font_pointer y : ℕ) → Display → Display
draw_rows character x_off columns zero font_pointer y s = s
draw_rows character x_off columns (suc left) font_pointer y s =
    draw_rows character x_off columns left (font_pointer + 1) (y + 1)
      (draw_row character font_pointer x_off columns x_off y s)

-- A `char`, which is signed, as the factor of a 64-bit offset.
abbrev char_u64 : ℕ → ℕ
char_u64 c = if ltb c 128 then c else c + (2 ^ 64 - 256)

-- `TextRenderer_RenderChar`. The bounds `xOff + 8` and `yOff + 16` are 32-bit words.
pub render_char : (character x_off y_off : ℕ) → Display → Display
render_char character x_off y_off s =
    let font = s.renderer.font in
    let x = u32 (x_off * 8) in
    let y = u32 (y_off * 16) in
    draw_rows character x (u32 (x + 8) - x) (u32 (y + 16) - y)
      (u64 (font.glyph_buffer + char_u64 character * font.char_size)) y s

-- `TextRenderer_RenderText`, on fuel above the length of the text.
pub render_text : (fuel string_pointer x y : ℕ) → Display → Option Display
render_text zero string_pointer x y s = none
render_text (suc fuel) string_pointer x y s =
    let character = s.bytes string_pointer in
    let drawn = if not (character == 10) then render_char character x y s else s in
    let next = u32 (x + 1) in
    let wraps = ltb s.frame_buffer.width (u32 (next + 8)) in
    let rest =
      render_text fuel (string_pointer + 1) (if wraps then 0 else next)
        (if wraps then u32 (y + 1) else y) drawn in
    if character == 0 then some s else rest

abbrev pub get_width : Display → ℕ
get_width s = s.frame_buffer.width / 8

abbrev pub get_height : Display → ℕ
get_height s = s.frame_buffer.height / 16
