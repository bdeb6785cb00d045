-- ===== src/Drivers/Display/Clear.antt =====
-- What `FrameBuffer_ClearColor` draws.
use os_tk.Base.{
  ℕ, zero, suc, ◌+◌, ◌*◌, ◌/◌, ◌^◌, ◌<◌, ◌≤◌, ◌≡◌, ◌⊎◌, inl, inr, refl, ap, ◌∙◌, sym, subst, false,
  ◌-◌, ◌%◌, ◌==◌, arith, Bool-cases, u64, u32, ==-refl, ne→==,
}
use os_tk.Libc.Bytes.{store}
use os_tk.Drivers.Display.{Display, fill_line, fill_lines, clear_color}

store-kept : (color p a : ℕ) (pixels : ℕ → ℕ) → pixels a ≡ color → store pixels p color a ≡ color
store-kept color p a pixels e = elim (Bool-cases (p == a)) [
  | inl here ↦ rw here refl
  | inr there ↦ rw there e
]

-- A pixel of the colour keeps it.
line-kept :
    (color left p a : ℕ) (pixels : ℕ → ℕ)
    → pixels a ≡ color
    → fill_line color left p pixels a ≡ color
unfolding fill_line
line-kept color zero p a pixels e = e
line-kept color (suc left) p a pixels e =
    line-kept color left (p + 4) a (store pixels p color) (store-kept color p a pixels e)

line-filled :
    (color left p column : ℕ) (pixels : ℕ → ℕ)
    → column < left
    → fill_line color left p pixels (p + 4 * column) ≡ color
unfolding fill_line
line-filled color zero p column pixels lt = absurd (omega (arith, lt))
line-filled color (suc left) p zero pixels lt =
    let place : p + 4 * 0 ≡ p = omega arith in
    rw place (line-kept color left (p + 4) p (store pixels p color) (rw (==-refl p) refl))
line-filled color (suc left) p (suc column) pixels lt =
    let place : p + 4 + 4 * column ≡ p + 4 * suc column = omega arith in
    ap (fill_line color left (p + 4) (store pixels p color)) (sym place)
    ∙ line-filled color left (p + 4) column (store pixels p color) (omega (arith, lt))

line-outside :
    (color left p a : ℕ) (pixels : ℕ → ℕ)
    → (a < p) ⊎ (p + 4 * left ≤ a)
    → fill_line color left p pixels a ≡ pixels a
unfolding fill_line
line-outside color zero p a pixels out = refl
line-outside color (suc left) p a pixels out =
    let away : (p == a) ≡ false = ne→== p a (λ e. omega (arith, e)) in
    line-outside color left (p + 4) a (store pixels p color) (ground arith) ∙ rw away refl

-- The lines where no address wraps round.
plain_lines : (color base bytes : ℕ) → (left line : ℕ) → (ℕ → ℕ) → ℕ → ℕ
plain_lines color base bytes zero line pixels = pixels
plain_lines color base bytes (suc left) line pixels =
    plain_lines color base bytes left (line + 1)
      (fill_line color (bytes / 4) (base + bytes * line) pixels)

fill_lines-plain_lines :
    (color base bytes left line : ℕ) (pixels : ℕ → ℕ)
    → bytes % 4 ≡ 0
    → base + bytes * (line + left) < 2 ^ 64
    → fill_lines color base bytes left line pixels ≡ plain_lines color base bytes left line pixels
unfolding fill_lines plain_lines
fill_lines-plain_lines color base bytes zero line pixels whole fits = refl
fill_lines-plain_lines color base bytes (suc left) line pixels whole fits =
    let all : bytes * (line + suc left) ≡ bytes * line + bytes + bytes * left = ground arith in
    let place : line + 1 + left ≡ line + suc left = omega arith in
    let start : u64 (base + bytes * line) ≡ base + bytes * line = omega (arith, fits, all) in
    let end : u64 (base + bytes * line + bytes) ≡ base + bytes * line + bytes =
      omega (arith, fits, all) in
    let pixels_of : (base + bytes * line + bytes - (base + bytes * line) + 3) / 4 ≡ bytes / 4 =
      omega (arith, whole) in
    rw (start, end, pixels_of)
      (fill_lines-plain_lines color base bytes left (line + 1)
        (fill_line color (bytes / 4) (base + bytes * line) pixels) whole
        (subst (λ k. base + bytes * k < 2 ^ 64) (sym place) fits))

module _ (color base bytes : ℕ) where
  abbrev lines : (left line : ℕ) → (ℕ → ℕ) → ℕ → ℕ
  lines left line pixels = plain_lines color base bytes left line pixels

  lines-kept :
      (left line a : ℕ) (pixels : ℕ → ℕ) → pixels a ≡ color → lines left line pixels a ≡ color
  unfolding plain_lines
  lines-kept zero line a pixels e = e
  lines-kept (suc left) line a pixels e =
      lines-kept left (line + 1) a (fill_line color (bytes / 4) (base + bytes * line) pixels)
        (line-kept color (bytes / 4) (base + bytes * line) a pixels e)

  lines-filled :
      (left line row column : ℕ) (pixels : ℕ → ℕ)
      → row < left
      → column < bytes / 4
      → lines left line pixels (base + bytes * (line + row) + 4 * column) ≡ color
  unfolding plain_lines
  lines-filled zero line row column pixels lt wide = absurd (omega (arith, lt))
  lines-filled (suc left) line zero column pixels lt wide =
      let a = base + bytes * line in
      let place : line + 0 ≡ line = omega arith in
      rw place (
        lines-kept left (line + 1) (a + 4 * column) (fill_line color (bytes / 4) a pixels)
          (line-filled color (bytes / 4) a column pixels wide))
  lines-filled (suc left) line (suc row) column pixels lt wide =
      let place : line + 1 + row ≡ line + suc row = omega arith in
      subst (λ k. lines (suc left) line pixels (base + bytes * k + 4 * column) ≡ color) place
        (lines-filled left (line + 1) row column
          (fill_line color (bytes / 4) (base + bytes * line) pixels) (omega (arith, lt)) wide)

  lines-outside :
      (left line a : ℕ) (pixels : ℕ → ℕ)
      → (a < base + bytes * line) ⊎ (base + bytes * (line + left) ≤ a)
      → lines left line pixels a ≡ pixels a
  unfolding plain_lines
  lines-outside zero line a pixels out = refl
  lines-outside (suc left) line a pixels out =
      let next : bytes * (line + 1) ≡ bytes * line + bytes = ground arith in
      let last : bytes * (line + suc left) ≡ bytes * line + bytes + bytes * left = ground arith in
      let last' : bytes * (line + 1 + left) ≡ bytes * line + bytes + bytes * left = ground arith in
      lines-outside left (line + 1) a (fill_line color (bytes / 4) (base + bytes * line) pixels)
        (ground (arith, out, next, last, last'))
      ∙ line-outside color (bytes / 4) (base + bytes * line) a pixels
          (ground (arith, out, next, last, last'))

-- `FrameBuffer_ClearColor` gives every pixel of the frame buffer the colour, and changes no memory
-- before or behind it. A line has fewer than 2 ^ 30 pixels, and the frame buffer ends below 2 ^ 64.
pub clear_color-fills :
    (color : ℕ) (s : Display)
    → s.frame_buffer.pixels_per_scan_line < 2 ^ 30
    → s.frame_buffer.base_address + s.frame_buffer.pixels_per_scan_line * 4 * s.frame_buffer.height
      < 2 ^ 64
    → let f = s.frame_buffer in
      ((row column : ℕ)
        → row < f.height
        → column < f.pixels_per_scan_line
        → (clear_color color s).pixels
            (f.base_address + f.pixels_per_scan_line * 4 * row + 4 * column)
          ≡ color)
      × ((a : ℕ)
          → (a < f.base_address) ⊎ (f.base_address + f.pixels_per_scan_line * 4 * f.height ≤ a)
          → (clear_color color s).pixels a ≡ s.pixels a)
unfolding clear_color
clear_color-fills color s small fits =
    let f = s.frame_buffer in
    let bytes = f.pixels_per_scan_line * 4 in
    let whole : u32 bytes ≡ bytes = omega arith in
    let wide : bytes / 4 ≡ f.pixels_per_scan_line = omega arith in
    let last_line : 0 + f.height ≡ f.height = omega arith in
    let multiple : bytes % 4 ≡ 0 = omega arith in
    let plain =
      fill_lines-plain_lines color f.base_address bytes f.height 0 s.pixels multiple
        (rw last_line fits) in
    rw (whole, plain)
      (
        λ row column inside within.
            let lt : column < bytes / 4 = omega (arith, within) in
            let place : 0 + row ≡ row = omega arith in
            subst
              (λ k.
                lines color f.base_address bytes f.height 0 s.pixels
                  (f.base_address + bytes * k + 4 * column)
                ≡ color)
              place
              (lines-filled color f.base_address bytes f.height 0 row column s.pixels inside lt),
        λ a out.
            let first : bytes * 0 ≡ 0 = omega arith in
            let last : 0 + f.height ≡ f.height = omega arith in
            lines-outside color f.base_address bytes f.height 0 a s.pixels
              (rw (first, last) (ground (arith, out))),
      )
