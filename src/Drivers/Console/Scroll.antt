-- ===== src/Drivers/Console/Scroll.antt =====
-- What a new line does to the cells of the console.
use os_tk.Base.{
  ℕ, zero, suc, ◌+◌, ◌-◌, ◌*◌, ◌^◌, ◌<◌, ◌≤◌, ◌≡◌, refl, ltb, leb, ◌&&◌, if◌then◌else◌, arith, u32,
  ap, ◌∙◌,
}
use native.Mathlib.Nat.{mul-add, mul-one}
use os_tk.Libc.Bytes.{sub_u32}
use os_tk.Drivers.Display.{render_char}
use os_tk.Drivers.Console.{
  Console, put_char, clear_cells, clear_row, scroll_row, scroll_rows, new_line,
}

-- The size stays.
abbrev SameSize : Console → Console → Type 0
SameSize s t = (t.width ≡ s.width) × (t.height ≡ s.height)

clear_cells-cells :
    (left x y : ℕ) (s : Console) (j : ℕ)
    → x + left + s.width * y < 2 ^ 32
    → SameSize s (clear_cells left x y s)
      × ((clear_cells left x y s).cells j
          ≡ (if leb (x + s.width * y) j && ltb j (x + left + s.width * y) then 32 else s.cells j))
unfolding clear_cells put_char
clear_cells-cells zero x y s j small = ((refl, refl), ground arith)
clear_cells-cells (suc left) x y s j small =
    let rest = clear_cells-cells left (x + 1) y (put_char 32 x y s) j (omega arith) in
    (rest.0, ground (arith, rest.1))

-- The state after the first cell of row `y + 1` has moved up.
abbrev moved : ℕ → ℕ → Console → Console
moved x y s =
    put_char (s.cells (x + s.width * y + s.width)) x y
      (record s { display = render_char 32 x y s.display })

scroll_row_step :
    (left x y : ℕ) (s : Console)
    → u32 (x + s.width * (y + 1)) ≡ x + s.width * y + s.width
    → scroll_row (suc left) x (y + 1) s ≡ scroll_row left (x + 1) (y + 1) (moved x y s)
unfolding scroll_row
scroll_row_step left x y s from =
    ap
      (λ k. scroll_row left (x + 1) (y + 1) (
        put_char (s.cells (u32 (x + s.width * (y + 1)))) x k
          (record s { display = render_char 32 x k s.display })))
      (less y)
    ∙ ap
        (λ k.
          scroll_row left (x + 1) (y + 1)
            (put_char (s.cells k) x y (record s { display = render_char 32 x y s.display })))
        from
  where
    less : (y : ℕ) → y + 1 - 1 ≡ y
    less y = omega arith

-- Row `y + 1` moves to row `y`.
scroll_row-cells :
    (left x y : ℕ) (s : Console) (j : ℕ)
    → x + left + s.width * y + s.width < 2 ^ 32
    → s.width * (y + 1) ≡ s.width * y + s.width
    → x + left ≤ s.width
    → SameSize s (scroll_row left x (y + 1) s)
      × ((scroll_row left x (y + 1) s).cells j ≡ (
          if leb (x + s.width * y) j && ltb j (x + left + s.width * y)
          then s.cells (j + s.width)
          else s.cells j))
unfolding scroll_row put_char
scroll_row-cells zero x y s j small next fit = ((refl, refl), ground arith)
scroll_row-cells (suc left) x y s j small next fit =
    let from : u32 (x + s.width * (y + 1)) ≡ x + s.width * y + s.width = omega arith in
    let rest = scroll_row-cells left (x + 1) y (moved x y s) j (omega arith) next (omega arith) in
    let read : x + s.width * y ≡ j → s.cells (x + s.width * y + s.width) ≡ s.cells (j + s.width) =
      λ e. ap (λ k. s.cells (k + s.width)) e in
    rw (scroll_row_step left x y s from) (rest.0, ground (arith, rest.1, read))

scroll_rows-cells :
    (left y w : ℕ) (s : Console) (j : ℕ)
    → s.width ≡ w
    → w * (y + left) + w < 2 ^ 32
    → SameSize s (scroll_rows left (y + 1) s)
      × ((scroll_rows left (y + 1) s).cells j
          ≡ (if leb (w * y) j && ltb j (w * (y + left)) then s.cells (j + w) else s.cells j))
unfolding scroll_rows
scroll_rows-cells zero y w s j e small =
    ((refl, refl), ground (arith, ap (λ k. w * k) (plus_zero y)))
  where
    plus_zero : (y : ℕ) → y + 0 ≡ y
    plus_zero y = omega arith
scroll_rows-cells (suc left) y w s j e small =
    let same : w * (y + suc left) ≡ w * (y + 1 + left) = ap (λ k. w * k) (omega arith) in
    let one : w * (y + 1) ≡ w * y + w = omega (arith, mul-add w y 1, mul-one w) in
    let all : w * (y + 1 + left) ≡ w * y + w + w * left =
      omega (arith, mul-add w (y + 1) left, one) in
    let here : s.width * y ≡ w * y = ap (λ k. k * y) e in
    let there : s.width * (y + 1) ≡ w * (y + 1) = ap (λ k. k * (y + 1)) e in
    let first =
      λ (k : ℕ). scroll_row-cells s.width 0 y s k (omega arith) (omega arith) (omega arith) in
    let t = scroll_row s.width 0 (y + 1) s in
    let size = first 0 in
    let rest = scroll_rows-cells left (y + 1) w t j (size.0.0 ∙ e) (omega arith) in
    let moved_twice = (first j).1 in
    let moved_late = (first (j + w)).1 in
    let shift : s.cells (j + s.width) ≡ s.cells (j + w) = ap (λ k. s.cells (j + k)) e in
    (
      (rest.0.0 ∙ size.0.0, rest.0.1 ∙ size.0.1),
      rw (same) (ground (arith, rest.1, moved_twice, moved_late, shift)),
    )

-- A new line moves each row up by one and blanks the last row, where the console has a row and its
-- number of cells fits a 32-bit word; cells beyond stay.
pub new_line-cells :
    (s : Console) (rows : ℕ)
    → s.height ≡ rows + 1
    → s.width * rows + s.width < 2 ^ 32
    → rows < 2 ^ 32 - 1
    → (j : ℕ)
    → (new_line s).cells j ≡ (
        if ltb j (s.width * rows)
        then s.cells (j + s.width)
        else if ltb j (s.width * rows + s.width)
        then 32
        else s.cells j)
unfolding new_line clear_row
new_line-cells s rows tall small few j =
    let e : s.height - 1 ≡ rows = omega arith in
    let zero_row : s.width * 0 ≡ 0 = omega arith in
    let plus : s.width * (0 + rows) ≡ s.width * rows = ap (λ k. s.width * k) (omega arith) in
    let up = scroll_rows-cells rows 0 s.width s j refl (omega arith) in
    let t = scroll_rows rows 1 s in
    let row : sub_u32 t.height 1 ≡ rows = omega (arith, up.0.1, tall) in
    let wide : t.width * rows ≡ s.width * rows = ap (λ k. k * rows) up.0.0 in
    let blanked = clear_cells-cells t.width 0 rows t j (omega (arith, up.0.0, wide)) in
    rw (e, row) (ground (arith, blanked.1, up.1, up.0.0, wide, plus, zero_row))
