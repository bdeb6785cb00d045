-- ===== src/Drivers/Display/Rows.antt =====
-- The rows that `TextRenderer_RenderChar` draws.
use os_tk.Base.{
  ℕ, zero, suc, ◌+◌, ◌-◌, ◌*◌, ◌/◌, ◌^◌, ◌<◌, ◌≤◌, ◌≡◌, refl, ap, ◌∙◌, sym, subst, Bool, true,
  false, if◌then◌else◌, ◌&&◌, ◌==◌, ltb, leb, arith, Bool-cases, inl, inr, u64, ==-refl, ne→==,
  bit_and,
}
use native.Mathlib.Nat.{add-mul}
use os_tk.Libc.Bytes.{Bytes}
use os_tk.Drivers.Display.{Display, draw_pixel, draw_row, draw_rows}

suc_times : (y p : ℕ) → suc y * p ≡ y * p + p
suc_times y p = omega (arith, add-mul y 1 p)

-- Two pixels of the lines of `p` pixels have one place only if they are the same.
place_inj : (p x y x' y' : ℕ) → x < p → x' < p → x + y * p ≡ x' + y' * p → (x ≡ x') × (y ≡ y')
place_inj p x zero x' zero lt lt' e = (omega (arith, e), refl)
place_inj p x zero x' (suc y') lt lt' e =
    let next : suc y' * p ≡ y' * p + p = suc_times y' p in absurd (omega (arith, e, next, lt))
place_inj p x (suc y) x' zero lt lt' e =
    let next : suc y * p ≡ y * p + p = suc_times y p in absurd (omega (arith, e, next, lt'))
place_inj p x (suc y) x' (suc y') lt lt' e =
    let next : suc y * p ≡ y * p + p = suc_times y p in
    let next' : suc y' * p ≡ y' * p + p = suc_times y' p in
    let r = place_inj p x y x' y' lt lt' (omega (arith, e, next, next')) in (r.0, ap suc r.1)

-- What a row of a character of the colours `color` and `clear` makes of a pixel.
abbrev pub painted : (color clear character row column old : ℕ) → ℕ
painted color clear character row column old =
    if character == 32
    then clear
    else if ltb 0 (bit_and row (0b10000000 / 2 ^ column))
    then color
    else old

module _ (base p color clear : ℕ) (bytes : Bytes) where
  abbrev pub place : (x y : ℕ) → ℕ
  place x y = base + 4 * (x + y * p)

  -- What the drawing reads of the display.
  pub record Shows (s : Display) : Type 0 where
    pub base_address : s.frame_buffer.base_address ≡ base
    pub line : s.frame_buffer.pixels_per_scan_line ≡ p
    pub color_of : s.renderer.color ≡ color
    pub clear_of : s.renderer.clear_color ≡ clear
    pub bytes_of : (a : ℕ) → s.bytes a ≡ bytes a

  module _ (character fp xo : ℕ) where
    draw_pixel-Shows : (x y : ℕ) (s : Display) → Shows s → Shows (draw_pixel character fp xo x y s)
    draw_pixel-Shows x y s h = elim (Bool-cases (character == 32)) [
      | inl space ↦ rw space (record {
        base_address = h.base_address;
        line = h.line;
        color_of = h.color_of;
        clear_of = h.clear_of;
        bytes_of = h.bytes_of;
      })
      | inr other ↦ elim (Bool-cases (ltb 0 (bit_and (s.bytes fp) (0b10000000 / 2 ^ (x - xo))))) [
        | inl lit ↦
            rw (other, lit)
              (record {
                base_address = h.base_address;
                line = h.line;
                color_of = h.color_of;
                clear_of = h.clear_of;
                bytes_of = h.bytes_of;
              })
        | inr dark ↦ rw (other, dark) h
      ]
    ]

    draw_pixel-pixels :
        (x y a : ℕ) (s : Display)
        → Shows s
        → place x y < 2 ^ 64
        → (draw_pixel character fp xo x y s).pixels a ≡ (
            if place x y == a
            then painted color clear character (bytes fp) (x - xo) (s.pixels a)
            else s.pixels a)
    draw_pixel-pixels x y a s h fits =
        let line = s.frame_buffer.pixels_per_scan_line in
        let at : u64 (s.frame_buffer.base_address + 4 * (x + y * line)) ≡ place x y =
          ap (λ b. u64 (b + 4 * (x + y * line))) h.base_address
          ∙ ap (λ l. u64 (base + 4 * (x + y * l))) h.line
          ∙ omega (arith, fits) in
        let same : ltb 0 (bit_and (bytes fp) (0b10000000 / 2 ^ (x - xo)))
            ≡ ltb 0 (bit_and (s.bytes fp) (0b10000000 / 2 ^ (x - xo))) =
          ap (λ w. ltb 0 (bit_and w (0b10000000 / 2 ^ (x - xo)))) (sym (h.bytes_of fp)) in
        elim (Bool-cases (character == 32)) [
          | inl space ↦ rw (space, at, h.clear_of) refl
          | inr other ↦
              elim (Bool-cases (ltb 0 (bit_and (s.bytes fp) (0b10000000 / 2 ^ (x - xo))))) [
                | inl lit ↦ rw (other, lit, same ∙ lit, at, h.color_of) refl
                | inr dark ↦
                    rw (other, dark, same ∙ dark)
                      (elim (Bool-cases (place x y == a)) [
                        | inl here ↦ rw here refl
                        | inr there ↦ rw there refl
                      ])
              ]
        ]

    draw_row-Shows :
        (left x y : ℕ) (s : Display) → Shows s → Shows (draw_row character fp xo left x y s)
    unfolding draw_row
    draw_row-Shows zero x y s h = h
    draw_row-Shows (suc left) x y s h =
        draw_row-Shows left (x + 1) y (draw_pixel character fp xo x y s) (draw_pixel-Shows x y s h)

    draw_row-pixels :
        (left x y x' y' : ℕ) (s : Display)
        → Shows s
        → x + left ≤ p
        → x' < p
        → place p y < 2 ^ 64
        → (draw_row character fp xo left x y s).pixels (place x' y') ≡ (
            if leb x x' && ltb x' (x + left) && (y == y')
            then painted color clear character (bytes fp) (x' - xo) (s.pixels (place x' y'))
            else s.pixels (place x' y'))
    unfolding draw_row
    draw_row-pixels zero x y x' y' s h room inside fits =
        let empty : (leb x x' && ltb x' (x + 0) && (y == y')) ≡ false = ground arith in
        rw empty refl
    draw_row-pixels (suc left) x y x' y' s h room inside fits =
        let s1 = draw_pixel character fp xo x y s in
        let a = place x' y' in
        let first = draw_pixel-pixels x y a s h (omega (arith, fits, room)) in
        let rest =
          draw_row-pixels left (x + 1) y x' y' s1 (draw_pixel-Shows x y s h) (omega (arith, room))
            inside fits in
        elim (Bool-cases ((x == x') && (y == y'))) [
          | inl here ↦
              let column : x ≡ x' = ground (arith, here) in
              let row : y ≡ y' = ground (arith, here) in
              let same : place x y ≡ a = omega (arith, column, ap (λ k. k * p) row) in
              let hit : (place x y == a) ≡ true =
                ap (λ k. place x y == k) (sym same) ∙ ==-refl (place x y) in
              let now : (leb x x' && ltb x' (x + suc left) && (y == y')) ≡ true =
                ground (arith, here) in
              let later : (leb (x + 1) x' && ltb x' (x + 1 + left) && (y == y')) ≡ false =
                ground (arith, here) in
              rest
              ∙ ap
                  (λ b.
                    if b
                    then painted color clear character (bytes fp) (x' - xo) (s1.pixels a)
                    else s1.pixels a)
                  later
              ∙ first
              ∙ ap
                  (λ b.
                    if b
                    then painted color clear character (bytes fp) (x - xo) (s.pixels a)
                    else s.pixels a)
                  hit
              ∙ ap (λ k. painted color clear character (bytes fp) (k - xo) (s.pixels a)) column
              ∙ ap
                  (λ b.
                    if b
                    then painted color clear character (bytes fp) (x' - xo) (s.pixels a)
                    else s.pixels a)
                  (sym now)
          | inr there ↦
              let apart : (place x y == a) ≡ false = ne→== (place x y) a (λ e.
                let r = place_inj p x y x' y' (omega (arith, room)) inside (omega (arith, e)) in
                ground (arith, there, r.0, r.1)) in
              let same : (leb (x + 1) x' && ltb x' (x + 1 + left) && (y == y'))
                  ≡ (leb x x' && ltb x' (x + suc left) && (y == y')) =
                ground (arith, there) in
              let kept =
                first
                ∙ ap
                    (λ b.
                      if b
                      then painted color clear character (bytes fp) (x - xo) (s.pixels a)
                      else s.pixels a)
                    apart in
              rest
              ∙ ap
                  (λ k.
                    if leb (x + 1) x' && ltb x' (x + 1 + left) && (y == y')
                    then painted color clear character (bytes fp) (x' - xo) k
                    else k)
                  kept
              ∙ ap
                  (λ b.
                    if b
                    then painted color clear character (bytes fp) (x' - xo) (s.pixels a)
                    else s.pixels a)
                  same
        ]

  draw_rows-Shows :
      (character xo columns left fp y : ℕ) (s : Display)
      → Shows s
      → Shows (draw_rows character xo columns left fp y s)
  unfolding draw_rows
  draw_rows-Shows character xo columns zero fp y s h = h
  draw_rows-Shows character xo columns (suc left) fp y s h =
      draw_rows-Shows character xo columns left (fp + 1) (y + 1)
        (draw_row character fp xo columns xo y s) (draw_row-Shows character fp xo columns xo y s h)

  pub draw_rows-pixels :
      (character xo columns left fp y x' y' : ℕ) (s : Display)
      → Shows s
      → xo + columns ≤ p
      → x' < p
      → place p (y + left) < 2 ^ 64
      → (draw_rows character xo columns left fp y s).pixels (place x' y') ≡ (
          if leb xo x' && ltb x' (xo + columns) && (leb y y' && ltb y' (y + left))
          then painted color clear character
              (bytes (fp + (y' - y)))
              (x' - xo)
              (s.pixels (place x' y'))
          else s.pixels (place x' y'))
  unfolding draw_rows
  draw_rows-pixels character xo columns zero fp y x' y' s h room inside fits =
      let empty : (leb xo x' && ltb x' (xo + columns) && (leb y y' && ltb y' (y + 0))) ≡ false =
        ground arith in
      rw empty refl
  draw_rows-pixels character xo columns (suc left) fp y x' y' s h room inside fits =
      let s1 = draw_row character fp xo columns xo y s in
      let a = place x' y' in
      let first =
        draw_row-pixels character fp xo columns xo y x' y' s h room inside
          (omega (arith, fits, add-mul y (suc left) p)) in
      let rest =
        draw_rows-pixels character xo columns left (fp + 1) (y + 1) x' y' s1
          (draw_row-Shows character fp xo columns xo y s h) room inside
          (subst (λ k. place p k < 2 ^ 64) (omega arith) fits) in
      let pick = λ (b : Bool) (row old : ℕ).
        if b then painted color clear character row (x' - xo) old else old in
      let column = leb xo x' && ltb x' (xo + columns) in
      let all = column && (leb y y' && ltb y' (y + suc left)) in
      let later = column && (leb (y + 1) y' && ltb y' (y + 1 + left)) in
      elim (Bool-cases (y == y')) [
        | inl here ↦
            let same : (leb xo x' && ltb x' (xo + columns) && (y == y')) ≡ all =
              ground (arith, here) in
            let none_later : later ≡ false = ground (arith, here) in
            let first_row : bytes fp ≡ bytes (fp + (y' - y)) = ap bytes (ground (arith, here)) in
            rest
            ∙ ap (λ b. pick b (bytes (fp + 1 + (y' - (y + 1)))) (s1.pixels a)) none_later
            ∙ first
            ∙ ap (λ b. pick b (bytes fp) (s.pixels a)) same
            ∙ ap (λ w. pick all w (s.pixels a)) first_row
        | inr there ↦
            let not_now : (leb xo x' && ltb x' (xo + columns) && (y == y')) ≡ false =
              ground (arith, there) in
            let same : later ≡ all = ground (arith, there) in
            let kept = first ∙ ap (λ b. pick b (bytes fp) (s.pixels a)) not_now in
            rest
            ∙ ap (λ k. pick later (bytes (fp + 1 + (y' - (y + 1)))) k) kept
            ∙ elim (Bool-cases (ltb y y')) [
              | inl below ↦
                  ap (λ b. pick b (bytes (fp + 1 + (y' - (y + 1)))) (s.pixels a)) same
                  ∙ ap (λ k. pick all (bytes k) (s.pixels a)) (ground (arith, below))
              | inr above ↦
                  let none : all ≡ false = ground (arith, there, above) in
                  ap (λ b. pick b (bytes (fp + 1 + (y' - (y + 1)))) (s.pixels a)) (same ∙ none)
                  ∙ ap (λ b. pick b (bytes (fp + (y' - y))) (s.pixels a)) (sym none)
            ]
      ]
