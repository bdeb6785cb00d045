-- ===== src/Drivers/Console.antt =====
-- kernel/src/Drivers/Console.c. `cells i` is the character at `Console.buffer[i]`; the buffer
-- comes from `malloc` and overlaps nothing else, so the cells are a memory of their own.
pub mod Scroll
use os_tk.Base.{
  ℕ, zero, suc, ◌+◌, ◌-◌, ◌*◌, ◌/◌, ◌^◌, ltb, leb, ◌==◌, if◌then◌else◌, List, [], ◌∷◌, u32,
}
use os_tk.Libc.Bytes.{store, sub_u32}
use os_tk.Drivers.Display.{Display, render_char, clear, get_width, get_height}

pub record Console : Type 0 where
  pub x : ℕ
  pub y : ℕ
  pub width : ℕ
  pub height : ℕ
  pub cells : ℕ → ℕ
  pub display : Display

-- `PutChar`
pub put_char : (character x y : ℕ) → Console → Console
put_char character x y s =
    let index = u32 (x + s.width * y) in
    record s {
      cells = store s.cells index character;
      display = render_char character x y s.display;
    }

-- The loop of `ClearRow`, and `ClearRow`.
pub clear_cells : (left x y : ℕ) → Console → Console
clear_cells zero x y s = s
clear_cells (suc left) x y s = clear_cells left (x + 1) y (put_char 32 x y s)

pub clear_row : ℕ → Console → Console
clear_row y s = clear_cells s.width 0 y s

-- The loop of `Console_Clear`.
pub blank : (left i : ℕ) → (ℕ → ℕ) → ℕ → ℕ
blank zero i cells = cells
blank (suc left) i cells = blank left (i + 1) (store cells i 32)

-- `Console_Clear`
pub console_clear : Console → Console
console_clear s = record s {
  display = clear s.display;
  cells = blank (u32 (s.height * s.width)) 0 s.cells;
}

-- `Console_Init`, with the cells that `malloc` gave.
pub console_init : (ℕ → ℕ) → Console → Console
console_init fresh s = console_clear (record s {
  x = 0;
  y = 0;
  width = get_width s.display;
  height = get_height s.display;
  cells = fresh;
})

-- The inner loop of `Console_NewLine`: row `y` moves up by one.
pub scroll_row : (left x y : ℕ) → Console → Console
scroll_row zero x y s = s
scroll_row (suc left) x y s =
    let character = s.cells (u32 (x + s.width * y)) in
    let wiped = record s { display = render_char 32 x (y - 1) s.display } in
    scroll_row left (x + 1) y (put_char character x (y - 1) wiped)

-- Its outer loop, from row `y` on with `left` rows to go.
pub scroll_rows : (left y : ℕ) → Console → Console
scroll_rows zero y s = s
scroll_rows (suc left) y s = scroll_rows left (y + 1) (scroll_row s.width 0 y s)

-- `Console_NewLine`
pub new_line : Console → Console
new_line s =
    let scrolled = scroll_rows (s.height - 1) 1 s in
    record (clear_row (sub_u32 scrolled.height 1) scrolled) { x = 0 }

-- `Console_DeleteChar`
pub delete_char : Console → Console
delete_char s =
    if ltb 0 s.x then put_char 32 (s.x - 1) (sub_u32 s.height 1) (record s { x = s.x - 1 }) else s

-- `Console_PutChar`
pub console_put_char : ℕ → Console → Console
console_put_char character s =
    if character == 10
    then new_line s
    else if character == 8
    then delete_char s
    else let room = if leb s.width s.x then new_line s else s in
      let shown = put_char character room.x (sub_u32 room.height 1) room in
      record shown { x = u32 (shown.x + 1) }

-- `Console_PrintString` of a string with the given bytes.
pub print_string : List ℕ → Console → Console
print_string [] s = s
print_string (c ∷ cs) s = print_string cs (console_put_char c s)

abbrev pub set_position : ℕ → ℕ → Console → Console
set_position x y s = record s { x = x; y = y }
