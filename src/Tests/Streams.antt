-- ===== src/Tests/Streams.antt =====
-- A line from the keyboard.
use os_tk.Base.{
  ◌+◌, ◌-◌, ◌*◌, ◌/◌, ltb, get_or, inl, if◌then◌else◌, ◌==◌, ◌≡◌, refl, false, [], ◌∷◌, some, arith,
}
use os_tk.Libc.Bytes.{Bytes, IsString}
use os_tk.Drivers.Keyboard.{
  KeyboardState, keyboard_handler, on_press, keyboard_translator, begin_read,
}
use os_tk.Drivers.Keyboard.Shift.{handle_all}
use os_tk.Drivers.Keyboard.Read.{wait_read, keyboard_read_char, keyboard_read_char-press}
use os_tk.Drivers.Console.{Console, console_put_char}
use os_tk.Libc.Stdio.{World, stdin, getc, read_key, fgets}
use os_tk.Libc.Double.{Doubles}
use os_tk.Libc.Stdio.Scan.{sscanf, store_bytes}
use os_tk.Libc.Stdio.Scan.Laws.{sscanf-decimal, sscanf-no_width}
use os_tk.Libc.Stdio.Lines.{Typed, KeepsOutside, fgets-KeepsOutside, fgets-IsString}
use os_tk.Tests.Drivers.{console, keyboard}

-- Left shift down and up, then a.
keyboard_read_char-press_example :
    let u = handle_all 0 (0x2A ∷ 0xAA ∷ []) (begin_read keyboard, console) in
    (t : KeyboardState × Console) × (keyboard_read_char 0
        (0x2A ∷ 0xAA ∷ 30 ∷ 31 ∷ [])
        (keyboard, console)
      ≡ some (65, 31 ∷ [], t))
    × (t.0.is_read ≡ false)
unfolding handle_all keyboard_handler keyboard_translator
keyboard_read_char-press_example =
    keyboard_read_char-press 0 (0x2A ∷ 0xAA ∷ []) 30 (31 ∷ []) keyboard console
      (refl, omega arith, (refl, omega arith, tt)) refl

-- The keys a and Enter are to come.
abbrev world : World
world = record {
  console = console;
  keyboard = record keyboard { is_right_shift = false };
  codes = 30 ∷ 0x9E ∷ 0x1C ∷ [];
  outside = 0;
}

abbrev read_keyboard : KeyboardState
read_keyboard = record {
  is_left_shift = false;
  is_right_shift = false;
  is_read = false;
  buffer = 10;
}

abbrev after : World
after = record {
  console = console_put_char 10 (console_put_char 97 console);
  keyboard = read_keyboard;
  codes = [];
  outside = 0;
}

typed : Typed (97 ∷ 10 ∷ []) world after
unfolding getc read_key keyboard_read_char wait_read keyboard_handler on_press keyboard_translator
typed = (_, refl, (_, refl, refl))

fgets-KeepsOutside_example :
    (m' : Bytes) × (fgets 2 16 1 stdin (λ a. 7) world ≡ some (m', after))
    × KeepsOutside 16 1 (λ a. 7) m'
fgets-KeepsOutside_example =
    fgets-KeepsOutside 2 16 1 (97 ∷ []) (λ a. 7) world after typed ((λ e. omega arith), tt)
      (omega arith)

fgets-IsString_example :
    (m' : Bytes) × (fgets 2 16 8 stdin (λ a. 7) world ≡ some (m', after))
    × IsString m' 16 (97 ∷ 10 ∷ [])
fgets-IsString_example =
    fgets-IsString 2 16 8 (97 ∷ []) (λ a. 7) world after typed ((λ e. omega arith), tt)
      (
        (omega arith, omega arith, (λ e. omega arith)),
        ((omega arith, omega arith, (λ e. omega arith)), tt),
      )
      (omega arith) (omega arith)

-- "%d" at 8 and "42" at 1.
abbrev texts : Bytes
texts q = get_or (0 ∷ 52 ∷ 50 ∷ 0 ∷ 0 ∷ 0 ∷ 0 ∷ 0 ∷ 37 ∷ 100 ∷ 0 ∷ []) q 0

-- Numbers for doubles.
abbrev pub ideal : Doubles
ideal = record {
  of_int = λ i. i;
  of_u64 = λ w. w;
  add = ◌+◌;
  sub = ◌-◌;
  mul = ◌*◌;
  over = ◌/◌;
  less = ltb;
  to_float = λ d. d;
}

sscanf-decimal_example : sscanf ideal 3 2 1 8 (16 ∷ []) texts ≡ some (1, store_bytes 4 texts 16 42)
sscanf-decimal_example =
    sscanf-decimal ideal 2 1 8 16 [] texts 52 (50 ∷ [])
      (refl, omega arith, omega arith, (refl, omega arith, omega arith, refl))
      (omega arith, omega arith, (omega arith, omega arith, tt)) (omega arith) 0 (λ e. omega arith)
      (λ e. omega arith) (λ e. omega arith) refl refl refl (inl (omega arith))

-- "%s" at 8.
abbrev string_format : Bytes
string_format q = if q == 9 then 115 else texts q

sscanf-no_width_example : sscanf ideal 0 1 1 8 (16 ∷ []) string_format ≡ some (0, string_format)
sscanf-no_width_example =
    sscanf-no_width ideal 0 1 8 (16 ∷ []) string_format 0 (λ e. omega arith) (λ e. omega arith) refl
      (inl refl)

-- A clock that counts ticks.
abbrev clock : Doubles
clock = record ideal { over = λ a b. 1 }
