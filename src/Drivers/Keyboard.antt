-- ===== src/Drivers/Keyboard.antt =====
-- kernel/src/Drivers/Keyboard.c. `begin_read` is the first half of `KeyboardReadChar`, and the wait for
-- the interrupt that clears `isRead` is in Keyboard/Read.
pub mod Shift
pub mod Read
use os_tk.Base.{
  ℕ, ◌+◌, ◌-◌, ◌^◌, Bool, true, false, not, ◌&&◌, ◌||◌, ltb, ◌==◌, if◌then◌else◌, List, [], ◌∷◌,
  get_or, codes, ◌++◌, u8, u32,
}
use os_tk.Drivers.Console.{Console, console_put_char}

-- `ASCIIKeys`; 0 is a key without a character.
abbrev pub ascii_keys : List ℕ
ascii_keys =
    0 ∷ 0 ∷ 49 ∷ 50 ∷ 51 ∷ 52 ∷ 53 ∷ 54 ∷ 55 ∷ 56 ∷ 57 ∷ 48 ∷ 45 ∷ 61 ∷ 0 ∷ 0 ∷ 113 ∷ 119 ∷ 101
    ∷ 114 ∷ 116 ∷ 121 ∷ 117 ∷ 105 ∷ 111 ∷ 112 ∷ 91 ∷ 93 ∷ 0 ∷ 0 ∷ 97 ∷ 115 ∷ 100 ∷ 102 ∷ 103 ∷ 104
    ∷ 106 ∷ 107 ∷ 108 ∷ 59 ∷ 39 ∷ 96 ∷ 0 ∷ 92 ∷ 122 ∷ 120 ∷ 99 ∷ 118 ∷ 98 ∷ 110 ∷ 109 ∷ 44 ∷ 46 ∷ 47
    ∷ 0 ∷ 42 ∷ 0 ∷ 32 ∷ []

-- `KeyboardState`
pub record KeyboardState : Type 0 where
  pub is_left_shift : Bool
  pub is_right_shift : Bool
  pub is_read : Bool
  pub buffer : ℕ

-- `KeyboardTranslator`. `outside` is what lies behind the table, which has 58 entries: the check
-- lets 58 through.
unfoldable pub keyboard_translator : (outside : ℕ) → ℕ → Bool → ℕ
keyboard_translator outside scan_code upper =
    if ltb 58 scan_code
    then 0
    else if scan_code == 0x1C
    then 10
    else if scan_code == 0x0E
    then 8
    else if upper
    then u8 (get_or ascii_keys scan_code outside + (2 ^ 8 - 32))
    else get_or ascii_keys scan_code outside

-- `Keyboard_OnPress`
unfoldable pub on_press : (outside : ℕ) → ℕ → KeyboardState × Console → KeyboardState × Console
on_press outside scan_code (s, console) =
    let character = keyboard_translator outside scan_code (s.is_left_shift || s.is_right_shift) in
    let pressed = record s { buffer = character } in
    if s.is_read && not (character == 0)
    then (record pressed { is_read = false }, console_put_char character console)
    else (pressed, console)

-- `Keyboard_OnRelease`
abbrev pub on_release : ℕ → KeyboardState × Console → KeyboardState × Console
on_release scan_code s = s

-- `KeyboardHandler`. `(int)scanCode - 0x80` is negative for a code below 0x80 or from 2 ^ 31 + 0x80
-- on; the interrupt hands over bytes.
unfoldable pub keyboard_handler :
    (outside : ℕ) → ℕ → KeyboardState × Console → KeyboardState × Console
keyboard_handler outside scan_code (s, console) =
    if scan_code == 0x2A
    then (record s { is_left_shift = true }, console)
    else if scan_code == 0xAA
    then (record s { is_left_shift = false }, console)
    else if scan_code == 0x36
    then (record s { is_right_shift = true }, console)
    else if scan_code == 0xB6
    then (record s { is_right_shift = false }, console)
    else if ltb (u32 (scan_code + (2 ^ 32 - 0x80) + 2 ^ 31)) (2 ^ 31)
    then on_press outside scan_code (s, console)
    else on_release (u32 (scan_code + (2 ^ 32 - 0x80))) (s, console)

-- The first half of `KeyboardReadChar`.
abbrev pub begin_read : KeyboardState → KeyboardState
begin_read s = record s { is_read = true }
