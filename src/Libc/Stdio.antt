-- ===== src/Libc/Stdio.antt =====
-- lib/libc/src/stdio.c: the three streams. Output goes to the console, input comes from the keyboard,
-- whose scan codes to come are part of the state.
pub mod Lines
pub mod Scan
pub mod Input
use os_tk.Base.{
  ℕ, zero, suc, ◌+◌, ◌-◌, ◌*◌, ◌^◌, Bool, true, false, not, ◌&&◌, ◌||◌, ◌==◌, ltb, if◌then◌else◌,
  Option, none, some, List, [], ◌∷◌,
}
use os_tk.Libc.Bytes.{Bytes, store}
use os_tk.Drivers.Console.{Console, console_put_char, print_string, new_line}
use os_tk.Drivers.Keyboard.{KeyboardState}
use os_tk.Drivers.Keyboard.Read.{keyboard_read_char}

-- The `FILE*` values: the streams that the library sets up, and any other.
pub data Stream : Type 0 where
  stdin stdout stderr other : Stream

abbrev pub is_output : Stream → Bool
is_output stdin = false
is_output stdout = true
is_output stderr = true
is_output other = false

-- The console, the keyboard and its scan codes to come. `outside` lies behind the keyboard's table.
pub record World : Type 0 where
  pub console : Console
  pub keyboard : KeyboardState
  pub codes : List ℕ
  pub outside : ℕ

abbrev pub putchar : ℕ → World → World
putchar character w = record w { console = console_put_char character w.console }

abbrev pub putchar_ : ℕ → World → World
putchar_ character w = w

abbrev pub putc : ℕ → World → World
putc character w = putchar character w

-- `puts` of a string with the given bytes.
abbrev pub puts : List ℕ → World → World
puts string w = record w { console = new_line (print_string string w.console) }

abbrev pub fputc : Stream → ℕ → World → World
fputc file character w = if is_output file then putchar character w else w

abbrev pub f_output_stream : ℕ → Stream → World → World
f_output_stream character stream w = fputc stream character w

abbrev pub fputs : Stream → List ℕ → World → World
fputs file string w = if is_output file then puts string w else w

-- The formatted output functions write nothing and return 0.
abbrev pub vfprintf : Stream → World → ℕ × World
vfprintf file w = (0, w)

abbrev pub vprintf : World → ℕ × World
vprintf w = vfprintf stdout w

abbrev pub fprintf : Stream → World → ℕ × World
fprintf file w = vfprintf file w

abbrev pub printf : World → ℕ × World
printf w = fprintf stdout w

abbrev pub vsnprintf : Bytes → ℕ × Bytes
vsnprintf m = (0, m)

abbrev pub snprintf : Bytes → ℕ × Bytes
snprintf m = vsnprintf m

-- `EOF` as a `char`.
abbrev pub eof : ℕ
eof = 255

unfoldable pub read_key :
    Option (ℕ × List ℕ × (KeyboardState × Console)) → World → Option (ℕ × World)
read_key none w = none
read_key (some (character, codes, (keyboard, console))) w =
    some (character, record w { console = console; keyboard = keyboard; codes = codes })

-- `getc`; `none` means that it waits for a key for ever.
unfoldable pub getc : Stream → World → Option (ℕ × World)
unfolding read_key
getc stdin w = read_key (keyboard_read_char w.outside w.codes (w.keyboard, w.console)) w
getc stdout w = some (eof, w)
getc stderr w = some (eof, w)
getc other w = some (eof, w)

abbrev pub getchar : World → Option (ℕ × World)
getchar w = getc stdin w

-- What `fgets` does with a character: the index and the memory after it.
pub take_char : (string size buffer : ℕ) → ℕ × Bytes → ℕ × Bytes
take_char string size buffer (index, m) =
    let erase = (buffer == 8) && ltb 0 index in
    let m1 = if erase then store m (string + index) 0 else m in
    let index1 = if erase then index - 1 else index in
    if index1 == size then (index1, m1) else (index1 + 1, store m1 (string + index1) buffer)

-- The loop of `fgets`, on fuel above the number of characters of the line.
pub fgets_loop : ℕ → (string size : ℕ) → ℕ × Bytes → World → Option ((ℕ × Bytes) × World)
fgets_loop zero string size s w = none
fgets_loop (suc fuel) string size s w = elim (getc stdin w) [
  | none ↦ none
  | some (buffer, v) ↦
      let t = take_char string size buffer s in
      let rest = fgets_loop fuel string size t v in if buffer == 10 then some (t, v) else rest
]

-- `fgets`: the memory and the world after it.
pub fgets : ℕ → (string size : ℕ) → Stream → Bytes → World → Option (Bytes × World)
fgets fuel string size stdin m w = elim (fgets_loop fuel string size (0, m) w) [
  | none ↦ none
  | some ((index, m1), v) ↦ some ((if index == size then m1 else store m1 (string + index) 0), v)
]
fgets fuel string size stdout m w = some (m, w)
fgets fuel string size stderr m w = some (m, w)
fgets fuel string size other m w = some (m, w)

-- The inner loop of `fread`, with `left` bytes of the member to go: whether the member is complete,
-- `charPointer`, and the memory. A character is compared with `EOF` as a signed `char`.
pub fread_member :
    (left : ℕ) → Stream → (char_pointer : ℕ) → Bytes → World → Option (Bool × ℕ × Bytes × World)
fread_member zero stream p m w = some (true, p, m, w)
fread_member (suc left) stream p m w = elim (getc stream w) [
  | none ↦ none
  | some (character, v) ↦
      let rest = fread_member left stream (p + 1) (store m p character) v in
      if character == eof then some (false, p, m, v) else rest
]

-- The outer loop, with `left` members to go.
pub fread_loop :
    (left : ℕ)
    → (size number_done : ℕ) → Stream
    → (char_pointer : ℕ) → Bytes
    → World
    → Option (ℕ × Bytes × World)
fread_loop zero size number_done stream p m w = some (number_done, m, w)
fread_loop (suc left) size number_done stream p m w = elim (fread_member size stream p m w) [
  | none ↦ none
  | some (false, p1, m1, v) ↦ some (number_done, m1, v)
  | some (true, p1, m1, v) ↦ fread_loop left size (number_done + 1) stream p1 m1 v
]

pub fread : (pointer size nmemb : ℕ) → Stream → Bytes → World → Option (ℕ × Bytes × World)
fread pointer size nmemb stream m w =
    if size == 0 then some (0, m, w) else fread_loop nmemb size 0 stream pointer m w
