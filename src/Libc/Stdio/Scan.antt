-- ===== src/Libc/Stdio/Scan.antt =====
-- `sscanf` of lib/libc/src/stdio.c. The variable arguments are a list of pointers; reading one that
-- was not passed gives NULL. `none` means that a loop ran out of fuel.
pub mod Laws
use os_tk.Base.{
  ℕ, zero, suc, ◌+◌, ◌-◌, ◌/◌, ◌^◌, Bool, true, false, not, ◌&&◌, ◌||◌, ◌==◌, if◌then◌else◌, Option,
  none, some, List, [], ◌∷◌, u8, u32, u64,
}
use os_tk.Libc.Bytes.{Bytes, null, store, char_int}
use os_tk.Libc.Ctype.{isspace, isdigit}
use os_tk.Libc.Double.{Doubles}
use os_tk.Libc.Stdlib.{strtol, strtoul}
use os_tk.Libc.Stdlib.Real.{strtod}

-- The variables of `sscanf` that outlive a round of its loop, and the memory.
pub record Scan : Type 0 where
  pub args_set : ℕ
  pub buffer_pointer : ℕ
  pub format_pointer : ℕ
  pub max_width : ℕ
  pub args : List ℕ
  pub m : Bytes

-- How a round ends: `goto exit`, the next round, or no fuel.
pub data Round : Type 0 where
  exit : Scan → Round
  again : Scan → Round
  stuck : Round

-- `*pointer = value` for a type of `width` bytes, the lowest first.
abbrev pub store_bytes : (width : ℕ) → Bytes → (pointer value : ℕ) → Bytes
store_bytes zero m pointer value = m
store_bytes (suc width) m pointer value =
    store_bytes width (store m pointer (u8 value)) (pointer + 1) (value / 2 ^ 8)

abbrev pub is_space : Bytes → ℕ → Bool
is_space m p = not (isspace (char_int (m p)) == 0)

-- `CONSUME_SPACE`
pub consume_space : ℕ → Bytes → ℕ → Option ℕ
consume_space zero m p = none
consume_space (suc fuel) m p =
    let rest = consume_space fuel m (p + 1) in if is_space m p then rest else some p

-- `va_arg`: the pointer, and the arguments left.
abbrev pub va_arg : List ℕ → ℕ × List ℕ
va_arg [] = (null, [])
va_arg (p ∷ ps) = (p, ps)

abbrev advance : Scan → Scan
advance s = record s { format_pointer = s.format_pointer + 1 }

-- The common part of the numeric conversions behind the space. `scanned` is the value and the end
-- pointer, and `width` the bytes of the type stored.
pub store_number : (suppressed : Bool) → (width : ℕ) → (scanned : ℕ × ℕ) → Scan → Round
store_number suppressed width (value, end_pointer) s =
    let (p, left) = va_arg s.args in
    let stored =
      if suppressed then s else record s { args = left; m = store_bytes width s.m p value } in
    if not suppressed && (p == null)
    then exit (record s { args = left })
    else if stored.buffer_pointer == end_pointer
    then exit stored
    else again (
        advance
          (record stored { buffer_pointer = end_pointer; args_set = u32 (stored.args_set + 1) }))

abbrev pub convert : (suppressed : Bool) → (width : ℕ) → Option (ℕ × ℕ) → Scan → Round
convert suppressed width none s = stuck
convert suppressed width (some scanned) s = store_number suppressed width scanned s

-- The number of bytes of the type that `h`, `l` or nothing stands for.
abbrev int_width : ℕ → ℕ
int_width string_ending = if string_ending == 108 then 8 else if string_ending == 104 then 2 else 4

-- The loop of a suppressed `%c` or `%s`: `bufferPointer` and `maxWidth`.
pub skip_chars : Bytes → (format : ℕ) → (max_width buffer_pointer : ℕ) → ℕ × ℕ
skip_chars m format zero p = (p, 0)
skip_chars m format (suc max_width) p =
    let rest = skip_chars m format max_width (p + 1) in
    if (m (p + 1) == 0) || (is_space m (p + 1) && format == 115)
    then (p + 1, suc max_width)
    else rest

-- The loop of `%c` or `%s`: `charPointer`, `bufferPointer`, `maxWidth` and the memory.
pub copy_chars :
    Bytes → (format : ℕ) → (max_width char_pointer buffer_pointer : ℕ) → ℕ × ℕ × ℕ × Bytes
copy_chars m format zero q p = (q, p, 0, m)
copy_chars m format (suc max_width) q p =
    let written = store m q (m p) in
    let rest = copy_chars written format max_width (q + 1) (p + 1) in
    if (written p == 0) || (is_space written p && format == 115)
    then (q, p, suc max_width, written)
    else rest

-- `%c` and `%s`, behind the space.
pub scan_chars : (suppressed : Bool) → (format : ℕ) → Scan → Round
scan_chars true format s =
    let (p, width) = skip_chars s.m format s.max_width s.buffer_pointer in
    again (advance (record s { buffer_pointer = p; max_width = width }))
scan_chars false format s =
    let (q, left) = va_arg s.args in
    let (end, p, width, m) = copy_chars s.m format s.max_width q s.buffer_pointer in
    let m1 = if format == 115 then store m end 0 else m in
    if q == null
    then exit (record s { args = left })
    else again (
        advance (record s {
          args = left;
          buffer_pointer = p;
          max_width = width;
          args_set = u32 (s.args_set + 1);
          m = m1;
        }))

-- `%n`
pub scan_count : (suppressed : Bool) → (string_ending buffer : ℕ) → Scan → Round
scan_count suppressed string_ending buffer s =
    let (p, left) = va_arg s.args in
    let offset = u64 (s.buffer_pointer + 2 ^ 64 - buffer) in
    if suppressed
    then exit s
    else if p == null
    then exit (record s { args = left })
    else again (
        advance (record s {
          args = left;
          args_set = u32 (s.args_set + 1);
          m = store_bytes (int_width string_ending) s.m p offset;
        }))

-- `MATCH`, and one character further in both texts.
abbrev match_char : Scan → Round
match_char s =
    if s.m s.buffer_pointer == s.m s.format_pointer
    then again (advance (record s { buffer_pointer = s.buffer_pointer + 1 }))
    else exit s

abbrev is_float_format : ℕ → Bool
is_float_format f = (f == 103) || (f == 101) || (f == 102) || (f == 71) || (f == 69) || (f == 70)

module _ (doubles : Doubles) (fuel : ℕ) (buffer : ℕ) where
  -- A conversion behind the buffer check, at its letter.
  pub scan_value : (suppressed : Bool) → (string_ending : ℕ) → Scan → Round
  scan_value suppressed string_ending s =
      let f = s.m s.format_pointer in
      if (f == 99 || f == 115) && (s.max_width == 0)
      then exit s
      else if f == 99
      then scan_chars suppressed f s
      else elim (consume_space fuel s.m s.buffer_pointer) [
        | none ↦ stuck
        | some p ↦
            let t = record s { buffer_pointer = p } in
            if f == 37
            then match_char t
            else if f == 115
            then scan_chars suppressed f t
            else if (f == 105) || (f == 100)
            then convert suppressed (int_width string_ending)
                (strtol fuel s.m p (if f == 100 then 10 else 0)) t
            else if is_float_format f
            then elim (strtod doubles fuel s.m p) [
              | none ↦ stuck
              | some (value, end) ↦
                  if string_ending == 108
                  then store_number suppressed 8 (value, end) t
                  else store_number suppressed 4 (doubles.to_float value, end) t
            ]
            else if (f == 117) || (f == 111) || (f == 120) || (f == 88)
            then convert suppressed (int_width string_ending)
                (strtoul fuel s.m p (if f == 117 then 10 else if f == 111 then 8 else 16)) t
            else exit s
      ]

  -- The conversion's letter, behind `*`, the width and `h` or `l`.
  pub scan_letter : (suppressed : Bool) → (string_ending : ℕ) → Scan → Round
  scan_letter suppressed string_ending s =
      if s.m s.format_pointer == 110
      then scan_count suppressed string_ending buffer s
      else if s.m buffer == 0
      then exit s
      else scan_value suppressed string_ending s

  pub scan_length : (suppressed : Bool) → Scan → Round
  scan_length suppressed s =
      let f = s.m s.format_pointer in
      if (f == 104) || (f == 108)
      then scan_letter suppressed f (advance s)
      else scan_letter suppressed 0 s

  pub scan_width : (suppressed : Bool) → Scan → Round
  scan_width suppressed s =
      if isdigit (char_int (s.m s.format_pointer)) == 0
      then scan_length suppressed s
      else elim (strtoul fuel s.m s.format_pointer 0) [
        | none ↦ stuck
        | some (width, end) ↦
            let t = record s { max_width = width } in
            if (s.format_pointer == end) || (width == 0)
            then exit t
            else scan_length suppressed (record t { format_pointer = end })
      ]

  -- One round of the loop of `sscanf`.
  pub scan_round : Scan → Round
  scan_round s =
      let f = s.m s.format_pointer in
      let t = advance s in
      if is_space s.m s.format_pointer
      then elim (consume_space fuel s.m s.buffer_pointer) [
        | none ↦ stuck
        | some p ↦ again (record t { buffer_pointer = p })
      ]
      else if f == 37
      then (if s.m t.format_pointer == 42 then scan_width true (advance t) else scan_width false t)
      else match_char s

  pub scan_loop : ℕ → Scan → Option Scan
  scan_loop zero s = none
  scan_loop (suc rounds) s =
      if s.m s.format_pointer == 0
      then some s
      else elim (scan_round s) [ exit t ↦ some t | again t ↦ scan_loop rounds t | stuck ↦ none ]

-- `sscanf`: the result and the memory.
pub sscanf : Doubles → (fuel rounds : ℕ) → (buffer format : ℕ) → List ℕ → Bytes → Option (ℕ × Bytes)
sscanf doubles fuel rounds buffer format args m =
    if (buffer == null) || (format == null)
    then some (2 ^ 32 - 1, m)
    else elim (scan_loop doubles fuel buffer rounds (record {
      args_set = 0;
      buffer_pointer = buffer;
      format_pointer = format;
      max_width = 0;
      args = args;
      m = m;
    })) [ none ↦ none | some s ↦ some (s.args_set, s.m) ]
