-- ===== src/Libc/Stdlib/Real.antt =====
-- `atof` and `strtod` of lib/libc/src/stdlib.c. A loop takes fuel, and `none` means that the fuel ran
-- out.
pub mod Exact
pub mod Parse
use os_tk.Base.{
  ℕ, zero, suc, ◌+◌, ◌-◌, ◌*◌, ◌^◌, Bool, true, false, not, ◌&&◌, ◌||◌, ◌==◌, ltb, leb,
  if◌then◌else◌, Option, none, some, u32,
}
use os_tk.Libc.Bytes.{Bytes, char_int, ltb_int}
use os_tk.Libc.Ctype.{isspace, isdigit}
use os_tk.Libc.Double.{Doubles}
use os_tk.Libc.Stdlib.{neg_u32}

-- `character >= '0' && character <= '9'`
abbrev pub is_decimal : ℕ → Bool
is_decimal character = leb 48 character && leb character 57

-- The loop over the digits of an exponent: `i` behind them.
pub exponent_loop : ℕ → Bytes → (character string i : ℕ) → Option ℕ
exponent_loop zero m character string i = none
exponent_loop (suc fuel) m character string i =
    let rest =
      exponent_loop fuel m (m string) (string + 1)
        (u32 (i * 10 + char_int character + (2 ^ 32 - 48))) in
    if is_decimal character then rest else some i

-- The exponent behind an `e`, which `character` still is: what is added to `e`.
pub exponent : ℕ → Bytes → (character string : ℕ) → Option ℕ
exponent fuel m character string =
    let minus = character == 45 in
    let read = (character == 43) || minus in
    let c = if read then m string else character in
    let p = if read then string + 1 else string in
    let sign = if minus then 2 ^ 32 - 1 else 1 in
    elim (exponent_loop fuel m c p 0) [ none ↦ none | some i ↦ some (u32 (i * sign)) ]

module _ (doubles : Doubles) where
  -- `output * 10.0 + character - '0'`
  abbrev pub add_digit : (output character : ℕ) → ℕ
  add_digit output character =
      doubles.sub
        (doubles.add (doubles.mul output (doubles.of_int 10)) (doubles.of_int (char_int character)))
        (doubles.of_int 48)

  -- The loop over the digits before the point: `output`, `character` and `string` behind it.
  pub whole_loop : ℕ → Bytes → (string output : ℕ) → Option (ℕ × ℕ × ℕ)
  whole_loop zero m string output = none
  whole_loop (suc fuel) m string output =
      let rest = whole_loop fuel m (string + 1) (add_digit output (m string)) in
      if is_decimal (m string) then rest else some (output, m string, string + 1)

  -- The loop behind the point, which also counts `e` down.
  pub fraction_loop : ℕ → Bytes → (string output e : ℕ) → Option (ℕ × ℕ × ℕ × ℕ)
  fraction_loop zero m string output e = none
  fraction_loop (suc fuel) m string output e =
      let rest =
        fraction_loop fuel m (string + 1) (add_digit output (m string)) (u32 (e + (2 ^ 32 - 1))) in
      if is_decimal (m string) then rest else some (output, e, m string, string + 1)

  -- The last two loops, with the rounds that `e` asks for.
  pub scale_up : ℕ → ℕ → ℕ
  scale_up zero output = output
  scale_up (suc e) output = scale_up e (doubles.mul output (doubles.of_int 10))

  pub scale_down : ℕ → ℕ → ℕ
  scale_down zero output = output
  scale_down (suc e) output = scale_down e (doubles.over output (doubles.of_int 10))

  abbrev pub scale : (e output : ℕ) → ℕ
  scale e output =
      if ltb_int 0 e
      then scale_up e output
      else if ltb_int e 0
      then scale_down (neg_u32 e) output
      else output

  -- `atof` behind the digits, at `character`.
  pub atof_end : ℕ → Bytes → (output e character string : ℕ) → Option ℕ
  atof_end fuel m output e character string =
      if (character == 101) || (character == 69)
      then elim (exponent fuel m character string) [
        | none ↦ none
        | some i ↦ some (scale (u32 (e + i)) output)
      ]
      else some (scale e output)

  -- `atof`
  pub atof : ℕ → Bytes → (string : ℕ) → Option ℕ
  atof fuel m string = elim (whole_loop fuel m string (doubles.of_int 0)) [
    | none ↦ none
    | some (output, character, p) ↦
        if character == 46
        then elim (fraction_loop fuel m p output 0) [
          | none ↦ none
          | some (output', e, character', p') ↦ atof_end fuel m output' e character' p'
        ]
        else atof_end fuel m output 0 character p
  ]

abbrev pub is_digit : Bytes → ℕ → Bool
is_digit m p = not (isdigit (char_int (m p)) == 0)

-- The byte is the letter, small or capital.
abbrev pub is_letter : Bytes → (p letter : ℕ) → Bool
is_letter m p letter = (m p == letter) || (m p == letter - 32)

pub skip_spaces : ℕ → Bytes → ℕ → Option ℕ
skip_spaces zero m p = none
skip_spaces (suc fuel) m p =
    let rest = skip_spaces fuel m (p + 1) in
    if not (isspace (char_int (m p)) == 0) then rest else some p

pub skip_digits : ℕ → Bytes → ℕ → Option ℕ
skip_digits zero m p = none
skip_digits (suc fuel) m p =
    let rest = skip_digits fuel m (p + 1) in if is_digit m p then rest else some p

-- The digits with one point at most.
pub skip_numeral : ℕ → Bytes → (got_dot : Bool) → ℕ → Option ℕ
skip_numeral zero m got_dot p = none
skip_numeral (suc fuel) m got_dot p =
    let rest = skip_numeral fuel m (got_dot || (m p == 46)) (p + 1) in
    if is_digit m p || (not got_dot && (m p == 46)) then rest else some p

-- The text in the brackets of `nan(…)`.
pub skip_bracket : ℕ → Bytes → ℕ → Option ℕ
skip_bracket zero m p = none
skip_bracket (suc fuel) m p =
    let rest = skip_bracket fuel m (p + 1) in
    if not (m p == 0) && not (m p == 41) then rest else some p

-- The end of `inf` or `infinity`, of `nan`, and of a numeral, where one starts at `p`.
abbrev infinity_end : Bytes → ℕ → ℕ
infinity_end m p =
    if is_letter m (p + 3) 105
      && is_letter m (p + 4) 110
      && is_letter m (p + 5) 105
      && is_letter m (p + 6) 116
      && is_letter m (p + 7) 121
    then p + 8
    else p + 3

abbrev nan_end : ℕ → Bytes → ℕ → Option ℕ
nan_end fuel m p =
    if m (p + 3) == 40
    then elim (skip_bracket fuel m (p + 4)) [
      | none ↦ none
      | some q ↦ some (if m q == 41 then q + 1 else q)
    ]
    else some (p + 3)

abbrev pub exponent_end : ℕ → Bytes → ℕ → Option ℕ
exponent_end fuel m p =
    let first = if (m (p + 1) == 43) || (m (p + 1) == 45) then p + 2 else p + 1 in
    if is_letter m p 101 && is_digit m first then skip_digits fuel m first else some p

abbrev pub numeral_end : ℕ → Bytes → ℕ → Option ℕ
numeral_end fuel m p = elim (skip_numeral fuel m false p) [
  | none ↦ none
  | some q ↦ exponent_end fuel m q
]

-- What `strtod` stores at `ptr`, if it finds a number.
abbrev pub number_end : ℕ → Bytes → ℕ → Option (Option ℕ)
number_end fuel m p =
    if is_letter m p 105 && is_letter m (p + 1) 110 && is_letter m (p + 2) 102
    then some (some (infinity_end m p))
    else if is_letter m p 110 && is_letter m (p + 1) 97 && is_letter m (p + 2) 110
    then elim (nan_end fuel m p) [ none ↦ none | some q ↦ some (some q) ]
    else if is_digit m p || (m p == 46)
    then elim (numeral_end fuel m p) [ none ↦ none | some q ↦ some (some q) ]
    else some none

-- `strtod` with a `ptr` that is not NULL: the value, and what is stored at `ptr`.
pub strtod : Doubles → ℕ → Bytes → (str : ℕ) → Option (ℕ × ℕ)
strtod doubles fuel m str = elim (skip_spaces fuel m str) [
  | none ↦ none
  | some p ↦ elim (number_end fuel m (if (m p == 43) || (m p == 45) then p + 1 else p)) [
    | none ↦ none
    | some none ↦ some (doubles.of_int 0, str)
    | some (some end) ↦ elim (atof doubles fuel m str) [
      | none ↦ none
      | some value ↦ some (value, end)
    ]
  ]
]
