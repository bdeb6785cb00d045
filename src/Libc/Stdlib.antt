-- ===== src/Libc/Stdlib.antt =====
-- lib/libc/src/stdlib.c: numbers and their texts. `int` and `long` are 32-bit and 64-bit patterns
-- and wrap around. A loop takes fuel, and `none` means that the fuel ran out.
pub mod Decimal
pub mod Search
pub mod Number
pub mod Real
pub mod Print
use os_tk.Base.{
  ℕ, zero, suc, ◌+◌, ◌-◌, ◌*◌, ◌/◌, ◌%◌, ◌^◌, Bool, true, false, not, ◌&&◌, ◌||◌, ◌==◌, ltb, leb,
  if◌then◌else◌, Option, none, some, List, codes, get_or, u8, u32, u64,
}
use os_tk.Libc.Bytes.{Bytes, null, store, char_int, ltb_int, leb_int, at_int}
use os_tk.Libc.Ctype.{isspace, isdigit, isalpha, isupper}

-- `-x` on an `int` and on a `long`.
abbrev pub neg_u32 : ℕ → ℕ
neg_u32 x = u32 (2 ^ 32 - x)

abbrev pub neg_u64 : ℕ → ℕ
neg_u64 x = u64 (2 ^ 64 - x)

pub abs : ℕ → ℕ
abs x = if ltb_int x 0 then neg_u32 x else x

pub labs : ℕ → ℕ
labs x = if leb (2 ^ 63) x then neg_u64 x else x

-- `a / b` and `a % b` on `int`s, towards zero; the divisor is not zero.
abbrev pub quot_int : ℕ → ℕ → ℕ
quot_int a b =
    let size_a = if ltb_int a 0 then neg_u32 a else a in
    let size_b = if ltb_int b 0 then neg_u32 b else b in
    let q = size_a / size_b in
    if ltb_int a 0
    then (if ltb_int b 0 then u32 q else neg_u32 q)
    else if ltb_int b 0
    then neg_u32 q
    else q

abbrev pub rem_int : ℕ → ℕ → ℕ
rem_int a b =
    let size_a = if ltb_int a 0 then neg_u32 a else a in
    let size_b = if ltb_int b 0 then neg_u32 b else b in
    if ltb_int a 0 then neg_u32 (size_a % size_b) else size_a % size_b

-- `div`: the quotient and the remainder.
pub div : ℕ → ℕ → ℕ × ℕ
div number denom =
    let quot = quot_int number denom in
    let rem = rem_int number denom in
    if leb_int 0 number && ltb_int rem 0
    then (u32 (quot + 1), u32 (rem + neg_u32 denom))
    else (quot, rem)

-- The same on `long`s.
abbrev is_negative : ℕ → Bool
is_negative x = leb (2 ^ 63) x

abbrev size_long : ℕ → ℕ
size_long x = if is_negative x then neg_u64 x else x

abbrev quot_long : ℕ → ℕ → ℕ
quot_long a b =
    let q = size_long a / size_long b in
    if is_negative a
    then (if is_negative b then u64 q else neg_u64 q)
    else if is_negative b
    then neg_u64 q
    else q

abbrev rem_long : ℕ → ℕ → ℕ
rem_long a b = let r = size_long a % size_long b in if is_negative a then neg_u64 r else r

pub ldiv : ℕ → ℕ → ℕ × ℕ
ldiv number denom =
    let quot = quot_long number denom in
    let rem = rem_long number denom in
    if not (is_negative number) && is_negative rem
    then (u64 (quot + 1), u64 (rem + neg_u64 denom))
    else (quot, rem)

abbrev rand_max : ℕ
rand_max = 32767

-- `rand`, with the static `next` before and after it; `srand` sets it.
pub rand : ℕ → ℕ × ℕ
rand next =
    let stepped = u64 (next * 1103515245 + 12345) in (u32 (stepped / 65536) % rand_max, stepped)

abbrev pub srand : ℕ → ℕ
srand seed = u32 seed

pub atoi_loop : ℕ → Bytes → ℕ → ℕ → Option ℕ
atoi_loop zero m pointer result = none
atoi_loop (suc fuel) m pointer result =
    let rest =
      atoi_loop fuel m (pointer + 1) (u32 (result * 10 + char_int (m pointer) + (2 ^ 32 - 48))) in
    if m pointer == 0 then some result else rest

pub atoi : ℕ → Bytes → ℕ → Option ℕ
atoi fuel m string = atoi_loop fuel m string 0

-- A `char` promoted to `long`.
abbrev pub char_long : ℕ → ℕ
char_long c = if ltb c 128 then c else c + (2 ^ 64 - 256)

pub atol_loop : ℕ → Bytes → ℕ → ℕ → Option ℕ
atol_loop zero m pointer result = none
atol_loop (suc fuel) m pointer result =
    let rest =
      atol_loop fuel m (pointer + 1) (u64 (result * 10 + char_long (m pointer) + (2 ^ 64 - 48))) in
    if m pointer == 0 then some result else rest

pub atol : ℕ → Bytes → ℕ → Option ℕ
atol fuel m string = atol_loop fuel m string 0

-- The digits that `itoa` indexes from the 35th on: the sign of the remainder does not matter.
abbrev pub itoa_digits : List ℕ
itoa_digits = codes "zyxwvutsrqponmlkjihgfedcba9876543210123456789abcdefghijklmnopqrstuvwxyz"

-- The first loop of `itoa`: `resNumber`, `backPointer` and the memory after it.
pub itoa_loop : ℕ → (base number back_pointer : ℕ) → Bytes → Option (ℕ × ℕ × Bytes)
itoa_loop zero base number back_pointer m = none
itoa_loop (suc fuel) base number back_pointer m =
    let quotient = quot_int number base in
    let digit = get_or itoa_digits (u32 (35 + rem_int number base)) 0 in
    let written = store m back_pointer digit in
    let rest = itoa_loop fuel base quotient (back_pointer + 1) written in
    if quotient == 0 then some (number, back_pointer + 1, written) else rest

-- Its second loop, which reverses the digits.
pub itoa_reverse : ℕ → (front_pointer back_pointer : ℕ) → Bytes → Option Bytes
itoa_reverse zero front_pointer back_pointer m = none
itoa_reverse (suc fuel) front_pointer back_pointer m =
    let swapped = store (store m back_pointer (m front_pointer)) front_pointer (m back_pointer) in
    let rest = itoa_reverse fuel (front_pointer + 1) (back_pointer - 1) swapped in
    if ltb front_pointer back_pointer then rest else some m

-- `itoa`: the memory after it. It returns `output`.
pub itoa : ℕ → (number output base : ℕ) → Bytes → Option Bytes
itoa fuel number output base m =
    if ltb_int base 2 || ltb_int 36 base
    then some (store m output 0)
    else elim (itoa_loop fuel base number output m) [
      | none ↦ none
      | some (res_number, back_pointer, m1) ↦
          if ltb_int res_number 0
          then itoa_reverse fuel output back_pointer
              (store (store m1 back_pointer 45) (back_pointer + 1) 0)
          else itoa_reverse fuel output (back_pointer - 1) (store m1 back_pointer 0)
    ]

-- `do character = *s++; while (isspace(character));`: the character and `s`.
pub skip_space : ℕ → Bytes → ℕ → Option (ℕ × ℕ)
skip_space zero m s = none
skip_space (suc fuel) m s =
    let rest = skip_space fuel m (s + 1) in
    if isspace (char_int (m s)) == 0 then some (char_int (m s), s + 1) else rest

-- The value of a digit or a letter, or `none`.
abbrev pub digit_value : ℕ → Option ℕ
digit_value character =
    if not (isdigit character == 0)
    then some (character - 48)
    else if not (isalpha character == 0)
    then some (if not (isupper character == 0) then character - 55 else character - 87)
    else none

-- `any`: no digit yet, only digits that fit, or an overflow.
pub data Any : Type 0 where
  no_digit : Any
  fitting : Any
  overflow : Any

abbrev pub overflows : Any → Bool
overflows no_digit = false
overflows fitting = false
overflows overflow = true

-- The loop over the digits: the accumulator, `any`, and `s`.
pub digits_loop :
    ℕ
    → Bytes
    → (base cutoff cut_limit : ℕ) → (s character accumulator : ℕ) → Any
    → Option (ℕ × Any × ℕ)
digits_loop zero m base cutoff cut_limit s character accumulator any = none
digits_loop (suc fuel) m base cutoff cut_limit s character accumulator any =
    let next =
      λ (a : ℕ) (k : Any). digits_loop fuel m base cutoff cut_limit (s + 1) (char_int (m s)) a k in
    elim (digit_value character) [
      | none ↦ some (accumulator, any, s)
      | some d ↦
          if leb base d
          then some (accumulator, any, s)
          else if overflows any
              || ltb cutoff accumulator
              || (accumulator == cutoff && ltb cut_limit d)
          then next accumulator overflow
          else next (u64 (u64 (accumulator * base) + d)) fitting
    ]

-- The sign, the prefix and the base: `negative`, the base, the character and `s`.
abbrev pub read_prefix : Bytes → (base character s : ℕ) → Bool × ℕ × ℕ × ℕ
read_prefix m base character s =
    let negative = character == 45 in
    let signed = negative || character == 43 in
    let c = if signed then char_int (m s) else character in
    let p = if signed then s + 1 else s in
    let hex = (base == 0 || base == 16) && (c == 48) && (m p == 120 || m p == 88) in
    let c' = if hex then char_int (m (p + 1)) else c in
    let p' = if hex then p + 2 else p in
    let b = if hex then 16 else base in
    (negative, (if b == 0 then (if c' == 48 then 8 else 10) else b), c', p')

-- The end of both functions: the result, and what they store at `endp`.
abbrev pub finish : Bool → Option (ℕ × Any × ℕ) → Option (ℕ × ℕ)
finish negative none = none
finish negative (some (accumulator, overflow, s)) =
    some (if negative then 2 ^ 63 else 2 ^ 63 - 1, s - 1)
finish negative (some (accumulator, fitting, s)) =
    some (if negative then neg_u64 accumulator else accumulator, s - 1)
finish negative (some (accumulator, no_digit, s)) =
    some (if negative then neg_u64 accumulator else accumulator, s)

-- `strtoul` and `strtol`, for a base from 2 to 36 or 0.
pub strtoul : ℕ → Bytes → (source base : ℕ) → Option (ℕ × ℕ)
strtoul fuel m source base = elim (skip_space fuel m source) [
  | none ↦ none
  | some (character, s) ↦
      let (negative, b, c, p) = read_prefix m base character s in
      let cutoff = (2 ^ 64 - 1) / b in
      finish negative (digits_loop fuel m b cutoff ((2 ^ 64 - 1) % b) p c 0 no_digit)
]

pub strtol : ℕ → Bytes → (source base : ℕ) → Option (ℕ × ℕ)
strtol fuel m source base = elim (skip_space fuel m source) [
  | none ↦ none
  | some (character, s) ↦
      let (negative, b, c, p) = read_prefix m base character s in
      let bound = if negative then 2 ^ 63 else 2 ^ 63 - 1 in
      finish negative (digits_loop fuel m b (bound / b) (bound % b) p c 0 no_digit)
]

-- `limit >> 1` of an `int`, which keeps the sign.
abbrev pub half_int : ℕ → ℕ
half_int limit = if ltb limit (2 ^ 31) then limit / 2 else limit / 2 + 2 ^ 31

-- The loop of `bsearch`: the pointer to a member that compares equal to the key, or NULL.
pub bsearch_loop : ℕ → (comparison : ℕ → ℕ) → (size base limit : ℕ) → Option ℕ
bsearch_loop zero comparison size base limit = none
bsearch_loop (suc fuel) comparison size base limit =
    let pointer = u64 (base + at_int 0 (half_int limit) * size) in
    let cmp = comparison pointer in
    let right =
      bsearch_loop fuel comparison size (u64 (pointer + size))
        (half_int (u32 (limit + (2 ^ 32 - 1)))) in
    let left = bsearch_loop fuel comparison size base (half_int limit) in
    if limit == 0
    then some null
    else if cmp == 0
    then some pointer
    else if ltb_int 0 cmp
    then right
    else left

-- `bsearch`, which holds the number of members in an `int`.
pub bsearch : ℕ → (comparison : ℕ → ℕ) → (base nmemb size : ℕ) → Option ℕ
bsearch fuel comparison base nmemb size = bsearch_loop fuel comparison size base (u32 nmemb)
