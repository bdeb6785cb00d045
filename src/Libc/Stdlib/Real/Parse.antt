-- ===== src/Libc/Stdlib/Real/Parse.antt =====
-- `strtod` on decimal digits.
use os_tk.Base.{
  ℕ, zero, suc, ◌+◌, ◌-◌, ◌^◌, ◌<◌, ◌≡◌, refl, ap, ◌∙◌, sym, Bool, true, false, not, ◌||◌, ◌==◌,
  Option, none, some, List, [], ◌∷◌, length, arith, if◌then◌else◌, ne→==,
}
use os_tk.Libc.Bytes.{Bytes, char_int, Holds}
use os_tk.Libc.Ctype.{isspace, isdigit}
use os_tk.Libc.Double.{Doubles}
use os_tk.Libc.Stdlib.Decimal.{decimal, AreDigits}
use os_tk.Libc.Stdlib.Real.{
  is_decimal, atof, skip_spaces, skip_numeral, number_end, strtod, is_digit, is_letter,
}
use os_tk.Libc.Stdlib.Real.Exact.{IsExact, IsEnd, atof-decimal}

is_digit-decimal : (c : ℕ) → c < 256 → not (isdigit (char_int c) == 0) ≡ is_decimal c
unfolding isdigit
is_digit-decimal c byte = ground (arith, byte)

skip_numeral-digits :
    (fuel : ℕ) (m : Bytes) (p c : ℕ) (xs : List ℕ)
    → Holds m p xs
    → AreDigits xs
    → m (p + length xs) ≡ c
    → c < 256
    → IsEnd c
    → length xs < fuel
    → skip_numeral fuel m false p ≡ some (p + length xs)
unfolding skip_numeral
skip_numeral-digits zero m p c xs s d e byte stop h = absurd (omega (arith, h))
skip_numeral-digits (suc fuel) m p c [] s d e byte stop h =
    let place : p + 0 ≡ p = omega arith in
    let here : m p ≡ c = ap m (sym place) ∙ e in
    let digit = is_digit-decimal c byte ∙ stop.0 in
    let point : (c == 46) ≡ false = ne→== c 46 stop.1 in
    let rest = skip_numeral fuel m (false || (m p == 46)) (p + 1) in
    ap (λ b. if not (isdigit (char_int b) == 0) || (b == 46) then rest else some p) here
    ∙ ap (λ t. if t || (c == 46) then rest else some p) digit
    ∙ ap (λ t. if t then rest else some p) point
    ∙ ap some (sym place)
skip_numeral-digits (suc fuel) m p c (x ∷ xs) s d e byte stop h =
    let digit : is_decimal x ≡ true = ground (arith, d.0, d.1) in
    let as_digit = is_digit-decimal x (omega (arith, d.1)) ∙ digit in
    let point : (x == 46) ≡ false = ground (arith, d.0) in
    let place : p + 1 + length xs ≡ p + suc (length xs) = omega arith in
    let rest =
      skip_numeral-digits fuel m (p + 1) c xs s.1 d.2 (ap m place ∙ e) byte stop
        (omega (arith, h)) in
    ap
      (λ b.
        let after = skip_numeral fuel m (b == 46) (p + 1) in
        if not (isdigit (char_int b) == 0) || (b == 46) then after else some p)
      s.0
    ∙ ap
        (λ t.
          let after = skip_numeral fuel m (x == 46) (p + 1) in
          if t || (x == 46) then after else some p)
        as_digit
    ∙ ap (λ t. skip_numeral fuel m t (p + 1)) point
    ∙ rest
    ∙ ap some place

not_letter :
    (x letter : ℕ)
    → is_decimal x ≡ true
    → 90 < letter
    → letter < 123
    → ((x == letter) || (x == letter - 32)) ≡ false
not_letter x letter digit low high = ground (arith, digit, low, high)

number_end-digits :
    (fuel : ℕ) (m : Bytes) (p c x : ℕ) (xs : List ℕ)
    → Holds m p (x ∷ xs)
    → AreDigits (x ∷ xs)
    → m (p + suc (length xs)) ≡ c
    → c < 256
    → IsEnd c
    → (c == 101) || (c == 69) ≡ false
    → suc (length xs) < fuel
    → number_end fuel m p ≡ some (some (p + suc (length xs)))
number_end-digits fuel m p c x xs s d e byte stop plain h =
    let digit : is_decimal x ≡ true = ground (arith, d.0, d.1) in
    let as_digit = is_digit-decimal x (omega (arith, d.1)) ∙ digit in
    let numeral = skip_numeral-digits fuel m p c (x ∷ xs) s d e byte stop h in
    let no_i : is_letter m p 105 ≡ false =
      ap (λ b. (b == 105) || (b == 73)) s.0 ∙ not_letter x 105 digit (omega arith) (omega arith) in
    let no_n : is_letter m p 110 ≡ false =
      ap (λ b. (b == 110) || (b == 78)) s.0 ∙ not_letter x 110 digit (omega arith) (omega arith) in
    let starts : is_digit m p ≡ true = ap (λ b. not (isdigit (char_int b) == 0)) s.0 ∙ as_digit in
    let no_exponent : is_letter m (p + suc (length xs)) 101 ≡ false =
      ap (λ b. (b == 101) || (b == 69)) e ∙ plain in
    rw (no_i, no_n, starts, numeral, no_exponent) refl

skip_spaces-digit :
    (fuel : ℕ) (m : Bytes) (p x : ℕ)
    → m p ≡ x
    → is_decimal x ≡ true
    → skip_spaces (suc fuel) m p ≡ some p
unfolding skip_spaces isspace
skip_spaces-digit fuel m p x here digit =
    let rest = skip_spaces fuel m (p + 1) in
    let no_space : not (isspace (char_int x) == 0) ≡ false = ground (arith, digit) in
    ap (λ b. if not (isspace (char_int b) == 0) then rest else some p) here
    ∙ ap (λ t. if t then rest else some p) no_space

abbrev strtod_value : (end : ℕ) → Option ℕ → Option (ℕ × ℕ)
strtod_value end none = none
strtod_value end (some value) = some (value, end)

abbrev strtod_end : Doubles → (fuel : ℕ) → Bytes → (str : ℕ) → Option (Option ℕ) → Option (ℕ × ℕ)
strtod_end doubles fuel m str none = none
strtod_end doubles fuel m str (some none) = some (doubles.of_int 0, str)
strtod_end doubles fuel m str (some (some end)) = strtod_value end (atof doubles fuel m str)

abbrev strtod_sign : Doubles → (fuel : ℕ) → Bytes → (p : ℕ) → Bool → Option (ℕ × ℕ)
strtod_sign doubles fuel m p signed =
    strtod_end doubles fuel m p (number_end fuel m (if signed then p + 1 else p))

abbrev strtod_rest : Doubles → (fuel : ℕ) → Bytes → (str : ℕ) → Option ℕ → Option (ℕ × ℕ)
strtod_rest doubles fuel m str none = none
strtod_rest doubles fuel m str (some p) =
    strtod_end doubles fuel m str
      (number_end fuel m (if (m p == 43) || (m p == 45) then p + 1 else p))

-- `strtod` of one digit or more, with a byte behind them that is neither a digit, a point nor an `e`,
-- returns their number, where it is below 2 ^ 52, and stores the address of that byte. A fuel above
-- the number of the digits is enough.
pub strtod-decimal :
    (doubles : Doubles) (num : ℕ → ℕ)
    → IsExact doubles num
    → (fuel : ℕ) (m : Bytes) (p c x : ℕ) (xs : List ℕ) → Holds m p (x ∷ xs)
    → AreDigits (x ∷ xs)
    → m (p + suc (length xs)) ≡ c
    → c < 256
    → IsEnd c
    → (c == 101) || (c == 69) ≡ false
    → decimal 0 (x ∷ xs) < 2 ^ 52
    → suc (length xs) < suc fuel
    → strtod doubles (suc fuel) m p ≡ some (num (decimal 0 (x ∷ xs)), p + suc (length xs))
unfolding strtod
strtod-decimal doubles num exact fuel m p c x xs s d e byte stop plain fits h =
    let value = atof-decimal doubles num exact fuel m p c (x ∷ xs) s d e stop fits h in
    let end = number_end-digits (suc fuel) m p c x xs s d e byte stop plain h in
    let digit : is_decimal x ≡ true = ground (arith, d.0, d.1) in
    let no_sign : ((m p == 43) || (m p == 45)) ≡ false =
      ap (λ b. (b == 43) || (b == 45)) s.0 ∙ ground (arith, d.0) in
    ap (strtod_rest doubles (suc fuel) m p) (skip_spaces-digit fuel m p x (s.0) digit)
    ∙ ap (strtod_sign doubles (suc fuel) m p) no_sign
    ∙ ap (strtod_end doubles (suc fuel) m p) end
    ∙ ap (strtod_value (p + suc (length xs))) value
