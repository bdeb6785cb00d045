-- ===== src/Libc/Stdlib/Real/Exact.antt =====
-- `atof` on decimal digits.
use os_tk.Base.{
  ℕ, zero, suc, ◌+◌, ◌-◌, ◌*◌, ◌^◌, ◌<◌, ◌≤◌, ◌≡◌, ◌≢◌, refl, ap, ◌∙◌, sym, true, false, ◌||◌, ◌==◌,
  Option, none, some, List, [], ◌∷◌, length, arith, if◌then◌else◌, u32, ne→==, Bool-cases, inl, inr,
}
use os_tk.Libc.Bytes.{Bytes, char_int, Holds}
use os_tk.Libc.Double.{Doubles}
use os_tk.Libc.Stdlib.Decimal.{decimal, AreDigits}
use os_tk.Libc.Stdlib.Real.{
  is_decimal, fraction_loop, add_digit, whole_loop, exponent_loop, exponent, scale, atof_end, atof,
}

-- The operations are exact on the integers below 2 ^ 53, of which `num n` is the double, as IEEE 754
-- has it.
pub record IsExact (doubles : Doubles) (num : ℕ → ℕ) : Type 0 where
  pub of_int : (n : ℕ) → n < 2 ^ 31 → doubles.of_int n ≡ num n
  pub add : (a b : ℕ) → a + b < 2 ^ 53 → doubles.add (num a) (num b) ≡ num (a + b)
  pub sub : (a b : ℕ) → a < 2 ^ 53 → b ≤ a → doubles.sub (num a) (num b) ≡ num (a - b)
  pub mul : (a b : ℕ) → a * b < 2 ^ 53 → doubles.mul (num a) (num b) ≡ num (a * b)

le-decimal : (n : ℕ) (xs : List ℕ) → n ≤ decimal n xs
le-decimal n [] = omega arith
le-decimal n (x ∷ xs) = omega (arith, le-decimal (n * 10 + (x - 48)) xs)

-- A byte that ends the digits.
abbrev pub IsEnd : ℕ → Type 0
IsEnd c = (is_decimal c ≡ false) × (c ≢ 46)

module _ (doubles : Doubles) (num : ℕ → ℕ) (exact : IsExact doubles num) where
  add_digit-num :
      (n x : ℕ)
      → 48 ≤ x
      → x ≤ 57
      → n * 10 + x < 2 ^ 53
      → add_digit doubles (num n) x ≡ num (n * 10 + (x - 48))
  add_digit-num n x lo hi fits =
      let plain : char_int x ≡ x = ground (arith, lo, hi) in
      let ten = exact.of_int 10 (omega arith) in
      let zero_char = exact.of_int 48 (omega arith) in
      let character = exact.of_int x (omega (arith, hi)) in
      let product = exact.mul n 10 (omega (arith, fits)) in
      let total = exact.add (n * 10) x fits in
      let value = exact.sub (n * 10 + x) 48 fits (omega (arith, lo)) in
      let place : n * 10 + x - 48 ≡ n * 10 + (x - 48) = omega (arith, lo) in
      ap
        (λ c.
          doubles.sub (doubles.add (doubles.mul (num n) (doubles.of_int 10)) (doubles.of_int c))
            (doubles.of_int 48))
        plain
      ∙ rw (ten, zero_char, character, product, total, value, place) refl

  whole_loop-decimal :
      (fuel : ℕ) (m : Bytes) (p n c : ℕ) (xs : List ℕ)
      → Holds m p xs
      → AreDigits xs
      → m (p + length xs) ≡ c
      → is_decimal c ≡ false
      → decimal n xs < 2 ^ 52
      → length xs < fuel
      → whole_loop doubles fuel m p (num n) ≡ some (num (decimal n xs), c, p + length xs + 1)
  unfolding whole_loop
  whole_loop-decimal zero m p n c xs s d e stop fits h = absurd (omega (arith, h))
  whole_loop-decimal (suc fuel) m p n c [] s d e stop fits h =
      let place : p + 0 ≡ p = omega arith in
      let here : m p ≡ c = ap m (sym place) ∙ e in rw (here, stop, place) refl
  whole_loop-decimal (suc fuel) m p n c (x ∷ xs) s d e stop fits h =
      let v = n * 10 + (x - 48) in
      let digit : is_decimal x ≡ true = ground (arith, d.0, d.1) in
      let above = le-decimal v xs in
      let step = add_digit-num n x d.0 d.1 (omega (arith, d.0, above, fits)) in
      let place : p + 1 + length xs ≡ p + suc (length xs) = omega arith in
      rw (s.0, digit, step)
        (whole_loop-decimal fuel m (p + 1) v c xs s.1 d.2 (ap m place ∙ e) stop fits
            (omega (arith, h))
          ∙ ap (λ q. some (num (decimal v xs), c, q + 1)) place)

  -- An `e` hides the exponent behind it: the loop over its digits starts at the `e`.
  exponent-none :
      (fuel : ℕ) (m : Bytes) (c p : ℕ)
      → (c == 45) ≡ false
      → (c == 43) ≡ false
      → is_decimal c ≡ false
      → exponent (suc fuel) m c p ≡ some 0
  unfolding exponent exponent_loop
  exponent-none fuel m c p minus plus stop =
      let loop : exponent_loop (suc fuel) m c p 0 ≡ some 0 = rw stop refl in
      rw (exponent, minus, plus, loop, minus) refl

  atof_end-whole :
      (fuel : ℕ) (m : Bytes) (output c p : ℕ)
      → is_decimal c ≡ false
      → atof_end doubles (suc fuel) m output 0 c p ≡ some output
  unfolding atof_end
  atof_end-whole fuel m output c p stop = elim (Bool-cases ((c == 101) || (c == 69))) [
    | inr other ↦ rw other refl
    | inl e ↦
        let minus : (c == 45) ≡ false = ground (arith, e) in
        let plus : (c == 43) ≡ false = ground (arith, e) in
        let none_read = exponent-none fuel m c p minus plus stop in
        rw e (
          ap (λ o. elim o [ none ↦ none | some i ↦ some (scale doubles (u32 (0 + i)) output) ])
            none_read)
  ]

  abbrev atof_rest : (fuel : ℕ) → Bytes → Option (ℕ × ℕ × ℕ) → Option ℕ
  atof_rest fuel m none = none
  atof_rest fuel m (some (output, character, p)) =
      if character == 46
      then elim (fraction_loop doubles fuel m p output 0) [
        | none ↦ none
        | some (output', e, character', p') ↦ atof_end doubles fuel m output' e character' p'
      ]
      else atof_end doubles fuel m output 0 character p

  -- `atof` of digits with any byte behind them that is neither a digit nor a point returns their
  -- number, where it is below 2 ^ 52: also behind an `e`. A fuel above the number of the digits is
  -- enough.
  pub atof-decimal :
      (fuel : ℕ) (m : Bytes) (p c : ℕ) (xs : List ℕ)
      → Holds m p xs
      → AreDigits xs
      → m (p + length xs) ≡ c
      → IsEnd c
      → decimal 0 xs < 2 ^ 52
      → length xs < suc fuel
      → atof doubles (suc fuel) m p ≡ some (num (decimal 0 xs))
  unfolding atof
  atof-decimal fuel m p c xs s d e stop fits h =
      let start = exact.of_int 0 (omega arith) in
      let read = whole_loop-decimal (suc fuel) m p 0 c xs s d e stop.0 fits h in
      let no_point : (c == 46) ≡ false = ne→== c 46 stop.1 in
      ap (λ z. atof_rest (suc fuel) m (whole_loop doubles (suc fuel) m p z)) start
      ∙ ap (atof_rest (suc fuel) m) read
      ∙ rw no_point (atof_end-whole fuel m (num (decimal 0 xs)) c (p + length xs + 1) stop.0)
