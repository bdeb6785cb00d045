-- ===== src/Libc/Stdlib/Number.antt =====
-- `strtol` and `strtoul` on decimal numbers.
use os_tk.Base.{
  ℕ, zero, suc, ◌+◌, ◌-◌, ◌*◌, ◌/◌, ◌%◌, ◌^◌, ◌<◌, ◌≤◌, ◌≡◌, refl, ap, ◌∙◌, true, false, not, ◌&&◌,
  ◌||◌, ◌==◌, ltb, leb, none, some, List, Option, [], ◌∷◌, length, arith, u64, if◌then◌else◌,
  Bool-cases, subst, sym, inl, inr,
}
use os_tk.Libc.Bytes.{Bytes, char_int, IsString}
use os_tk.Libc.Ctype.{isspace, isdigit, isalpha}
use os_tk.Libc.Stdlib.{
  skip_space, digit_value, Any, overflows, no_digit, fitting, overflow, digits_loop, finish,
  read_prefix, strtoul, strtol,
}
use os_tk.Libc.Stdlib.Decimal.{decimal, AreDigits}

digit_value-digit : (x : ℕ) → 48 ≤ x → x ≤ 57 → digit_value (char_int x) ≡ some (x - 48)
unfolding isdigit
digit_value-digit x lo hi = ground arith

-- The test of the code for an overflow says whether the number with the next digit is too large.
too_large :
    (bound n d : ℕ)
    → n ≤ bound
    → d < 10
    → (ltb (bound / 10) n || ((n == bound / 10) && ltb (bound % 10) d))
      ≡ not (leb (n * 10 + d) bound)
too_large bound n d le digit = ground arith

decimal-le : (n : ℕ) (xs : List ℕ) → n ≤ decimal n xs
decimal-le n [] = omega arith
decimal-le n (x ∷ xs) = let rest = decimal-le (n * 10 + (x - 48)) xs in omega arith

-- The number that both functions return for `n`, above `bound` the greatest `long`.
abbrev pub clamped : (bound n : ℕ) → ℕ
clamped bound n = if leb n bound then n else 2 ^ 63 - 1

module _ (m : Bytes) (bound : ℕ) (small : bound < 2 ^ 64) where
  abbrev loop : (fuel p n : ℕ) → Any → Option (ℕ × Any × ℕ)
  loop fuel p n k = digits_loop fuel m 10 (bound / 10) (bound % 10) (p + 1) (char_int (m p)) n k

  -- A round at the character's value.
  abbrev round : (fuel p n : ℕ) → Any → Option ℕ → Option (ℕ × Any × ℕ)
  round fuel p n k none = some (n, k, p + 1)
  round fuel p n k (some d) =
      if leb 10 d
      then some (n, k, p + 1)
      else if overflows k || ltb (bound / 10) n || (n == bound / 10 && ltb (bound % 10) d)
      then loop fuel (p + 1) n overflow
      else loop fuel (p + 1) (u64 (u64 (n * 10) + d)) fitting

  loop-round :
      (fuel p n : ℕ) (k : Any)
      → loop (suc fuel) p n k ≡ round fuel p n k (digit_value (char_int (m p)))
  unfolding digits_loop
  loop-round fuel p n k = refl

  loop-end : (fuel p n : ℕ) (k : Any) → m p ≡ 0 → loop (suc fuel) p n k ≡ some (n, k, p + 1)
  unfolding isdigit isalpha
  loop-end fuel p n k e =
      loop-round fuel p n k ∙ ap (λ b. round fuel p n k (digit_value (char_int b))) e

  loop-digit :
      (fuel p n x : ℕ) (k : Any)
      → m p ≡ x
      → 48 ≤ x
      → x ≤ 57
      → loop (suc fuel) p n k ≡ round fuel p n k (some (x - 48))
  loop-digit fuel p n x k e lo hi =
      loop-round fuel p n k
      ∙ ap (round fuel p n k) (ap (λ b. digit_value (char_int b)) e ∙ digit_value-digit x lo hi)

  loop-overflow :
      (fuel p n : ℕ) (xs : List ℕ)
      → IsString m p xs
      → AreDigits xs
      → length xs < fuel
      → loop fuel p n overflow ≡ some (n, overflow, p + length xs + 1)
  loop-overflow zero p n xs s d h = absurd (omega (arith, h))
  loop-overflow (suc fuel) p n [] s d h =
      loop-end fuel p n overflow s ∙ ap (λ q. some (n, overflow, q)) (omega arith)
  loop-overflow (suc fuel) p n (x ∷ xs) s d h =
      let below : leb 10 (x - 48) ≡ false = ground (arith, d.0, d.1) in
      let place : p + 1 + length xs + 1 ≡ p + suc (length xs) + 1 = omega arith in
      loop-digit fuel p n x overflow s.0 d.0 d.1
      ∙ subst
          (λ b.
            (if b then some (n, overflow, p + 1) else loop fuel (p + 1) n overflow)
            ≡ some (n, overflow, p + suc (length xs) + 1))
          (sym below)
          (loop-overflow fuel (p + 1) n xs s.3 d.2 (omega arith)
            ∙ ap (λ q. some (n, overflow, q)) place)

  -- What a round at a digit does, where the code has met no overflow.
  digit-clamped :
      (fuel p n x : ℕ) (k : Any) (xs : List ℕ)
      → overflows k ≡ false
      → n ≤ bound
      → IsString m p (x ∷ xs)
      → AreDigits (x ∷ xs)
      → length xs < fuel
      → (n * 10 + (x - 48) ≤ bound
          → finish false (loop fuel (p + 1) (n * 10 + (x - 48)) fitting)
            ≡ some (clamped bound (decimal n (x ∷ xs)), p + suc (length xs)))
      → finish false (loop (suc fuel) p n k)
        ≡ some (clamped bound (decimal n (x ∷ xs)), p + suc (length xs))
  digit-clamped fuel p n x k xs ok le s d h rest =
      let v = n * 10 + (x - 48) in
      let below : leb 10 (x - 48) ≡ false = ground (arith, d.0, d.1) in
      let test = too_large bound n (x - 48) le (omega (arith, d.0, d.1)) in
      ap (finish false) (loop-digit fuel p n x k s.0 d.0 d.1) ∙ elim (Bool-cases (leb v bound)) [
        | inl fits ↦
            let within : v ≤ bound = ground (arith, fits) in
            let word : u64 (u64 (n * 10) + (x - 48)) ≡ v = omega (arith, within, small) in
            rw (below, ok, test, fits, word) (rest within)
        | inr large ↦
            let above : leb (decimal v xs) bound ≡ false = ground (arith, large, decimal-le v xs) in
            rw (below, ok, test, large, loop-overflow fuel (p + 1) n xs s.3 d.2 h, above)
              (ap (λ q. some (2 ^ 63 - 1, q)) (omega arith))
      ]

  loop-clamped :
      (fuel p n : ℕ) (xs : List ℕ)
      → n ≤ bound
      → IsString m p xs
      → AreDigits xs
      → length xs < fuel
      → finish false (loop fuel p n fitting) ≡ some (clamped bound (decimal n xs), p + length xs)
  loop-clamped zero p n xs le s d h = absurd (omega (arith, h))
  loop-clamped (suc fuel) p n [] le s d h =
      let fits : leb n bound ≡ true = ground (arith, le) in
      let place : p + 1 - 1 ≡ p + 0 = omega arith in
      ap (finish false) (loop-end fuel p n fitting s) ∙ rw (fits, place) refl
  loop-clamped (suc fuel) p n (x ∷ xs) le s d h =
      let place : p + 1 + length xs ≡ p + suc (length xs) = omega arith in
      digit-clamped fuel p n x fitting xs refl le s d (omega arith) (λ fits.
        loop-clamped fuel (p + 1) (n * 10 + (x - 48)) xs fits s.3 d.2 (omega arith)
        ∙ ap (λ q. some (clamped bound (decimal n (x ∷ xs)), q)) place)

module _ (fuel : ℕ) (m : Bytes) (p x : ℕ) (xs : List ℕ) (s : IsString m p (x ∷ xs))
    (d : AreDigits (x ∷ xs)) (enough : length xs < fuel) where
  skip_space-digit : skip_space (suc fuel) m p ≡ some (x, p + 1)
  unfolding skip_space isspace
  skip_space-digit =
      let plain : char_int x ≡ x = ground (arith, d.0, d.1) in
      let solid : (x == 32) ≡ false = ground (arith, d.0, d.1) in rw (s.0, plain, solid) refl

  -- The digits behind a prefix without a sign.
  first-clamped :
      (bound : ℕ)
      → bound < 2 ^ 64
      → finish false (digits_loop (suc fuel) m 10 (bound / 10) (bound % 10) (p + 1) x 0 no_digit)
        ≡ some (clamped bound (decimal 0 (x ∷ xs)), p + suc (length xs))
  first-clamped bound small =
      let plain : char_int (m p) ≡ x = ground (arith, s.0, d.0, d.1) in
      let place : p + 1 + length xs ≡ p + suc (length xs) = omega arith in
      ap
        (λ c.
          finish false (digits_loop (suc fuel) m 10 (bound / 10) (bound % 10) (p + 1) c 0 no_digit))
        (sym plain)
      ∙ digit-clamped m bound small fuel p 0 x no_digit xs refl (omega arith) s d enough (λ fits.
        loop-clamped m bound small fuel (p + 1) (0 * 10 + (x - 48)) xs fits s.3 d.2 enough
        ∙ ap (λ q. some (clamped bound (decimal 0 (x ∷ xs)), q)) place)

  -- On a string of digits with base 10, `strtol` and `strtoul` return the number if it is below
  -- 2 ^ 63, or below 2 ^ 64 for `strtoul`, and 2 ^ 63 - 1 otherwise; and they stop at the end of the
  -- string. A fuel above its length is enough.
  pub strtol-clamped :
      (strtol (suc fuel) m p 10
        ≡ some (clamped (2 ^ 63 - 1) (decimal 0 (x ∷ xs)), p + suc (length xs)))
      × (strtoul (suc fuel) m p 10
          ≡ some (clamped (2 ^ 64 - 1) (decimal 0 (x ∷ xs)), p + suc (length xs)))
  unfolding strtol strtoul
  strtol-clamped =
      let no_minus : (x == 45) ≡ false = ground (arith, d.0, d.1) in
      let no_plus : (x == 43) ≡ false = ground (arith, d.0, d.1) in
      (
        ap
              (λ o. elim o [
                | none ↦ none
                | some (character, q) ↦
                    let (negative, b, c, r) = read_prefix m 10 character q in
                    let bound = if negative then 2 ^ 63 else 2 ^ 63 - 1 in
                    finish negative
                      (digits_loop (suc fuel) m b (bound / b) (bound % b) r c 0 no_digit)
              ])
              skip_space-digit
            ∙ rw (no_minus, no_plus) (first-clamped (2 ^ 63 - 1) (omega arith)),
        ap
              (λ o. elim o [
                | none ↦ none
                | some (character, q) ↦
                    let (negative, b, c, r) = read_prefix m 10 character q in
                    let bound = 2 ^ 64 - 1 in
                    finish negative
                      (digits_loop (suc fuel) m b (bound / b) (bound % b) r c 0 no_digit)
              ])
              skip_space-digit
            ∙ rw (no_minus, no_plus) (first-clamped (2 ^ 64 - 1) (omega arith)),
      )
