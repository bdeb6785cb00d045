-- ===== src/Libc/Stdlib/Decimal.antt =====
-- `atoi` and `atol` on decimal numbers, and `div`.
use os_tk.Base.{
  ℕ, zero, suc, ◌+◌, ◌-◌, ◌*◌, ◌/◌, ◌%◌, ◌^◌, ◌<◌, ◌≤◌, ◌≡◌, refl, true, false, ◌==◌, some, List,
  [], ◌∷◌, length, arith, u32, u64,
}
use native.Mathlib.Nat.{mod-lt, div-add-mod'}
use os_tk.Libc.Bytes.{Bytes, char_int, ltb_int, leb_int, IsString}
use os_tk.Libc.Stdlib.{atoi_loop, atoi, atol_loop, atol, char_long, div}

-- The number that the digits `xs` make behind the digits of `n`.
abbrev pub decimal : ℕ → List ℕ → ℕ
decimal n [] = n
decimal n (x ∷ xs) = decimal (n * 10 + (x - 48)) xs

abbrev pub AreDigits : List ℕ → Type 0
AreDigits [] = Unit {0}
AreDigits (x ∷ xs) = (48 ≤ x) × (x ≤ 57) × AreDigits xs

atoi_loop-decimal :
    (fuel : ℕ) (m : Bytes) (p n : ℕ) (xs : List ℕ)
    → IsString m p xs
    → AreDigits xs
    → length xs < fuel
    → atoi_loop fuel m p (u32 n) ≡ some (u32 (decimal n xs))
unfolding atoi_loop
atoi_loop-decimal zero m p n xs s d h = absurd (omega arith)
atoi_loop-decimal (suc fuel) m p n [] s d h = rw s
atoi_loop-decimal (suc fuel) m p n (x ∷ xs) s d h =
    let nonzero : (x == 0) ≡ false = ground arith in
    let plain : char_int x ≡ x = ground arith in
    let step : u32 (u32 n * 10 + x + (2 ^ 32 - 48)) ≡ u32 (n * 10 + (x - 48)) = omega arith in
    let rest = atoi_loop-decimal fuel m (p + 1) (n * 10 + (x - 48)) xs s.3 d.2 (omega arith) in
    rw (s.0, nonzero, plain, step, rest)

atol_loop-decimal :
    (fuel : ℕ) (m : Bytes) (p n : ℕ) (xs : List ℕ)
    → IsString m p xs
    → AreDigits xs
    → length xs < fuel
    → atol_loop fuel m p (u64 n) ≡ some (u64 (decimal n xs))
unfolding atol_loop
atol_loop-decimal zero m p n xs s d h = absurd (omega arith)
atol_loop-decimal (suc fuel) m p n [] s d h = rw s
atol_loop-decimal (suc fuel) m p n (x ∷ xs) s d h =
    let nonzero : (x == 0) ≡ false = ground arith in
    let plain : char_long x ≡ x = ground arith in
    let step : u64 (u64 n * 10 + x + (2 ^ 64 - 48)) ≡ u64 (n * 10 + (x - 48)) = omega arith in
    let rest = atol_loop-decimal fuel m (p + 1) (n * 10 + (x - 48)) xs s.3 d.2 (omega arith) in
    rw (s.0, nonzero, plain, step, rest)

-- On a string of digits `atoi` and `atol` return the decimal number, modulo 2 ^ 32 and 2 ^ 64. A
-- fuel above the length is enough.
pub atoi-decimal :
    (fuel : ℕ) (m : Bytes) (p : ℕ) (xs : List ℕ)
    → IsString m p xs
    → AreDigits xs
    → length xs < fuel
    → (atoi fuel m p ≡ some (u32 (decimal 0 xs))) × (atol fuel m p ≡ some (u64 (decimal 0 xs)))
unfolding atoi atol
atoi-decimal fuel m p xs s d h =
    (atoi_loop-decimal fuel m p 0 xs s d h, atol_loop-decimal fuel m p 0 xs s d h)

div_nonneg : (a b : ℕ) → a < 2 ^ 31 → b < 2 ^ 31 → a % b < 2 ^ 31 → div a b ≡ (a / b, a % b)
unfolding div
div_nonneg a b ha hb hr =
    let pos_a : ltb_int a 0 ≡ false = ground arith in
    let pos_b : ltb_int b 0 ≡ false = ground arith in
    let from_zero : leb_int 0 a ≡ true = ground arith in
    let pos_r : ltb_int (a % b) 0 ≡ false = ground arith in rw (pos_a, pos_b, pos_r, from_zero) refl

-- `div` of two numbers from 0 on, the second not 0, is the division with remainder.
pub div-divides :
    (a b : ℕ)
    → a < 2 ^ 31
    → 0 < b
    → b < 2 ^ 31
    → ((div a b).0 * b + (div a b).1 ≡ a) × ((div a b).1 < b)
div-divides a b ha hb lt =
    let below = mod-lt a hb in
    rw (div_nonneg a b ha lt (omega (arith, below))) (div-add-mod' a b, below)
