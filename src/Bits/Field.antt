-- ===== src/Bits/Field.antt =====
-- Fields of a word: masks of adjacent bits, and words put together from fields.
use Prim.Native.Nat.{bit_or-bitwise}
use native.Mathlib.Nat.{pow-suc, mul_assoc, mul_comm, one-le-pow}
use os_tk.Base.{
  ℕ, zero, suc, ◌+◌, ◌-◌, ◌*◌, ◌/◌, ◌%◌, ◌^◌, ◌<◌, bit_and, bit_or, ◌≡◌, sym, ◌∙◌, ap, arith,
}
use os_tk.Bits.Step.{bit_and_step, bit_or_step, bit_and-zero}

-- The bits of `a` from the `n`-th on.
abbrev pub high : ℕ → ℕ → ℕ
high zero a = a
high (suc n) a = high n (a / 2)

twice_left : (n h : ℕ) → 2 ^ suc n * h ≡ 2 * (2 ^ n * h)
twice_left n h = ap (λ (t : ℕ). t * h) (pow-suc 2 n ∙ mul_comm (2 ^ n) 2) ∙ mul_assoc 2 (2 ^ n) h

twice_right : (n b : ℕ) → b * 2 ^ suc n ≡ b * 2 ^ n * 2
twice_right n b = ap (λ (t : ℕ). b * t) (pow-suc 2 n) ∙ sym (mul_assoc b (2 ^ n) 2)

-- A word is its low bits and its high bits.
pub bit_and-low : (n a : ℕ) → bit_and a (2 ^ n - 1) + 2 ^ n * high n a ≡ a
bit_and-low zero a = omega (arith, bit_and-zero a)
bit_and-low (suc n) a =
    let positive = one-le-pow n 2 in
    let half : bit_and (a / 2) ((2 ^ suc n - 1) / 2) ≡ bit_and (a / 2) (2 ^ n - 1) =
      ap (λ t. bit_and (a / 2) t) (omega (arith, pow-suc 2 n, positive)) in
    let odd : (2 ^ suc n - 1) % 2 ≡ 1 = omega (arith, pow-suc 2 n, positive) in
    omega (
      arith,
      bit_and_step a (2 ^ suc n - 1),
      half,
      odd,
      bit_and-low n (a / 2),
      twice_left n (high n (a / 2)),
    )

-- A mask of high bits.
pub bit_and-high : (n a b : ℕ) → bit_and a (b * 2 ^ n) ≡ bit_and (high n a) b * 2 ^ n
bit_and-high zero a b = let whole : b * 2 ^ 0 ≡ b = omega arith in rw whole (omega arith)
bit_and-high (suc n) a b =
    let double = twice_right n b in
    let half : bit_and (a / 2) (b * 2 ^ suc n / 2) ≡ bit_and (a / 2) (b * 2 ^ n) =
      ap (λ t. bit_and (a / 2) t) (omega (arith, double)) in
    let even : b * 2 ^ suc n % 2 ≡ 0 = omega (arith, double) in
    omega (
      arith,
      bit_and_step a (b * 2 ^ suc n),
      half,
      even,
      bit_and-high n (a / 2) b,
      twice_right n (bit_and (high n (a / 2)) b),
    )

-- A word put together from two fields.
pub bit_or-add : (n a b : ℕ) → a < 2 ^ n → bit_or a (b * 2 ^ n) ≡ a + b * 2 ^ n
bit_or-add zero a b h =
    let none : a ≡ 0 = omega arith in rw none (omega (arith, bit_or-bitwise 0 (b * 2 ^ 0)))
bit_or-add (suc n) a b h =
    let double = twice_right n b in
    let half : bit_or (a / 2) (b * 2 ^ suc n / 2) ≡ bit_or (a / 2) (b * 2 ^ n) =
      ap (λ t. bit_or (a / 2) t) (omega (arith, double)) in
    let even : b * 2 ^ suc n % 2 ≡ 0 = omega (arith, double) in
    omega (
      arith,
      bit_or_step a (b * 2 ^ suc n),
      half,
      even,
      bit_or-add n (a / 2) b (omega (arith, pow-suc 2 n)),
    )
