-- ===== src/Bits/Shift.antt =====
-- Bounds of `&` and `|`, and the bits of a word shifted by twelve places, the width of a page
-- offset.
use Prim.Native.Nat.{bit_and-bitwise}
use native.Mathlib.Nat.{pow-suc}
use os_tk.Base.{
  ℕ, zero, suc, ◌+◌, ◌*◌, ◌/◌, ◌^◌, ◌≤◌, ◌<◌, bit_and, bit_or, ◌≡◌, sym, ◌∙◌, ap, arith,
}
use os_tk.Bits.{bit_at}
use os_tk.Bits.Step.{bit_and_step, bit_or_step, bit_and-zero}

pub bit_or-lt : (n a b : ℕ) → a < 2 ^ n → b < 2 ^ n → bit_or a b < 2 ^ n
bit_or-lt zero a b ha hb =
    let a_zero : a ≡ 0 = omega arith in
    let b_zero : b ≡ 0 = omega arith in rw (a_zero, b_zero) (omega arith)
bit_or-lt (suc n) a b ha hb =
    let half : bit_or (a / 2) (b / 2) < 2 ^ n =
      bit_or-lt n (a / 2) (b / 2) (omega (arith, pow-suc 2 n)) (omega (arith, pow-suc 2 n)) in
    omega (arith, bit_or_step a b, pow-suc 2 n)

pub bit_and-le : (n a b : ℕ) → a < 2 ^ n → bit_and a b ≤ a
bit_and-le zero a b h =
    let a_zero : a ≡ 0 = omega arith in
    rw a_zero (omega (arith, bit_and_step 0 b, bit_and-bitwise 0 b))
bit_and-le (suc n) a b h =
    let half : bit_and (a / 2) (b / 2) ≤ a / 2 =
      bit_and-le n (a / 2) (b / 2) (omega (arith, pow-suc 2 n)) in
    omega (arith, bit_and_step a b)

-- The bits of `a >> 12`.
pub bit_at-div_page : (a k : ℕ) → bit_at (a / 2 ^ 12) k ≡ bit_at a (12 + k)
bit_at-div_page a k =
    let twelve : 12 + k ≡ suc (suc (suc (suc (suc (suc (suc (suc (suc (suc (suc (suc k))))))))))) =
      omega arith in
    rw twelve (ap (λ t. bit_at t k) (omega arith))

-- The bits of `a << 12`, from the twelfth on.
pub bit_at-mul_page : (a k : ℕ) → bit_at (a * 2 ^ 12) (12 + k) ≡ bit_at a k
bit_at-mul_page a k = sym (bit_at-div_page (a * 2 ^ 12) k) ∙ ap (λ t. bit_at t k) (omega arith)

pub bit_and-lt : (n a b : ℕ) → b < 2 ^ n → bit_and a b < 2 ^ n
bit_and-lt zero a b h =
    let b_zero : b ≡ 0 = omega arith in rw b_zero (omega (arith, bit_and-zero a))
bit_and-lt (suc n) a b h =
    let half : bit_and (a / 2) (b / 2) < 2 ^ n =
      bit_and-lt n (a / 2) (b / 2) (omega (arith, pow-suc 2 n)) in
    omega (arith, bit_and_step a b, pow-suc 2 n)

-- The bits of `a << j` below the `j`-th.
pub bit_at-mul_low : (j a k : ℕ) → k < j → bit_at (a * 2 ^ j) k ≡ 0
bit_at-mul_low zero a k h = absurd (omega arith)
bit_at-mul_low (suc j) a zero h = omega (arith, ap (λ (t : ℕ). a * t) (pow-suc 2 j))
bit_at-mul_low (suc j) a (suc k) h =
    let half : a * 2 ^ suc j / 2 ≡ a * 2 ^ j = omega (arith, ap (λ (t : ℕ). a * t) (pow-suc 2 j)) in
    ap (λ t. bit_at t k) half ∙ bit_at-mul_low j a k (omega arith)
