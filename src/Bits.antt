-- ===== src/Bits.antt =====
-- Single bits of a word: what `&`, `|` and `~` do to each of them, at every width.
pub mod Step
pub mod Shift
pub mod Field
use Step.{bit_and_step, bit_or_step}
use os_tk.Base.{
  ℕ, zero, suc, ◌+◌, ◌-◌, ◌*◌, ◌/◌, ◌%◌, ◌^◌, ◌≤◌, ◌<◌, min, max, bit_and, bit_or, ◌≡◌, refl, ◌≢◌,
  ap, ◌∙◌, arith, ◌==◌, if◌then◌else◌,
}
use native.Mathlib.Nat.{pow-suc, one-le-pow}

-- Bit `k` of `a`, counted from the lowest.
abbrev pub bit_at : ℕ → ℕ → ℕ
bit_at a zero = a % 2
bit_at a (suc k) = bit_at (a / 2) k

pub bit_at-le-one : (a k : ℕ) → bit_at a k ≤ 1
bit_at-le-one a zero = omega arith
bit_at-le-one a (suc k) = bit_at-le-one (a / 2) k

pub bit_at-bit_and : (a b k : ℕ) → bit_at (bit_and a b) k ≡ min (bit_at a k) (bit_at b k)
bit_at-bit_and a b zero = omega (arith, bit_and_step a b)
bit_at-bit_and a b (suc k) = ap (λ t. bit_at t k) half ∙ bit_at-bit_and (a / 2) (b / 2) k
  where
    half : bit_and a b / 2 ≡ bit_and (a / 2) (b / 2)
    half = omega (arith, bit_and_step a b)

pub bit_at-bit_or : (a b k : ℕ) → bit_at (bit_or a b) k ≡ max (bit_at a k) (bit_at b k)
bit_at-bit_or a b zero = omega (arith, bit_or_step a b)
bit_at-bit_or a b (suc k) = ap (λ t. bit_at t k) half ∙ bit_at-bit_or (a / 2) (b / 2) k
  where
    half : bit_or a b / 2 ≡ bit_or (a / 2) (b / 2)
    half = omega (arith, bit_or_step a b)

-- The complement at `n` bits turns each of them.
pub bit_at-complement : (n x k : ℕ) → x < 2 ^ n → k < n → bit_at (2 ^ n - 1 - x) k ≡ 1 - bit_at x k
bit_at-complement zero x k h lt = absurd (omega arith)
bit_at-complement (suc n) x zero h lt = omega (arith, pow-suc 2 n)
bit_at-complement (suc n) x (suc k) h lt =
    ap (λ t. bit_at t k) half
    ∙ bit_at-complement n (x / 2) k (omega (arith, pow-suc 2 n)) (omega arith)
  where
    half : (2 ^ suc n - 1 - x) / 2 ≡ 2 ^ n - 1 - x / 2
    half = omega (arith, pow-suc 2 n, one-le-pow n 2)

pub bit_at-zero : (k : ℕ) → bit_at 0 k ≡ 0
bit_at-zero zero = refl
bit_at-zero (suc k) = bit_at-zero k

-- A power of two has one bit.
pub bit_at-pow : (j k : ℕ) → bit_at (2 ^ j) k ≡ (if j == k then 1 else 0)
bit_at-pow zero zero = refl
bit_at-pow zero (suc k) = ground (arith, bit_at-zero k)
bit_at-pow (suc j) zero = ground (arith, pow-suc 2 j)
bit_at-pow (suc j) (suc k) = ap (λ t. bit_at t k) half ∙ bit_at-pow j k ∙ ground arith
  where
    half : 2 ^ suc j / 2 ≡ 2 ^ j
    half = omega (arith, pow-suc 2 j)

-- Words of `n` bits with the same bits are equal.
pub bit_at_ext :
    (n a b : ℕ) → a < 2 ^ n → b < 2 ^ n → ((k : ℕ) → k < n → bit_at a k ≡ bit_at b k) → a ≡ b
bit_at_ext zero a b ha hb h = omega arith
bit_at_ext (suc n) a b ha hb h =
    let low : a % 2 ≡ b % 2 = h 0 (omega arith) in
    let high : a / 2 ≡ b / 2 =
      bit_at_ext n (a / 2) (b / 2) (omega (arith, pow-suc 2 n)) (omega (arith, pow-suc 2 n))
        (λ k lt. h (suc k) (omega arith)) in
    omega arith

-- Masking with a power of two leaves that one bit in its place.
pub bit_and-pow : (a j : ℕ) → bit_and a (2 ^ j) ≡ bit_at a j * 2 ^ j
bit_and-pow a zero = omega (arith, bit_and_step a 1, Step.bit_and-zero (a / 2))
bit_and-pow a (suc j) =
    let half : bit_and (a / 2) (2 ^ suc j / 2) ≡ bit_at (a / 2) j * 2 ^ j =
      ap (λ t. bit_and (a / 2) t) (omega (arith, pow-suc 2 j)) ∙ bit_and-pow (a / 2) j in
    let double : bit_at (a / 2) j * 2 ^ suc j ≡ 2 * (bit_at (a / 2) j * 2 ^ j) =
      omega (arith, ap (λ (t : ℕ). bit_at (a / 2) j * t) (pow-suc 2 j)) in
    omega (arith, bit_and_step a (2 ^ suc j), pow-suc 2 j)

pub bit_at-eq-zero_of_lt : (n a k : ℕ) → a < 2 ^ n → n ≤ k → bit_at a k ≡ 0
bit_at-eq-zero_of_lt zero a k h le = ap (λ t. bit_at t k) (omega arith) ∙ bit_at-zero k
bit_at-eq-zero_of_lt (suc n) a zero h le = absurd (omega arith)
bit_at-eq-zero_of_lt (suc n) a (suc k) h le =
    bit_at-eq-zero_of_lt n (a / 2) k (omega (arith, pow-suc 2 n)) (omega arith)
