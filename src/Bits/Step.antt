-- ===== src/Bits/Step.antt =====
-- The native `bit_and` and `bit_or` stand for a recursion on binary digits with fuel. Here the
-- fuel goes away: one equation for the lowest digit of each.
use Prim.Native.Nat.{digits, bitwise, bit_and-bitwise, bit_or-bitwise}
use os_tk.Base.{
  ℕ, zero, suc, ◌+◌, ◌*◌, ◌/◌, ◌%◌, ◌≤◌, min, max, bit_and, bit_or, ◌≡◌, refl, arith, ap, ◌∙◌, ◌-◌,
}

module _ (rest : ℕ → ℕ) (op : ℕ → ℕ → ℕ) where
  -- One round more makes no difference once the first number has run out.
  digits-suc : (b a f : ℕ) → a ≤ f → digits rest op (suc f) a b ≡ digits rest op f a b
  digits-suc b zero zero h = refl
  digits-suc b zero (suc f) h = refl
  digits-suc b (suc a) zero h = absurd (omega arith)
  digits-suc b (suc a) (suc f) h = rw (digits-suc (b / 2) (suc a / 2) f (omega arith))

  digits-add : (more b a f : ℕ) → a ≤ f → digits rest op (f + more) a b ≡ digits rest op f a b
  digits-add zero b a f h = ap (λ n. digits rest op n a b) (omega arith)
  digits-add (suc more) b a f h =
      ap (λ n. digits rest op n a b) (last f more)
      ∙ digits-suc b a (f + more) (omega arith)
      ∙ digits-add more b a f h
    where
      last : (f more : ℕ) → f + suc more ≡ suc (f + more)
      last f more = omega arith

  bitwise-suc :
      (a b : ℕ)
      → bitwise rest op (suc a) b ≡ bitwise rest op (suc a / 2) (b / 2) * 2 + op (suc a % 2) (b % 2)
  bitwise-suc a b =
      let half = suc a / 2 in
      let split : half + (a - half) ≡ a = omega arith in
      let fewer = digits-add (a - half) (b / 2) half half (omega arith) in
      omega (arith, ap (λ n. digits rest op n half (b / 2)) split, fewer)

both_steps :
    (x y : ℕ)
    → (bit_and x y ≡ min (x % 2) (y % 2) + 2 * bit_and (x / 2) (y / 2))
      × (bit_or x y ≡ max (x % 2) (y % 2) + 2 * bit_or (x / 2) (y / 2))
both_steps zero y = (simp bit_and-bitwise (omega arith), simp bit_or-bitwise (omega arith))
both_steps (suc x) y = (
  simp bit_and-bitwise (omega (arith, bitwise-suc (λ t. 0) min x y)),
  simp bit_or-bitwise (omega (arith, bitwise-suc (λ t. t) max x y)),
)

pub bit_and_step : (x y : ℕ) → bit_and x y ≡ bit_and (x / 2) (y / 2) * 2 + min (x % 2) (y % 2)
bit_and_step x y = omega (arith, both_steps x y)

pub bit_or_step : (x y : ℕ) → bit_or x y ≡ bit_or (x / 2) (y / 2) * 2 + max (x % 2) (y % 2)
bit_or_step x y = omega (arith, both_steps x y)

bit_and-zero_below : (n a : ℕ) → a ≤ n → bit_and a 0 ≡ 0
bit_and-zero_below n zero h = refl
bit_and-zero_below zero (suc a) h = absurd (omega arith)
bit_and-zero_below (suc n) (suc a) h =
    omega (arith, bit_and_step (suc a) 0, bit_and-zero_below n (suc a / 2) (omega arith))

pub bit_and-zero : (a : ℕ) → bit_and a 0 ≡ 0
bit_and-zero a = bit_and-zero_below a a (omega arith)

bit_or-zero_below : (n a : ℕ) → a ≤ n → bit_or a 0 ≡ a
bit_or-zero_below n zero h = refl
bit_or-zero_below zero (suc a) h = absurd (omega arith)
bit_or-zero_below (suc n) (suc a) h =
    omega (arith, bit_or_step (suc a) 0, bit_or-zero_below n (suc a / 2) (omega arith))

pub bit_or-zero : (a : ℕ) → bit_or a 0 ≡ a
bit_or-zero a = bit_or-zero_below a a (omega arith)
