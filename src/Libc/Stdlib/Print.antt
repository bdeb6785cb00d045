-- ===== src/Libc/Stdlib/Print.antt =====
-- `itoa` with base 10 and `atoi`: the digits of a number in memory.
pub mod Reverse
use os_tk.Base.{
  ℕ, zero, suc, ◌+◌, ◌-◌, ◌*◌, ◌/◌, ◌%◌, ◌^◌, ◌<◌, ◌≤◌, ◌≡◌, refl, ap, ◌∙◌, sym, subst, true, false,
  ◌==◌, ltb, some, List, [], ◌∷◌, length, arith, u32, get_or, every_below, every_below_at, ==→eq,
  ==→ne, ne→==, Bool-cases, ==-refl, ◌⊎◌, inl, inr, if◌then◌else◌, codes, Option, none,
}
use os_tk.Libc.Bytes.{Bytes, store, ltb_int, IsString}
use os_tk.Libc.Stdlib.{quot_int, rem_int, itoa_digits, itoa_loop, itoa_reverse, itoa, atoi}
use os_tk.Libc.Stdlib.Print.Reverse.{itoa_reverse-IsTurned}
use os_tk.Libc.Stdlib.Decimal.{decimal, AreDigits, atoi-decimal}

-- `n / 10 ^ k`
abbrev pub shifted : (n k : ℕ) → ℕ
shifted n zero = n
shifted n (suc k) = shifted n k / 10

shifted-le : (n k : ℕ) → shifted n k ≤ n
shifted-le n zero = omega arith
shifted-le n (suc k) = omega (arith, shifted-le n k)

-- The character of the digit `k` places before the last.
abbrev pub digit_char : (n k : ℕ) → ℕ
digit_char n k = 48 + shifted n k % 10

digits_table : (d : ℕ) → d < 10 → get_or itoa_digits (35 + d) 0 ≡ 48 + d
unfolding every_below
digits_table d lt =
    ==→eq _ _ (every_below_at 10 (λ e. get_or itoa_digits (35 + e) 0 == 48 + e) d refl lt)

-- One round on a number from 0 on.
quot_int-ten : (a : ℕ) → a < 2 ^ 31 → quot_int a 10 ≡ a / 10
quot_int-ten a small = ground arith

rem_int-ten : (a : ℕ) → a < 2 ^ 31 → u32 (35 + rem_int a 10) ≡ 35 + a % 10
rem_int-ten a small = ground arith

nonneg : (a : ℕ) → a < 2 ^ 31 → ltb_int a 0 ≡ false
nonneg a small = ground arith

itoa_loop-step :
    (fuel a p : ℕ) (m : Bytes)
    → a < 2 ^ 31
    → let written = store m p (48 + a % 10) in
      itoa_loop (suc fuel) 10 a p m ≡ (
        if a / 10 == 0
        then some (a, p + 1, written)
        else itoa_loop fuel 10 (a / 10) (p + 1) written)
unfolding itoa_loop
itoa_loop-step fuel a p m small =
    let q = quot_int-ten a small in
    let r = rem_int-ten a small in let d = digits_table (a % 10) (omega arith) in rw (q, r, d) refl

-- What the first loop leaves: `k` digits, the last one first, at `output`.
pub record IsReversed (output n k : ℕ) (m' : Bytes) : Type 0 where
  pub some_digit : 0 < k
  pub all_digits : shifted n k ≡ 0
  pub at : (j : ℕ) → j < k → m' (output + j) ≡ digit_char n j

loop-IsReversed :
    (fuel output n i : ℕ) (m : Bytes)
    → n < 2 ^ 31
    → shifted n i < 10 ^ fuel
    → (0 < shifted n i) ⊎ (0 < fuel)
    → ((j : ℕ) → j < i → m (output + j) ≡ digit_char n j)
    → (k : ℕ) × (a : ℕ) × (m' : Bytes) × (itoa_loop fuel 10 (shifted n i) (output + i) m
        ≡ some (a, output + k, m'))
      × (a < 2 ^ 31)
      × (k ≤ i + fuel)
      × IsReversed output n k m'
loop-IsReversed zero output n i m small enough pos before = absurd (ground (arith, pos, enough))
loop-IsReversed (suc fuel) output n i m small enough pos before =
    let a = shifted n i in
    let a_small : a < 2 ^ 31 = omega (arith, shifted-le n i, small) in
    let m1 = store m (output + i) (48 + a % 10) in
    let step = itoa_loop-step fuel a (output + i) m a_small in
    let next : output + i + 1 ≡ output + suc i = omega arith in
    let written : (j : ℕ) → j < suc i → m1 (output + j) ≡ digit_char n j = λ j lt.
      elim (Bool-cases (j == i)) [
        | inl same ↦
            subst (λ k. m1 (output + k) ≡ digit_char n k) (sym (==→eq j i same))
              (rw (==-refl (output + i)) refl)
        | inr earlier ↦
            let ne = ==→ne j i earlier in
            rw (ne→== (output + i) (output + j) (λ e. omega (arith, ne, e)))
              (before j (omega (arith, lt, ne)))
      ] in
    elim (Bool-cases (a / 10 == 0)) [
      | inl last ↦ (
        suc i,
        a,
        m1,
        step ∙ rw last (ap (λ p. some (a, p, m1)) next),
        a_small,
        omega arith,
        record { some_digit = omega arith; all_digits = ==→eq _ _ last; at = written },
      )
      | inr more ↦
          let left : 0 < a / 10 = omega (arith, ==→ne (a / 10) 0 more) in
          let fits : a / 10 < 10 ^ fuel = omega (arith, enough) in
          let (k, a', m', done, low, count, reversed) =
            loop-IsReversed fuel output n (suc i) m1 small fits (inl left) written in
          (
            k,
            a',
            m',
            step ∙ rw more (ap (λ p. itoa_loop fuel 10 (a / 10) p m1) next ∙ done),
            low,
            omega (arith, count),
            reversed,
          )
    ]

-- The last `k` digits of `n`.
abbrev pub top : (n k : ℕ) → List ℕ
top n zero = []
top n (suc k) = digit_char n k ∷ top n k

length-top : (n k : ℕ) → length (top n k) ≡ k
length-top n zero = refl
length-top n (suc k) = ap suc (length-top n k)

top-AreDigits : (n k : ℕ) → AreDigits (top n k)
top-AreDigits n zero = tt
top-AreDigits n (suc k) = (omega arith, omega arith, top-AreDigits n k)

decimal-top : (n k : ℕ) → decimal (shifted n k) (top n k) ≡ n
decimal-top n zero = refl
decimal-top n (suc k) =
    let step : shifted n k / 10 * 10 + (digit_char n k - 48) ≡ shifted n k = omega arith in
    ap (λ a. decimal a (top n k)) step ∙ decimal-top n k

-- `k` of the `size` digits from `output` on, as they stand once they are turned round.
top-IsString :
    (output n size k : ℕ) (m : Bytes)
    → k ≤ size
    → ((j : ℕ) → j < size → m (output + j) ≡ digit_char n (size - 1 - j))
    → m (output + (size - 0)) ≡ 0
    → IsString m (output + (size - k)) (top n k)
top-IsString output n size zero m le at end = end
top-IsString output n size (suc k) m le at end =
    let place : output + (size - suc k) + 1 ≡ output + (size - k) = omega (arith, le) in
    let digit : size - 1 - (size - suc k) ≡ k = omega (arith, le) in
    (
      at (size - suc k) (omega (arith, le)) ∙ ap (digit_char n) digit,
      omega arith,
      omega arith,
      subst (λ p. IsString m p (top n k)) (sym place)
          (top-IsString output n size k m (omega (arith, le)) at end),
    )

-- What `itoa` does with the outcome of its first loop.
abbrev end_itoa : (fuel output : ℕ) → Option (ℕ × ℕ × Bytes) → Option Bytes
end_itoa fuel output none = none
end_itoa fuel output (some (res_number, back_pointer, m1)) =
    if ltb_int res_number 0
    then itoa_reverse fuel output back_pointer
        (store (store m1 back_pointer 45) (back_pointer + 1) 0)
    else itoa_reverse fuel output (back_pointer - 1) (store m1 back_pointer 0)

-- `itoa` with base 10 writes the decimal digits of a number from 0 on as a string, and `atoi` reads
-- the number back. A fuel of the number of digits is enough, and one more for `atoi`.
pub atoi-itoa :
    (fuel number output : ℕ) (m : Bytes)
    → number < 2 ^ 31
    → number < 10 ^ fuel
    → 0 < fuel
    → (m' : Bytes) × (itoa fuel number output 10 m ≡ some m')
      × (xs : List ℕ) × IsString m' output xs
      × AreDigits xs
      × (decimal 0 xs ≡ number)
      × (atoi (suc fuel) m' output ≡ some number)
unfolding itoa
atoi-itoa fuel number output m small enough pos =
    let (k, a, m1, looped, low, count, r) =
      loop-IsReversed fuel output number 0 m small enough (inr pos)
        (λ j lt. absurd (omega (arith, lt))) in
    let ended = store m1 (output + k) 0 in
    let start : output + 0 ≡ output = omega arith in
    let (m2, turned, t) =
      itoa_reverse-IsTurned fuel output (output + k - 1) ended (omega (arith, r.some_digit))
        (omega (arith, r.some_digit, count, pos)) in
    let printed : itoa fuel number output 10 m ≡ some m2 =
      ap (end_itoa fuel output) (ap (λ p. itoa_loop fuel 10 number p m) (sym start) ∙ looped)
      ∙ rw (nonneg a low) turned in
    let xs = top number k in
    let at : (j : ℕ) → j < k → m2 (output + j) ≡ digit_char number (k - 1 - j) = λ j lt.
      let mirror : output + (output + k - 1) - (output + j) ≡ output + (k - 1 - j) =
        omega (arith, lt) in
      let apart = ne→== (output + k) (output + (k - 1 - j)) (λ e. omega (arith, lt, e)) in
      t.inside (output + j) (omega arith) (omega (arith, lt))
      ∙ ap ended mirror
      ∙ rw apart (r.at (k - 1 - j) (omega (arith, lt))) in
    let end : m2 (output + k) ≡ 0 =
      t.outside (output + k) (inr (omega (arith, r.some_digit))) ∙ rw (==-refl (output + k)) refl in
    let text : IsString m2 output xs =
      subst (λ p. IsString m2 p xs) (omega arith)
        (top-IsString output number k k m2 (omega arith) at
          (ap (λ z. m2 (output + z)) (omega arith) ∙ end)) in
    let exact : decimal 0 xs ≡ number =
      ap (λ b. decimal b xs) (sym r.all_digits) ∙ decimal-top number k in
    let read =
      atoi-decimal (suc fuel) m2 output xs text (top-AreDigits number k)
        (omega (arith, length-top number k, count)) in
    let word : u32 number ≡ number = omega (arith, small) in
    (
      m2,
      printed,
      xs,
      text,
      top-AreDigits number k,
      exact,
      read.0 ∙ ap (λ v. some (u32 v)) exact ∙ ap some word,
    )
