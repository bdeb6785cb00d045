-- ===== src/Libc/Stdlib/Print/Reverse.antt =====
-- The second loop of `itoa` turns a block round.
use os_tk.Base.{
  ℕ, zero, suc, ◌+◌, ◌-◌, ◌<◌, ◌≤◌, ◌≡◌, ◌⊎◌, inl, inr, refl, ap, ◌∙◌, ◌==◌, ltb, some, arith,
  Bool-cases, ltb→lt, ==→eq, ==→ne, ne→==, ==-refl, ltb→le,
}
use os_tk.Libc.Bytes.{Bytes, store}
use os_tk.Libc.Stdlib.{itoa_reverse}

-- `m'` is `m` with the bytes from `front` to `back` turned round.
pub record IsTurned (front back : ℕ) (m m' : Bytes) : Type 0 where
  pub inside : (j : ℕ) → front ≤ j → j ≤ back → m' j ≡ m (front + back - j)
  pub outside : (j : ℕ) → (j < front) ⊎ (back < j) → m' j ≡ m j

abbrev swapped : (front back : ℕ) → Bytes → Bytes
swapped front back m = store (store m back (m front)) front (m back)

turn-step :
    (front back : ℕ) (m m' : Bytes)
    → front < back
    → IsTurned (front + 1) (back - 1) (swapped front back m) m'
    → IsTurned front back m m'
turn-step front back m m' lt t = record {
  inside = λ j le ge. elim (Bool-cases (j == front)) [
    | inl first ↦
        let at = ==→eq j front first in
        let mirror : front + back - j ≡ back = omega arith in
        rw mirror
          (t.outside j (inl (omega arith)) ∙ ap (swapped front back m) at ∙ rw (==-refl front) refl)
    | inr later ↦ elim (Bool-cases (j == back)) [
      | inl final ↦
          let at = ==→eq j back final in
          let mirror : front + back - j ≡ front = omega arith in
          let apart = ne→== front back (λ e. omega (arith, e, lt)) in
          rw mirror (
            t.outside j (inr (omega arith))
            ∙ ap (swapped front back m) at
            ∙ rw (apart, ==-refl back) refl)
      | inr inner ↦
          let ne = ==→ne j front later in
          let ne' = ==→ne j back inner in
          let mirror : front + 1 + (back - 1) - j ≡ front + back - j = omega (arith, lt) in
          let low = ne→== front (front + back - j) (λ e. omega (arith, ge, ne', e)) in
          let high = ne→== back (front + back - j) (λ e. omega (arith, le, ne, ge, e)) in
          t.inside j (omega (arith, le, ne)) (omega (arith, ge, ne'))
          ∙ ap (swapped front back m) mirror
          ∙ rw (low, high) refl
    ]
  ];
  outside = λ j out. ground (arith, t.outside j (ground (arith, out, lt)));
}

pub itoa_reverse-IsTurned :
    (fuel front back : ℕ) (m : Bytes)
    → front ≤ back + 1
    → back + 2 ≤ front + fuel + fuel
    → (m' : Bytes) × (itoa_reverse fuel front back m ≡ some m') × IsTurned front back m m'
unfolding itoa_reverse
itoa_reverse-IsTurned zero front back m near enough = absurd (omega (arith, near, enough))
itoa_reverse-IsTurned (suc fuel) front back m near enough = elim (Bool-cases (ltb front back)) [
  | inl more ↦
      let lt = ltb→lt front back more in
      let (m', done, t) =
        itoa_reverse-IsTurned fuel (front + 1) (back - 1) (swapped front back m) (omega (arith, lt))
          (omega (arith, enough, lt)) in
      (m', rw more done, turn-step front back m m' lt t)
  | inr end ↦
      let le = ltb→le front back end in
      (
        m,
        rw end refl,
        record { inside = λ j lo hi. ap m (omega (arith, lo, hi, le)); outside = λ j out. refl },
      )
]
