-- ===== src/Libc/Blocks/Match.antt =====
-- `memchr` and `memcmp` on blocks.
use os_tk.Base.{
  ℕ, zero, suc, ◌+◌, ◌-◌, ◌<◌, ◌≡◌, ◌≢◌, refl, ◌==◌, ltb, if◌then◌else◌, arith, ap, ◌∙◌, inl, inr,
  u8, Bool-cases, ne→==, ==→ne, ==→eq,
}
use os_tk.Libc.Bytes.{Bytes, null}
use os_tk.Libc.Blocks.{memchr_loop, memchr, memcmp_loop, memcmp, minus_one}

-- `r` is the first of the `n` addresses from `p` on whose byte is `c`, or NULL if there is none.
pub data FirstAt (m : Bytes) (p n c r : ℕ) : Type 0 where
  found :
      (i : ℕ)
      → i < n
      → r ≡ p + i
      → m (p + i) ≡ c
      → ((j : ℕ) → j < i → m (p + j) ≢ c)
      → FirstAt m p n c r
  missing : r ≡ null → ((j : ℕ) → j < n → m (p + j) ≢ c) → FirstAt m p n c r

FirstAt-later :
    {m : Bytes} {p n c r : ℕ} → m p ≢ c → FirstAt m (p + 1) n c r → FirstAt m p (suc n) c r
FirstAt-later {m} {p} ne (found i lt e hit before) =
    found (suc i) (omega arith) (omega arith) (ap m (omega arith) ∙ hit)
      (λ j h. ground (arith, before (j - 1), ap m (shift j)))
  where
    shift : (j : ℕ) → p + 1 + (j - 1) ≡ (if j == 0 then p + 1 else p + j)
    shift j = ground arith
FirstAt-later {m} {p} ne (missing e none_at) =
    missing e (λ j h. ground (arith, none_at (j - 1), ap m (shift j)))
  where
    shift : (j : ℕ) → p + 1 + (j - 1) ≡ (if j == 0 then p + 1 else p + j)
    shift j = ground arith

memchr_loop-FirstAt :
    (n : ℕ) (m : Bytes) (p value : ℕ) → FirstAt m p n (u8 value) (memchr_loop m p value n)
unfolding memchr_loop
memchr_loop-FirstAt zero m p value = missing refl (λ j h. absurd (omega arith))
memchr_loop-FirstAt (suc n) m p value = elim (Bool-cases (m p == u8 value)) [
  | inl hit ↦ rw hit (
      found 0 (omega arith) (omega arith) (ap m (omega arith) ∙ ==→eq _ _ hit)
        (λ j h. absurd (omega arith)))
  | inr miss ↦ rw miss (FirstAt-later (==→ne _ _ miss) (memchr_loop-FirstAt n m (p + 1) value))
]

-- `memchr` on a block that is not at NULL points to the first byte that is the low byte of the
-- value, or is NULL if the block has none.
memchr-FirstAt :
    (m : Bytes) (src value size : ℕ)
    → src ≢ null
    → FirstAt m src size (u8 value) (memchr m src value size)
unfolding memchr
memchr-FirstAt m src value size ne = rw (ne→== src null ne) (memchr_loop-FirstAt size m src value)

-- The comparison of two blocks: the order of the first two bytes that differ.
abbrev pub first_order : Bytes → ℕ → ℕ → ℕ → ℕ
first_order m p q zero = 0
first_order m p q (suc n) =
    if m p == m q then first_order m (p + 1) (q + 1) n else if ltb (m p) (m q) then minus_one else 1

memcmp_loop-first_order : (n : ℕ) (m : Bytes) (p q : ℕ) → memcmp_loop m p q n ≡ first_order m p q n
unfolding memcmp_loop
memcmp_loop-first_order zero m p q = refl
memcmp_loop-first_order (suc n) m p q = ground (arith, memcmp_loop-first_order n m (p + 1) (q + 1))

first_order_self : (n : ℕ) (m : Bytes) (p : ℕ) → first_order m p p n ≡ 0
first_order_self zero m p = refl
first_order_self (suc n) m p = ground (arith, first_order_self n m (p + 1))

-- `memcmp` is 0, 1 or -1 by the first bytes that differ, also where both pointers are the same.
memcmp-first_order : (m : Bytes) (p q n : ℕ) → memcmp m p q n ≡ first_order m p q n
unfolding memcmp
memcmp-first_order m p q n = elim (Bool-cases (p == q)) [
  | inl same ↦ let e = ==→eq p q same in rw (same, e) (ground (arith, first_order_self n m q))
  | inr other ↦ rw other (memcmp_loop-first_order n m p q)
]
