-- ===== src/Libc/Bytes.antt =====
-- The memory that the C library works on: a byte for every address. An `int` is its 32-bit
-- pattern, and a `char` is signed. NULL is 0.
use os_tk.Base.{
  ℕ, ◌+◌, ◌-◌, ◌^◌, ◌<◌, ◌≡◌, Bool, ltb, leb, ◌==◌, if◌then◌else◌, List, [], ◌∷◌, u32, u64,
}

abbrev pub Bytes : Type 0
Bytes = ℕ → ℕ

abbrev pub null : ℕ
null = 0

-- `*p = v`
abbrev pub store : Bytes → ℕ → ℕ → Bytes
store m p v q = if p == q then v else m q

-- A `char` promoted to `int`.
abbrev pub char_int : ℕ → ℕ
char_int b = if ltb b 128 then b else b + (2 ^ 32 - 256)

-- `a <= b` and `a < b` on `int`s.
abbrev pub leb_int : ℕ → ℕ → Bool
leb_int a b = leb (u32 (a + 2 ^ 31)) (u32 (b + 2 ^ 31))

abbrev pub ltb_int : ℕ → ℕ → Bool
ltb_int a b = ltb (u32 (a + 2 ^ 31)) (u32 (b + 2 ^ 31))

-- `a + i` for an `int` i.
abbrev pub at_int : (a i : ℕ) → ℕ
at_int a i = if ltb i (2 ^ 31) then a + i else u64 (a + i + (2 ^ 64 - 2 ^ 32))

-- The rounds of `for (int i = 0; i < n; i++)` for a `size_t` n, where the `int` goes on at its least
-- number behind its greatest: a negative one is a `size_t` from 2 ^ 64 - 2 ^ 31 on.
abbrev pub int_rounds : ℕ → ℕ
int_rounds n =
    if leb n (2 ^ 31) then n else if leb n (2 ^ 64 - 2 ^ 31) then 2 ^ 31 else n - (2 ^ 64 - 2 ^ 32)

-- `a - b` on `int`s.
abbrev pub sub_u32 : ℕ → ℕ → ℕ
sub_u32 a b = u32 (a + 2 ^ 32 - b)

-- The bytes `xs` lie at `p`.
abbrev pub Holds : Bytes → ℕ → List ℕ → Type 0
Holds m p [] = Unit {0}
Holds m p (x ∷ xs) = (m p ≡ x) × Holds m (p + 1) xs

-- The string `xs` lies at `p`: bytes that are not zero, and a zero behind them.
abbrev pub IsString : Bytes → ℕ → List ℕ → Type 0
IsString m p [] = m p ≡ 0
IsString m p (x ∷ xs) = (m p ≡ x) × (0 < x) × (x < 256) × IsString m (p + 1) xs
