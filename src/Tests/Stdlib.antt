-- ===== src/Tests/Stdlib.antt =====
-- Numbers.
use os_tk.Base.{ℕ, List, ◌==◌, if◌then◌else◌, ◌≡◌, refl, some, [], ◌∷◌, get_or, arith}
use os_tk.Libc.Bytes.{Bytes, IsString}
use os_tk.Libc.Stdlib.Number.{strtol-clamped}
use os_tk.Libc.Stdlib.{itoa, strtol, strtoul, atoi, bsearch}
use os_tk.Libc.Stdlib.Search.{IsSorted, SearchResult, bsearch-SearchResult}
use os_tk.Libc.Stdlib.Decimal.{decimal, AreDigits}
use os_tk.Libc.Stdlib.Print.{atoi-itoa}
use os_tk.Libc.Stdlib.Real.{atof, strtod}
use os_tk.Libc.Stdlib.Real.Exact.{IsExact, atof-decimal}
use os_tk.Libc.Stdlib.Real.Parse.{strtod-decimal}
use os_tk.Tests.Streams.{ideal}

-- "407" at 1.
abbrev digits : Bytes
digits q = get_or (0 ∷ 52 ∷ 48 ∷ 55 ∷ 0 ∷ []) q 0

digits-IsString : IsString digits 1 (52 ∷ 48 ∷ 55 ∷ [])
digits-IsString = (
  refl,
  omega arith,
  omega arith,
  (refl, omega arith, omega arith, (refl, omega arith, omega arith, refl)),
)

-- The key is above the member at 100, equal to that at 104, and below that at 108.
abbrev against_key : ℕ → ℕ
against_key p = if p == 100 then 1 else if p == 104 then 0 else 0xffffffff

members-IsSorted : IsSorted against_key 100 4 3
members-IsSorted = record {
  is_int = λ i lt. ground arith;
  above = λ i j lt inside up. ground arith;
  below = λ i j lt inside down. ground arith;
}

bsearch-SearchResult_example : SearchResult against_key 100 4 0 3 (bsearch 3 against_key 100 3 4)
bsearch-SearchResult_example =
    bsearch-SearchResult against_key 100 4 2 3 members-IsSorted (omega arith) (omega arith)
      (omega arith)

strtol-clamped_example :
    (strtol 4 digits 1 10 ≡ some (407, 4)) × (strtoul 4 digits 1 10 ≡ some (407, 4))
strtol-clamped_example =
    strtol-clamped 3 digits 1 52 (48 ∷ 55 ∷ []) digits-IsString
      (omega arith, omega arith, (omega arith, omega arith, (omega arith, omega arith, tt)))
      (omega arith)

-- "ab-c" at 1 and the delimiter "-" at 6.
abbrev dashed : Bytes
dashed q = get_or (0 ∷ 97 ∷ 98 ∷ 45 ∷ 99 ∷ 0 ∷ 45 ∷ 0 ∷ []) q 0

atoi-itoa_example :
    (m' : Bytes) × (itoa 3 407 8 10 digits ≡ some m')
    × (xs : List ℕ) × IsString m' 8 xs
    × AreDigits xs
    × (decimal 0 xs ≡ 407)
    × (atoi 4 m' 8 ≡ some 407)
atoi-itoa_example = atoi-itoa 3 407 8 digits (omega arith) (omega arith) (omega arith)

-- The integers themselves.
ideal-IsExact : IsExact ideal (λ n. n)
ideal-IsExact = record {
  of_int = λ n lt. refl;
  add = λ a b lt. refl;
  sub = λ a b lt le. refl;
  mul = λ a b lt. refl;
}

atof-decimal_example : atof ideal 4 digits 1 ≡ some 407
atof-decimal_example =
    atof-decimal ideal (λ n. n) ideal-IsExact 3 digits 1 0 (52 ∷ 48 ∷ 55 ∷ [])
      (refl, (refl, (refl, tt)))
      (omega arith, omega arith, (omega arith, omega arith, (omega arith, omega arith, tt))) refl
      (refl, λ e. omega arith) (omega arith) (omega arith)

strtod-decimal_example : strtod ideal 4 digits 1 ≡ some (407, 4)
strtod-decimal_example =
    strtod-decimal ideal (λ n. n) ideal-IsExact 3 digits 1 0 52 (48 ∷ 55 ∷ [])
      (refl, (refl, (refl, tt)))
      (omega arith, omega arith, (omega arith, omega arith, (omega arith, omega arith, tt))) refl
      (omega arith) (refl, λ e. omega arith) refl (omega arith) (omega arith)
