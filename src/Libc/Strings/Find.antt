-- ===== src/Libc/Strings/Find.antt =====
-- `strlen`, `strchr` and `strrchr` on a string.
use mathlib.Core.Option
use os_tk.Base.{
  ℕ, zero, suc, ◌+◌, ◌<◌, ◌≡◌, refl, ◌==◌, if◌then◌else◌, Option, none, some, List, [], ◌∷◌, length,
  arith, ap, ◌∙◌, Bool-cases, inl, inr,
}
use os_tk.Libc.Bytes.{Bytes, null, char_int, IsString}
use os_tk.Libc.Strings.{strlen_loop, strlen, strchr, strrchr_loop, strrchr}

strlen_loop-length :
    (fuel : ℕ) (m : Bytes) (p size : ℕ) (xs : List ℕ)
    → IsString m p xs
    → length xs < fuel
    → strlen_loop fuel m p size ≡ some (size + length xs)
unfolding strlen_loop
strlen_loop-length zero m p size xs s h = absurd (omega arith)
strlen_loop-length (suc fuel) m p size [] s h = rw s (ap some (omega arith))
strlen_loop-length (suc fuel) m p size (x ∷ xs) s h =
    ground (arith, strlen_loop-length fuel m (p + 1) (size + 1) xs s.3 (omega arith))

-- `strlen` counts the bytes before the zero byte. A fuel above that length is enough.
pub strlen-length :
    (fuel : ℕ) (m : Bytes) (p : ℕ) (xs : List ℕ)
    → IsString m p xs
    → length xs < fuel
    → strlen fuel m p ≡ some (length xs)
unfolding strlen
strlen-length fuel m p xs s h = strlen_loop-length fuel m p 0 xs s h ∙ ap some (omega arith)

-- The first index of a byte in a list, and the last one.
abbrev pub index_of : ℕ → List ℕ → Option ℕ
index_of c [] = none
index_of c (x ∷ xs) = if x == c then some 0 else Option.map suc (index_of c xs)

abbrev pub last_index_of : ℕ → List ℕ → Option ℕ
last_index_of c [] = none
last_index_of c (x ∷ xs) = elim (last_index_of c xs) [
  | none ↦ if x == c then some 0 else none
  | some i ↦ some (suc i)
]

-- NULL, or the pointer behind `i` bytes.
abbrev pub pointer_at : ℕ → Option ℕ → ℕ
pointer_at p none = null
pointer_at p (some i) = p + i

pub char_int-eq : (a b : ℕ) → a < 256 → b < 256 → (char_int a == char_int b) ≡ (a == b)
char_int-eq a b ha hb = ground arith

pointer_at-suc : (p : ℕ) (o : Option ℕ) → pointer_at (p + 1) o ≡ pointer_at p (Option.map suc o)
pointer_at-suc p none = refl
pointer_at-suc p (some i) = omega arith

-- `strchr` of a character points to its first occurrence before the terminator, or is NULL. A fuel
-- above the length of the string is enough.
pub strchr-index_of :
    (fuel : ℕ) (m : Bytes) (p c : ℕ) (xs : List ℕ)
    → c < 256
    → IsString m p xs
    → length xs < fuel
    → strchr fuel m p (char_int c) ≡ some (pointer_at p (index_of c xs))
unfolding strchr
strchr-index_of zero m p c xs hc s h = absurd (omega arith)
strchr-index_of (suc fuel) m p c [] hc s h = rw s
strchr-index_of (suc fuel) m p c (x ∷ xs) hc s h =
    let rest = strchr-index_of fuel m (p + 1) c xs hc s.3 (omega arith) in
    rw (s.0, char_int-eq x c s.2 hc, rest)
      (elim (Bool-cases (x == c)) [
        | inl hit ↦ rw hit (ground arith)
        | inr miss ↦ rw miss (ground (arith, pointer_at-suc p (index_of c xs)))
      ])

abbrev last_or : ℕ → ℕ → Option ℕ → ℕ
last_or ret p none = ret
last_or ret p (some i) = p + i

strrchr_loop_last :
    (fuel : ℕ) (m : Bytes) (p c ret : ℕ) (xs : List ℕ)
    → c < 256
    → IsString m p xs
    → length xs < fuel
    → strrchr_loop fuel m p (char_int c) ret ≡ some (last_or ret p (last_index_of c xs))
unfolding strrchr_loop
strrchr_loop_last zero m p c ret xs hc s h = absurd (omega arith)
strrchr_loop_last (suc fuel) m p c ret [] hc s h = rw s
strrchr_loop_last (suc fuel) m p c ret (x ∷ xs) hc s h =
    let rest =
      strrchr_loop_last fuel m (p + 1) c (if x == c then p else ret) xs hc s.3 (omega arith) in
    rw (s.0, char_int-eq x c s.2 hc, rest) (ground arith)

-- `strrchr` of a character points to its last occurrence before the terminator, or is NULL. A fuel
-- above the length of the string is enough.
pub strrchr-last_index_of :
    (fuel : ℕ) (m : Bytes) (p c : ℕ) (xs : List ℕ)
    → c < 256
    → IsString m p xs
    → length xs < fuel
    → strrchr fuel m p (char_int c) ≡ some (pointer_at p (last_index_of c xs))
unfolding strrchr
strrchr-last_index_of fuel m p c xs hc s h =
    strrchr_loop_last fuel m p c null xs hc s h ∙ ground arith
