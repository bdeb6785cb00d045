-- ===== src/Libc/Strings/Compare.antt =====
-- `strcmp` and `strncmp` on strings.
use os_tk.Base.{
  ℕ, zero, suc, ◌+◌, ◌<◌, ◌≡◌, ◌↔◌, refl, ◌==◌, if◌then◌else◌, some, List, [], ◌∷◌, length, take,
  arith, ap,
}
use os_tk.Libc.Bytes.{Bytes, IsString, sub_u32}
use os_tk.Libc.Strings.{strcmp, strncmp}

-- The lexicographic comparison: the difference of the first two bytes that differ, a list that has
-- ended counting as a zero.
abbrev pub difference : List ℕ → List ℕ → ℕ
difference [] [] = 0
difference [] (y ∷ ys) = sub_u32 0 y
difference (x ∷ xs) [] = sub_u32 x 0
difference (x ∷ xs) (y ∷ ys) = if x == y then difference xs ys else sub_u32 x y

-- `strcmp` is the lexicographic comparison of the two strings.
pub strcmp-difference :
    (fuel : ℕ) (m : Bytes) (p q : ℕ) (xs ys : List ℕ)
    → IsString m p xs
    → IsString m q ys
    → length xs < fuel
    → strcmp fuel m p q ≡ some (difference xs ys)
unfolding strcmp
strcmp-difference zero m p q xs ys s t h = absurd (omega arith)
strcmp-difference (suc fuel) m p q [] [] s t h = rw (s, t)
strcmp-difference (suc fuel) m p q [] (y ∷ ys) s t h = rw (s, t.0)
strcmp-difference (suc fuel) m p q (x ∷ xs) [] s t h = ground arith
strcmp-difference (suc fuel) m p q (x ∷ xs) (y ∷ ys) s t h =
    ground (arith, strcmp-difference fuel m (p + 1) (q + 1) xs ys s.3 t.3 (omega arith))

-- Two byte lists without zeros compare equal only if they are equal.
pub difference-zero :
    (xs ys : List ℕ) (m : Bytes) (p q : ℕ)
    → IsString m p xs
    → IsString m q ys
    → (difference xs ys ≡ 0) ↔ (xs ≡ ys)
difference-zero [] [] m p q s t = ((λ h. refl), (λ h. refl))
difference-zero [] (y ∷ ys) m p q s t = ground arith
difference-zero (x ∷ xs) [] m p q s t = ground arith
difference-zero (x ∷ xs) (y ∷ ys) m p q s t =
    ground (arith, difference-zero xs ys m (p + 1) (q + 1) s.3 t.3)

-- With a fuel above the length of the first string `strcmp` returns, and it returns zero exactly for
-- equal strings.
pub strcmp-zero_iff :
    (fuel : ℕ) (m : Bytes) (p q : ℕ) (xs ys : List ℕ)
    → IsString m p xs
    → IsString m q ys
    → length xs < fuel
    → (strcmp fuel m p q ≡ some 0) ↔ (xs ≡ ys)
strcmp-zero_iff fuel m p q xs ys s t h =
    let z = difference-zero xs ys m p q s t in
    rw (strcmp-difference fuel m p q xs ys s t h) ((λ e. z.0 (cc)), (λ e. ap some (z.1 e)))

-- `strncmp` is the lexicographic comparison of the first `size` bytes of the two strings.
strncmp-difference :
    (m : Bytes) (p q size : ℕ) (xs ys : List ℕ)
    → IsString m p xs
    → IsString m q ys
    → strncmp m p q size ≡ difference (take size xs) (take size ys)
unfolding strncmp
strncmp-difference m p q zero xs ys s t = refl
strncmp-difference m p q (suc size) [] [] s t = rw (s, t)
strncmp-difference m p q (suc size) [] (y ∷ ys) s t = rw (s, t.0)
strncmp-difference m p q (suc size) (x ∷ xs) [] s t = ground arith
strncmp-difference m p q (suc size) (x ∷ xs) (y ∷ ys) s t =
    ground (arith, strncmp-difference m (p + 1) (q + 1) size xs ys s.3 t.3)
