-- ===== src/Libc/Strings/Span.antt =====
-- `strspn`, `strcspn` and `strpbrk` on strings.
use mathlib.Core.Option
use os_tk.Base.{
  ℕ, zero, suc, ◌+◌, ◌<◌, ◌≡◌, ◌≢◌, refl, Bool, false, not, ◌||◌, ◌==◌, ltb, if◌then◌else◌, Option,
  none, some, List, [], ◌∷◌, length, arith, ap, ◌∙◌, ne→==,
}
use os_tk.Libc.Bytes.{Bytes, null, char_int, IsString}
use os_tk.Libc.Strings.{
  strchr, strspn_missing, strspn_loop, strspn, strcspn_loop, strcspn, strpbrk_loop, strpbrk,
}
use os_tk.Libc.Strings.Find.{index_of, pointer_at, strchr-index_of}

abbrev pub contains : List ℕ → ℕ → Bool
contains [] c = false
contains (x ∷ xs) c = (x == c) || contains xs c

-- How many bytes at the front pass the test.
abbrev pub span_length : (ℕ → Bool) → List ℕ → ℕ
span_length p [] = 0
span_length p (x ∷ xs) = if p x then suc (span_length p xs) else 0

-- `strchr` finds a byte exactly if the string contains it.
strchr-null :
    (fuel : ℕ) (m : Bytes) (p c : ℕ) (xs : List ℕ)
    → p ≢ null
    → c < 256
    → IsString m p xs
    → length xs < fuel
    → (r : ℕ) × (strchr fuel m p (char_int c) ≡ some r) × ((r == null) ≡ not (contains xs c))
strchr-null fuel m p c xs ne hc s h =
    (pointer_at p (index_of c xs), strchr-index_of fuel m p c xs hc s h, found p xs ne)
  where
    later :
        (p : ℕ) (o : Option ℕ)
        → p ≢ null
        → (pointer_at p (Option.map suc o) == null) ≡ (pointer_at p o == null)
    later p none ne = refl
    later p (some i) ne = ground arith

    found :
        (p : ℕ) (xs : List ℕ)
        → p ≢ null
        → (pointer_at p (index_of c xs) == null) ≡ not (contains xs c)
    found p [] ne = refl
    found p (x ∷ xs) ne = ground (arith, later p (index_of c xs) ne, found p xs ne)

module _ (m : Bytes) (q : ℕ) (ys : List ℕ) (t : IsString m q ys) where
  module _ (ne : q ≢ null) where
    strcspn_loop_span :
        (fuel p size : ℕ) (xs : List ℕ)
        → IsString m p xs
        → length xs + length ys < fuel
        → strcspn_loop fuel m p q size ≡ some (size + span_length (λ c. not (contains ys c)) xs)
    unfolding strcspn_loop
    strcspn_loop_span zero p size xs s h = absurd (omega arith)
    strcspn_loop_span (suc fuel) p size [] s h = rw s (ap some (omega arith))
    strcspn_loop_span (suc fuel) p size (x ∷ xs) s h =
        let (r, e, k) = strchr-null (suc fuel) m q x ys ne s.2 t (omega arith) in
        ground (
          arith,
          ap char_int s.0,
          strcspn_loop_span fuel (p + 1) (size + 1) xs s.3 (omega arith),
          s.0,
        )

    -- `strcspn` is the number of bytes of the first string before the first that the second
    -- contains.
    pub strcspn-span_length :
        (fuel p : ℕ) (xs : List ℕ)
        → p ≢ null
        → IsString m p xs
        → length xs + length ys < fuel
        → strcspn fuel m p q ≡ some (span_length (λ c. not (contains ys c)) xs)
    unfolding strcspn
    strcspn-span_length fuel p xs np s h =
        rw (ne→== p null np, ne→== q null ne)
          (strcspn_loop_span fuel p 0 xs s h ∙ ap some (omega arith))

    strpbrk_loop_span :
        (fuel p : ℕ) (xs : List ℕ)
        → IsString m p xs
        → length xs + length ys < fuel
        → let n = span_length (λ c. not (contains ys c)) xs in
          strpbrk_loop fuel m p q ≡ some (if ltb n (length xs) then p + n else null)
    unfolding strpbrk_loop
    strpbrk_loop_span zero p xs s h = absurd (omega arith)
    strpbrk_loop_span (suc fuel) p [] s h = rw s
    strpbrk_loop_span (suc fuel) p (x ∷ xs) s h =
        let (r, e, k) = strchr-null (suc fuel) m q x ys ne s.2 t (omega arith) in
        let rest = strpbrk_loop_span fuel (p + 1) xs s.3 (omega arith) in
        ground (arith, ap char_int s.0, rest, s.0)

    -- `strpbrk` points to the first byte of the first string that the second contains, and is NULL
    -- if there is none: it is `strcspn` bytes from the start.
    pub strpbrk-span_length :
        (fuel p : ℕ) (xs : List ℕ)
        → p ≢ null
        → IsString m p xs
        → length xs + length ys < fuel
        → let n = span_length (λ c. not (contains ys c)) xs in
          strpbrk fuel m p q ≡ some (if ltb n (length xs) then p + n else null)
    unfolding strpbrk
    strpbrk-span_length fuel p xs np s h =
        rw (ne→== p null np, ne→== q null ne) (strpbrk_loop_span fuel p xs s h)

  strspn_missing-contains :
      (fuel : ℕ) (q c : ℕ) (ys : List ℕ)
      → 0 < c
      → IsString m q ys
      → length ys < fuel
      → strspn_missing fuel m q c ≡ some (not (contains ys c))
  unfolding strspn_missing
  strspn_missing-contains zero q c ys hc t h = absurd (omega arith)
  strspn_missing-contains (suc fuel) q c [] hc t h = rw t
  strspn_missing-contains (suc fuel) q c (y ∷ ys) hc t h =
      ground (arith, strspn_missing-contains fuel (q + 1) c ys hc t.3 (omega arith))

  strspn_loop_span :
      (fuel p size : ℕ) (xs : List ℕ)
      → IsString m p xs
      → length xs + length ys < fuel
      → strspn_loop fuel m p q size ≡ some (size + span_length (contains ys) xs)
  unfolding strspn_loop
  strspn_loop_span zero p size xs s h = absurd (omega arith)
  strspn_loop_span (suc fuel) p size [] s h = rw s (ap some (omega arith))
  strspn_loop_span (suc fuel) p size (x ∷ xs) s h =
      let known = strspn_missing-contains (suc fuel) q x ys s.1 t (omega arith) in
      ground (arith, known, strspn_loop_span fuel (p + 1) (size + 1) xs s.3 (omega arith), s.0)

  -- `strspn` is the number of bytes at the front of the first string that the second contains.
  pub strspn-span_length :
      (fuel p : ℕ) (xs : List ℕ)
      → IsString m p xs
      → length xs + length ys < fuel
      → strspn fuel m p q ≡ some (span_length (contains ys) xs)
  unfolding strspn
  strspn-span_length fuel p xs s h = strspn_loop_span fuel p 0 xs s h ∙ ap some (omega arith)
