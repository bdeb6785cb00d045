-- ===== src/Libc/Strings/Concat.antt =====
-- What `strcat` writes. Each byte is added to the one that lies there, and not stored.
use os_tk.Base.{
  ℕ, zero, suc, ◌+◌, ◌-◌, ◌<◌, ◌≤◌, ◌≡◌, ◌⊎◌, refl, false, ◌&&◌, ◌==◌, ltb, leb, if◌then◌else◌,
  some, List, [], ◌∷◌, length, get_or, arith, ap, ◌∙◌, u8,
}
use os_tk.Libc.Bytes.{Bytes, store, IsString}
use os_tk.Libc.Strings.{strcat_loop, strcat}
use os_tk.Libc.Strings.Find.{strlen-length}

-- A store outside a string leaves the string.
pub IsString-store :
    (m : Bytes) (a v q : ℕ) (ys : List ℕ)
    → (a < q) ⊎ (q + length ys < a)
    → IsString m q ys
    → IsString (store m a v) q ys
IsString-store m a v q [] out s = ground arith
IsString-store m a v q (y ∷ ys) out s =
    let rest = IsString-store m a v (q + 1) ys (omega arith) s.3 in (ground arith, s.1, s.2, rest)

-- The memory after the loop: the bytes `ys` added from `a` on.
added : Bytes → ℕ → List ℕ → Bytes
added m a [] = m
added m a (y ∷ ys) = added (store m a (u8 (m a + y))) (a + 1) ys

get_or-cons :
    (y : ℕ) (ys : List ℕ) (i : ℕ)
    → get_or (y ∷ ys) i 0 ≡ (if i == 0 then y else get_or ys (i - 1) 0)
get_or-cons y ys zero = refl
get_or-cons y ys (suc i) = ground (arith, ap (λ k. get_or ys k 0) (less_one i))
  where
    less_one : (i : ℕ) → suc i - 1 ≡ i
    less_one i = omega arith

added_lem :
    (m : Bytes) (a : ℕ) (ys : List ℕ) (j : ℕ)
    → added m a ys j
      ≡ (if leb a j && ltb j (a + length ys) then u8 (m j + get_or ys (j - a) 0) else m j)
unfolding added
added_lem m a [] j = ground arith
added_lem m a (y ∷ ys) j = added_lem (store m a (u8 (m a + y))) (a + 1) ys j ∙ later
  where
    later :
        (if leb (a + 1) j && ltb j (a + 1 + length ys)
          then u8 (store m a (u8 (m a + y)) j + get_or ys (j - (a + 1)) 0)
          else store m a (u8 (m a + y)) j)
        ≡ (if leb a j && ltb j (a + suc (length ys))
            then u8 (m j + get_or (y ∷ ys) (j - a) 0)
            else m j)
    later =
        let same : j - a - 1 ≡ j - (a + 1) = omega arith in
        rw (get_or-cons y ys (j - a), same) (ground arith)

strcat_loop-added :
    (fuel : ℕ) (m : Bytes) (a q : ℕ) (ys : List ℕ)
    → IsString m q ys
    → length ys < fuel
    → (a + length ys ≤ q) ⊎ (q + length ys < a)
    → strcat_loop fuel m a q ≡ some (a + length ys, added m a ys)
unfolding strcat_loop added
strcat_loop-added zero m a q ys s h out = absurd (omega arith)
strcat_loop-added (suc fuel) m a q [] s h out =
    let e : a ≡ a + 0 = omega arith in rw s (ap (λ k. some (k, m)) e)
strcat_loop-added (suc fuel) m a q (y ∷ ys) s h out =
    let next = store m a (u8 (m a + y)) in
    let kept = IsString-store m a (u8 (m a + y)) (q + 1) ys (omega arith) s.3 in
    let rest = strcat_loop-added fuel next (a + 1) (q + 1) ys kept (omega arith) (omega arith) in
    let place : a + 1 + length ys ≡ a + suc (length ys) = omega arith in
    let nonzero : (y == 0) ≡ false = ground arith in rw (s.0, nonzero, rest, place)

-- `strcat` of two strings that do not overlap: each byte of the second is added, modulo 256, to
-- the byte that lay behind the first, a zero follows, and nothing else changes.
pub strcat-adds :
    (fuel : ℕ) (m : Bytes) (p q : ℕ) (xs ys : List ℕ)
    → IsString m p xs
    → IsString m q ys
    → length xs + length ys < fuel
    → (p + length xs + length ys ≤ q) ⊎ (q + length ys < p + length xs)
    → let a = p + length xs in
      (m' : Bytes) × (strcat fuel m p q ≡ some m')
      × ((j : ℕ)
          → m' j ≡ (
              if j == a + length ys
              then 0
              else if leb a j && ltb j (a + length ys)
              then u8 (m j + get_or ys (j - a) 0)
              else m j))
unfolding strcat
strcat-adds fuel m p q xs ys s t h out =
    let a = p + length xs in
    (
      store (added m a ys) (a + length ys) 0,
      rw (
        strlen-length fuel m p xs s (omega arith),
        strcat_loop-added fuel m a q ys t (omega arith) out,
      ),
      λ j. ground (arith, added_lem m a ys j),
    )
