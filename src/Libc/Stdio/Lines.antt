-- ===== src/Libc/Stdio/Lines.antt =====
-- What `fgets` writes.
use os_tk.Base.{
  ℕ, zero, suc, ◌+◌, ◌<◌, ◌≤◌, ◌≡◌, ◌⊎◌, refl, ap, sym, subst, ◌∙◌, false, ◌==◌, if◌then◌else◌,
  arith, none, some, List, [], ◌∷◌, ◌++◌, length, ne→==, ◌≢◌, ==-refl,
}
use os_tk.Libc.Bytes.{Bytes, store, IsString}
use os_tk.Libc.Stdio.{stdin, World, getc, take_char, fgets_loop, fgets}

-- No byte before `string` or behind `string + size` differs.
abbrev pub KeepsOutside : (string size : ℕ) → Bytes → Bytes → Type 0
KeepsOutside string size m m' = (j : ℕ) → (j < string) ⊎ (string + size < j) → m' j ≡ m j

-- An index up to `size` stays one.
take_char-KeepsOutside :
    (string size buffer index : ℕ) (m : Bytes)
    → index ≤ size
    → let (i, m') = take_char string size buffer (index, m) in
      (i ≤ size) × KeepsOutside string size m m'
unfolding take_char
take_char-KeepsOutside string size buffer index m le = (ground arith, λ j out. ground arith)

-- The characters that the next reads of the keyboard return, and the state after them.
abbrev pub Typed : List ℕ → (w v : World) → Type 0
Typed [] w v = w ≡ v
Typed (c ∷ cs) w v = (u : World) × (getc stdin w ≡ some (c, u)) × Typed cs u v

-- No character ends the line.
abbrev pub IsLine : List ℕ → Type 0
IsLine [] = Unit {0}
IsLine (c ∷ cs) = (c ≢ 10) × IsLine cs

take_all : (string size : ℕ) → List ℕ → ℕ × Bytes → ℕ × Bytes
take_all string size [] s = s
take_all string size (c ∷ cs) s = take_all string size cs (take_char string size c s)

fgets_loop-getc :
    (fuel string size c : ℕ) (s : ℕ × Bytes) (w u : World)
    → getc stdin w ≡ some (c, u)
    → let t = take_char string size c s in
      fgets_loop (suc fuel) string size s w
      ≡ (if c == 10 then some (t, u) else fgets_loop fuel string size t u)
unfolding fgets_loop
fgets_loop-getc fuel string size c s w u e =
    ap
      (λ o. elim o [
        | none ↦ none
        | some (buffer, v) ↦
            let t = take_char string size buffer s in
            if buffer == 10 then some (t, v) else fgets_loop fuel string size t v
      ])
      e

fgets_loop-take_all :
    (fuel string size : ℕ) (cs : List ℕ) (s : ℕ × Bytes) (w v : World)
    → Typed (cs ++ 10 ∷ []) w v
    → IsLine cs
    → length cs < fuel
    → fgets_loop fuel string size s w ≡ some (take_all string size (cs ++ 10 ∷ []) s, v)
unfolding take_all
fgets_loop-take_all zero string size cs s w v typed line enough = absurd (omega (arith, enough))
fgets_loop-take_all (suc fuel) string size [] s w v (u, e, done) line enough =
    let one = fgets_loop-getc fuel string size 10 s w u e in
    one ∙ ap (λ x. some (take_char string size 10 s, x)) done
fgets_loop-take_all (suc fuel) string size (c ∷ cs) s w v (u, e, typed) line enough =
    let more : (c == 10) ≡ false = ne→== c 10 line.0 in
    let rest =
      fgets_loop-take_all fuel string size cs (take_char string size c s) u v typed line.1
        (omega arith) in
    let one = fgets_loop-getc fuel string size c s w u e in one ∙ rw more rest

take_all-KeepsOutside :
    (string size : ℕ) (cs : List ℕ) (index : ℕ) (m : Bytes)
    → index ≤ size
    → let (i, m') = take_all string size cs (index, m) in (i ≤ size) × KeepsOutside string size m m'
unfolding take_all
take_all-KeepsOutside string size [] index m le = (le, λ j out. refl)
take_all-KeepsOutside string size (c ∷ cs) index m le =
    let one = take_char-KeepsOutside string size c index m le in
    let t = take_char string size c (index, m) in
    let rest = take_all-KeepsOutside string size cs t.0 t.1 one.0 in
    (rest.0, λ j out. rest.1 j out ∙ one.1 j out)

-- The memory after `fgets`, where its loop ends in the index and the memory.
abbrev ended : (string size : ℕ) → ℕ × Bytes → Bytes
ended string size (index, m) = if index == size then m else store m (string + index) 0

fgets-ended :
    (fuel string size : ℕ) (cs : List ℕ) (m : Bytes) (w v : World)
    → Typed (cs ++ 10 ∷ []) w v
    → IsLine cs
    → length cs < fuel
    → fgets fuel string size stdin m w
      ≡ some (ended string size (take_all string size (cs ++ 10 ∷ []) (0, m)), v)
unfolding fgets
fgets-ended fuel string size cs m w v typed line enough =
    ap (λ o. elim o [ none ↦ none | some (r, u) ↦ some (ended string size r, u) ])
      (fgets_loop-take_all fuel string size cs (0, m) w v typed line enough)

-- When a line is typed, `fgets` returns and writes no byte before its buffer and none behind the
-- byte at `string + size`, whatever the line. A fuel above the number of the characters before the
-- end of the line is enough.
pub fgets-KeepsOutside :
    (fuel string size : ℕ) (cs : List ℕ) (m : Bytes) (w v : World)
    → Typed (cs ++ 10 ∷ []) w v
    → IsLine cs
    → length cs < fuel
    → (m' : Bytes) × (fgets fuel string size stdin m w ≡ some (m', v))
      × KeepsOutside string size m m'
fgets-KeepsOutside fuel string size cs m w v typed line enough =
    let r = take_all string size (cs ++ 10 ∷ []) (0, m) in
    let k = take_all-KeepsOutside string size (cs ++ 10 ∷ []) 0 m (omega arith) in
    (
      ended string size r,
      fgets-ended fuel string size cs m w v typed line enough,
      λ j out. ground (arith, k.0, k.1 j out),
    )

-- A character that a line holds as it is typed.
abbrev pub IsPlain : ℕ → Type 0
IsPlain c = (0 < c) × (c < 256) × (c ≢ 8)

abbrev pub AllPlain : List ℕ → Type 0
AllPlain [] = Unit {0}
AllPlain (c ∷ cs) = IsPlain c × AllPlain cs

take_char-plain :
    (string size c index : ℕ) (m : Bytes)
    → c ≢ 8
    → index < size
    → take_char string size c (index, m) ≡ (index + 1, store m (string + index) c)
unfolding take_char
take_char-plain string size c index m kept_char lt =
    let kept : (c == 8) ≡ false = ne→== c 8 kept_char in
    let room : (index == size) ≡ false = ne→== index size (λ e. omega arith) in rw (kept, room) refl

-- The characters are a string at `string + index` once they are taken and ended, and no byte before
-- them is changed.
abbrev Taken : (string size : ℕ) → List ℕ → (index : ℕ) → Bytes → ℕ × Bytes → Type 0
Taken string size cs index m (k, m') =
    (k ≡ index + length cs)
    × ((j : ℕ) → j < string + index → m' j ≡ m j)
    × IsString (store m' (string + k) 0) (string + index) cs

Taken-cons :
    (string size c : ℕ) (cs : List ℕ) (index : ℕ) (m : Bytes)
    → IsPlain c
    → (r : ℕ × Bytes) → Taken string size cs (index + 1) (store m (string + index) c) r
    → Taken string size (c ∷ cs) index m r
Taken-cons string size c cs index m plain (k, m') t =
    let place : string + (index + 1) ≡ string + index + 1 = omega arith in
    let later : (string + k == string + index) ≡ false = ne→== _ _ (λ e. omega (arith, t.0)) in
    let here : m' (string + index) ≡ c =
      t.1 (string + index) (omega arith) ∙ rw (==-refl (string + index)) refl in
    (
      omega (arith, t.0),
      λ j below. ground (arith, t.1 j (omega arith)),
      rw later
          (here, plain.0, plain.1, subst (λ p. IsString (store m' (string + k) 0) p cs) place t.2),
    )

take_all-IsString :
    (string size : ℕ) (cs : List ℕ) (index : ℕ) (m : Bytes)
    → AllPlain cs
    → index + length cs < size
    → Taken string size cs index m (take_all string size cs (index, m))
unfolding take_all
take_all-IsString string size [] index m plain lt =
    (omega arith, (λ j below. refl), rw (==-refl (string + index)) refl)
take_all-IsString string size (c ∷ cs) index m plain lt =
    let one = take_char-plain string size c index m plain.0.2 (omega arith) in
    let m1 = store m (string + index) c in
    let rest = take_all-IsString string size cs (index + 1) m1 plain.1 (omega arith) in
    subst (Taken string size (c ∷ cs) index m) (sym (ap (take_all string size cs) one))
      (Taken-cons string size c cs index m plain.0 (take_all string size cs (index + 1, m1)) rest)

-- A line that is typed without a backspace, and that fits the buffer with its end and a zero, is the
-- string in the buffer when `fgets` returns. A fuel above the number of the characters before the end
-- of the line is enough.
pub fgets-IsString :
    (fuel string size : ℕ) (cs : List ℕ) (m : Bytes) (w v : World)
    → Typed (cs ++ 10 ∷ []) w v
    → IsLine cs
    → AllPlain (cs ++ 10 ∷ [])
    → length (cs ++ 10 ∷ []) < size
    → length cs < fuel
    → (m' : Bytes) × (fgets fuel string size stdin m w ≡ some (m', v))
      × IsString m' string (cs ++ 10 ∷ [])
fgets-IsString fuel string size cs m w v typed line plain room enough =
    let r = take_all string size (cs ++ 10 ∷ []) (0, m) in
    let t = take_all-IsString string size (cs ++ 10 ∷ []) 0 m plain (omega arith) in
    let more : (r.0 == size) ≡ false = ne→== r.0 size (λ e. omega (arith, t.0)) in
    let start : string + 0 ≡ string = omega arith in
    (
      ended string size r,
      fgets-ended fuel string size cs m w v typed line enough,
      rw more (subst (λ p. IsString (store r.1 (string + r.0) 0) p (cs ++ 10 ∷ [])) start t.2),
    )
