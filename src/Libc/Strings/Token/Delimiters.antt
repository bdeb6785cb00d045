-- ===== src/Libc/Strings/Token/Delimiters.antt =====
-- The inner loop of `strtok`, over the delimiters.
use os_tk.Base.{
  ℕ, zero, suc, ◌+◌, ◌<◌, ◌≤◌, ◌≡◌, ◌≢◌, ◌⊎◌, inl, inr, refl, ◌∙◌, sym, Bool, true, false, ◌==◌,
  arith, List, [], ◌∷◌, length, Option, some, ne→==, ==-refl,
}
use os_tk.Libc.Bytes.{Bytes, store, IsString}
use os_tk.Libc.Strings.Token.{strtok_delimiters}

-- The byte is none of the delimiters.
abbrev pub NotAmong : ℕ → List ℕ → Type 0
NotAmong x [] = Unit {0}
NotAmong x (d ∷ ds) = (x ≢ d) × NotAmong x ds

-- The memory is the same but for the bytes from `lo` to below `hi`.
abbrev pub SameOutside : (lo hi : ℕ) → Bytes → Bytes → Type 0
SameOutside lo hi m m' = (j : ℕ) → (j < lo) ⊎ (hi ≤ j) → m' j ≡ m j

pub IsString-same :
    (lo hi p : ℕ) (m m' : Bytes) (xs : List ℕ)
    → SameOutside lo hi m m'
    → (p + length xs < lo) ⊎ (hi ≤ p)
    → IsString m p xs
    → IsString m' p xs
IsString-same lo hi p m m' [] same out s = same p (ground (arith, out)) ∙ s
IsString-same lo hi p m m' (x ∷ xs) same out s = (
  same p (ground (arith, out)) ∙ s.0,
  s.1,
  s.2,
  IsString-same lo hi (p + 1) m m' xs same (ground (arith, out)) s.3,
)

stored-SameOutside : (m : Bytes) (to x : ℕ) → SameOutside to (to + 1) m (store m to x)
stored-SameOutside m to x j out = rw (ne→== to j (λ e. ground (arith, out, e))) refl

SameOutside-trans :
    (lo mid hi : ℕ) (m m1 m2 : Bytes)
    → lo ≤ mid
    → mid ≤ hi
    → SameOutside lo mid m m1
    → SameOutside lo hi m1 m2
    → SameOutside lo hi m m2
SameOutside-trans lo mid hi m m1 m2 le le' first second j out =
    second j out ∙ first j (ground (arith, out))

-- One delimiter that is another character.
delimiters-next :
    (fuel : ℕ) (m : Bytes) (from delm to d x : ℕ)
    → m delm ≡ d
    → 0 < d
    → m from ≡ x
    → x ≢ d
    → strtok_delimiters (suc fuel) m from delm to
      ≡ strtok_delimiters fuel (store m to x) from (delm + 1) to
unfolding strtok_delimiters
delimiters-next fuel m from delm to d x e pos f differs =
    let more : (d == 0) ≡ false = ne→== d 0 (λ z. omega arith) in
    let passed : (x == d) ≡ false = ne→== x d differs in rw (e, f, more, passed) refl

module _ (from to x : ℕ) (apart : from ≢ to) where
  -- The outcome where no delimiter is the character: it is copied, and no other byte changes.
  abbrev pub Copied : Bytes → Option (Bool × Bytes) → Type 0
  Copied m r = (m' : Bytes) × (r ≡ some (false, m')) × (m' to ≡ x) × SameOutside to (to + 1) m m'

  -- A delimiter that is another character makes the copy, and the others keep it.
  step-Copied :
      (fuel : ℕ) (m : Bytes) (delm d : ℕ) (ds : List ℕ)
      → m from ≡ x
      → IsString m delm (d ∷ ds)
      → x ≢ d
      → (delm + suc (length ds) < to) ⊎ (to < delm)
      → ((m1 : Bytes)
          → m1 from ≡ x
          → m1 to ≡ x
          → IsString m1 (delm + 1) ds
          → Copied m1 (strtok_delimiters fuel m1 from (delm + 1) to))
      → Copied m (strtok_delimiters (suc fuel) m from delm to)
  step-Copied fuel m delm d ds f s differs out others =
      let m1 = store m to x in
      let here : m1 to ≡ x = rw (==-refl to) refl in
      let source : m1 from ≡ x = rw (ne→== to from (λ e. apart (sym e))) f in
      let rest : IsString m1 (delm + 1) ds =
        IsString-same to (to + 1) (delm + 1) m m1 ds (stored-SameOutside m to x)
          (ground (arith, out)) s.3 in
      let (m', done, copied, same) = others m1 source here rest in
      (
        m',
        delimiters-next fuel m from delm to d x s.0 s.1 f differs ∙ done,
        copied,
        λ j o. same j o ∙ stored-SameOutside m to x j o,
      )

  delimiters-Copied :
      (fuel : ℕ) (m : Bytes) (delm : ℕ) (ds : List ℕ)
      → m from ≡ x
      → m to ≡ x
      → IsString m delm ds
      → NotAmong x ds
      → length ds < fuel
      → (delm + length ds < to) ⊎ (to < delm)
      → Copied m (strtok_delimiters fuel m from delm to)
  unfolding strtok_delimiters
  delimiters-Copied zero m delm ds f c s free h out = absurd (omega (arith, h))
  delimiters-Copied (suc fuel) m delm [] f c s free h out = (m, rw s refl, c, λ j o. refl)
  delimiters-Copied (suc fuel) m delm (d ∷ ds) f c s free h out =
      step-Copied fuel m delm d ds f s free.0 out (λ m1 f1 c1 s1.
        delimiters-Copied fuel m1 (delm + 1) ds f1 c1 s1 free.1 (omega (arith, h))
          (ground (arith, out)))

  pub first-Copied :
      (fuel : ℕ) (m : Bytes) (delm d : ℕ) (ds : List ℕ)
      → m from ≡ x
      → IsString m delm (d ∷ ds)
      → NotAmong x (d ∷ ds)
      → length ds < fuel
      → (delm + suc (length ds) < to) ⊎ (to < delm)
      → Copied m (strtok_delimiters (suc fuel) m from delm to)
  first-Copied fuel m delm d ds f s free h out =
      step-Copied fuel m delm d ds f s free.0 out (λ m1 f1 c1 s1.
        delimiters-Copied fuel m1 (delm + 1) ds f1 c1 s1 free.1 h (ground (arith, out)))

-- The byte is one of the delimiters.
abbrev pub Among : ℕ → List ℕ → Type 0
Among x [] = ⊥
Among x (d ∷ ds) = (x ≡ d) ⊎ ((x ≢ d) × Among x ds)

pub Among-pos : (m : Bytes) (p x : ℕ) (ds : List ℕ) → IsString m p ds → Among x ds → 0 < x
Among-pos m p x [] s a = absurd a
Among-pos m p x (d ∷ ds) s (inl e) = omega (arith, s.1, e)
Among-pos m p x (d ∷ ds) s (inr a) = Among-pos m (p + 1) x ds s.3 a.1

-- A delimiter is met: only the byte at `to` may change.
pub delimiters-found :
    (from to x : ℕ)
    → from ≢ to
    → (fuel : ℕ) (m : Bytes) (delm : ℕ) (ds : List ℕ) → m from ≡ x
    → IsString m delm ds
    → Among x ds
    → length ds < fuel
    → (delm + length ds < to) ⊎ (to < delm)
    → (m' : Bytes) × (strtok_delimiters fuel m from delm to ≡ some (true, m'))
      × SameOutside to (to + 1) m m'
unfolding strtok_delimiters
delimiters-found from to x apart zero m delm ds f s a h out = absurd (omega (arith, h))
delimiters-found from to x apart (suc fuel) m delm [] f s a h out = absurd a
delimiters-found from to x apart (suc fuel) m delm (d ∷ ds) f s (inl e) h out =
    let more : (d == 0) ≡ false = ne→== d 0 (λ z. omega (arith, s.1, z)) in
    (m, rw (s.0, more, f, e, ==-refl d) refl, λ j o. refl)
delimiters-found from to x apart (suc fuel) m delm (d ∷ ds) f s (inr a) h out =
    let m1 = store m to x in
    let source : m1 from ≡ x = rw (ne→== to from (λ e. apart (sym e))) f in
    let rest : IsString m1 (delm + 1) ds =
      IsString-same to (to + 1) (delm + 1) m m1 ds (stored-SameOutside m to x) (ground (arith, out))
        s.3 in
    let (m', done, same) =
      delimiters-found from to x apart fuel m1 (delm + 1) ds source rest a.1 (omega (arith, h))
        (ground (arith, out)) in
    (
      m',
      delimiters-next fuel m from delm to d x s.0 s.1 f a.0 ∙ done,
      λ j o. same j o ∙ stored-SameOutside m to x j o,
    )
