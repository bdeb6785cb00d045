-- ===== src/Libc/Ctype/Laws.antt =====
-- The classes of characters against the ranges of ASCII, for every `int`.
use os_tk.Base.{
  ℕ, ◌+◌, ◌-◌, ◌^◌, ◌≤◌, ◌<◌, ◌≡◌, inl, inr, Bool, ◌&&◌, ◌||◌, ◌==◌, if◌then◌else◌, ltb, leb, not,
  refl, Bool-cases, ltb→lt, ltb→le, ==→eq, ◌∙◌, every_below, every_below_at, arith, List, [], ◌∷◌,
}
use os_tk.Libc.Ctype.{
  isalnum, isalpha, isdigit, ispunct, isgraph, islower, isupper, isprint, tolower, toupper, symbols,
  ispunct_loop,
}

-- `isalnum` holds of the letters and digits: it is `isalpha` or `isdigit`, and `isalpha` is
-- `islower` or `isupper`, which exclude each other.
pub isalnum_classes :
    (c : ℕ) → c < 2 ^ 32 → (isalnum c ≡ isalpha c + isdigit c) × (isalpha c ≡ islower c + isupper c)
unfolding isalnum isalpha isdigit islower isupper
isalnum_classes c h = ground arith

abbrev pub is_punctuation : ℕ → Bool
is_punctuation c =
    (leb 0x20 c && leb c 0x2f)
    || (leb 0x3a c && leb c 0x40)
    || (leb 0x5b c && leb c 0x60)
    || (leb 0x7b c && leb c 0x7e)

abbrev AllBelow : ℕ → List ℕ → Type 0
AllBelow n [] = Unit {0}
AllBelow n (x ∷ xs) = (x < n) × AllBelow n xs

ispunct_loop_above : (n c : ℕ) (xs : List ℕ) → AllBelow n xs → n ≤ c → ispunct_loop xs c ≡ 0
unfolding ispunct_loop
ispunct_loop_above n c [] h le = refl
ispunct_loop_above n c (x ∷ xs) h le = ground (arith, ispunct_loop_above n c xs h.1 le)

-- `ispunct` holds of exactly the four ranges of ASCII punctuation, and of the space.
pub ispunct_iff : (c : ℕ) → ispunct c ≡ (if is_punctuation c then 1 else 0)
unfolding ispunct every_below
ispunct_iff c = elim (Bool-cases (ltb c 0x7f)) [
  | inl ascii ↦ ==→eq _ _ (
      every_below_at 0x7f (λ k. ispunct k == (if is_punctuation k then 1 else 0)) c refl
        (ltb→lt _ _ ascii))
  | inr above ↦ ispunct_loop_above 0x7f c symbols (omega arith) (ltb→le _ _ above) ∙ ground arith
]

-- On an `int`, `isprint` and `isgraph` both hold of exactly the codes from the space to the tilde
-- that are not digits.
pub isprint_iff :
    (c : ℕ)
    → c < 2 ^ 32
    → (isprint c ≡ (if leb 0x20 c && leb c 0x7e && not (isdigit c == 1) then 1 else 0))
      × (isgraph c ≡ isprint c)
unfolding isprint isgraph isalpha isdigit
isprint_iff c h = ground (arith, ispunct_iff c)

-- `tolower` is the lower case of a letter, and adds 32 to every other code below 2 ^ 32 - 32.
-- `toupper` leaves the small letters as they are, and takes 32 off every other code from 32 on.
pub tolower-toupper_lem :
    (c : ℕ)
    → c < 2 ^ 32 - 32
    → (tolower c ≡ (if islower c == 1 then c else c + 32))
      × (32 ≤ c → toupper c ≡ (if islower c == 1 then c else c - 32))
unfolding tolower toupper islower
tolower-toupper_lem c h = ground arith
