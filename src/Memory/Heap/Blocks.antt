-- ===== src/Memory/Heap/Blocks.antt =====
-- The blocks handed out, on the list of segments.
use os_tk.Base.{
  ℕ, ◌+◌, ◌-◌, ◌≤◌, ◌≡◌, ◌⊎◌, refl, true, false, leb, arith, List, [], ◌∷◌, Option, some, none,
  Bool-cases, inl, inr, ltb→le, subst,
}
use os_tk.Memory.Heap.{header_size}
use os_tk.Memory.Heap.Chain.{Segment}
use os_tk.Memory.Heap.Take.{taken}
use os_tk.Memory.Heap.Allocate.{fits, allocate}

-- The `n` bytes at `p` are the start of a segment that is not free.
abbrev pub HasBlock : (a : ℕ) → List Segment → (p n : ℕ) → Type 0
HasBlock a [] p n = ⊥
HasBlock a (x ∷ xs) p n =
    ((p ≡ a + header_size) × (x.free ≡ false) × (n ≤ x.size))
    ⊎ HasBlock (a + header_size + x.size) xs p n

pub HasBlock-le : (a : ℕ) (xs : List Segment) (p n : ℕ) → HasBlock a xs p n → a ≤ p
HasBlock-le a [] p n b = absurd b
HasBlock-le a (x ∷ xs) p n (inl h) = omega arith
HasBlock-le a (x ∷ xs) p n (inr b) =
    let le = HasBlock-le (a + header_size + x.size) xs p n b in omega arith

-- What an allocation does to the blocks.
pub record IsFresh (a size : ℕ) (xs ys : List Segment) (q : ℕ) : Type 0 where
  pub given : HasBlock a ys q size
  pub kept : (p n : ℕ) → HasBlock a xs p n → HasBlock a ys p n
  pub apart : (p n : ℕ) → HasBlock a xs p n → (p + n ≤ q) ⊎ (q + size ≤ p)

taken-IsFresh :
    (size a : ℕ) (x : Segment) (xs : List Segment)
    → fits size x ≡ true
    → IsFresh a size (x ∷ xs) (taken size x xs) (a + header_size)
taken-IsFresh size a x xs hit =
    let enough : size ≤ x.size = ground arith in
    elim (Bool-cases (leb (size + header_size + 0x10) x.size)) [
      | inl room ↦
          let place : a + header_size + size + header_size + (x.size - size - header_size)
              ≡ a + header_size + x.size =
            omega (arith, ltb→le (x.size) (size + header_size + 0x10) (ground arith)) in
          rw room (record {
            given = inl (refl, refl, omega arith);
            kept = λ p n b. inr (inr (rw place (in_rest p n b)));
            apart = λ p n b. behind p n enough b;
          })
      | inr tight ↦ rw tight (record {
        given = inl (refl, refl, enough);
        kept = λ p n b. inr (in_rest p n b);
        apart = λ p n b. behind p n enough b;
      })
    ]
  where
    in_rest : (p n : ℕ) → HasBlock a (x ∷ xs) p n → HasBlock (a + header_size + x.size) xs p n
    in_rest p n (inl h) = absurd (ground (arith, h))
    in_rest p n (inr b) = b

    behind :
        (p n : ℕ)
        → size ≤ x.size
        → HasBlock a (x ∷ xs) p n
        → (p + n ≤ a + header_size) ⊎ (a + header_size + size ≤ p)
    behind p n enough b =
        let le = HasBlock-le (a + header_size + x.size) xs p n (in_rest p n b) in inr (omega arith)

cons-IsFresh :
    (size a : ℕ) (x : Segment) (xs : List Segment) (q : ℕ) (ys : List Segment)
    → IsFresh (a + header_size + x.size) size xs ys q
    → IsFresh a size (x ∷ xs) (x ∷ ys) q
cons-IsFresh size a x xs q ys f = record {
  given = inr f.given;
  kept = λ p n b. elim b [ inl h ↦ inl h | inr c ↦ inr (f.kept p n c) ];
  apart = λ p n b. elim b [
    | inl h ↦
        let le = HasBlock-le (a + header_size + x.size) ys q size f.given in
        inl (omega (arith, le, h))
    | inr c ↦ f.apart p n c
  ];
}

abbrev AllFresh : (a size : ℕ) → List Segment → Option (ℕ × List Segment) → Type 0
AllFresh a size xs none = Unit {0}
AllFresh a size xs (some (q, ys)) = IsFresh a size xs ys q

cons-AllFresh :
    (size a : ℕ) (x : Segment) (xs : List Segment) (o : Option (ℕ × List Segment))
    → AllFresh (a + header_size + x.size) size xs o
    → AllFresh a size (x ∷ xs) (elim o [ none ↦ none | some (p, ys) ↦ some (p, x ∷ ys) ])
cons-AllFresh size a x xs none f = tt
cons-AllFresh size a x xs (some (q, ys)) f = cons-IsFresh size a x xs q ys f

allocate-AllFresh : (size a : ℕ) (xs : List Segment) → AllFresh a size xs (allocate size a xs)
allocate-AllFresh size a [] = tt
allocate-AllFresh size a (x ∷ xs) = elim (Bool-cases (fits size x)) [
  | inl hit ↦ rw hit (taken-IsFresh size a x xs hit)
  | inr misses ↦ rw misses (
      cons-AllFresh size a x xs (allocate size (a + header_size + x.size) xs)
        (allocate-AllFresh size (a + header_size + x.size) xs))
]

-- Where a segment fits, the block handed out is in use afterwards, every block in use stays so, and
-- the two do not overlap.
pub allocate-IsFresh :
    (size a : ℕ) (xs : List Segment) (q : ℕ) (ys : List Segment)
    → allocate size a xs ≡ some (q, ys)
    → IsFresh a size xs ys q
allocate-IsFresh size a xs q ys e = subst (AllFresh a size xs) e (allocate-AllFresh size a xs)
