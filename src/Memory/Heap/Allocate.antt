-- ===== src/Memory/Heap/Allocate.antt =====
-- `HeapAllocate` against its contract on the list of segments: the first that fits is taken.
use os_tk.Base.{
  ℕ, zero, suc, ◌+◌, ◌^◌, ◌<◌, ◌≤◌, ◌≡◌, refl, Bool, true, false, ◌&&◌, ◌==◌, leb, if◌then◌else◌,
  arith, List, [], ◌∷◌, length, Option, some, none, Bool-cases, inl, inr,
}
use os_tk.Memory.Heap.{Heap, header_size, take_segment, find_segment}
use os_tk.Memory.Heap.Chain.{Segment, IsChain}
use os_tk.Memory.Heap.Take.{taken, IsAfter, take_segment-taken}

abbrev pub fits : ℕ → Segment → Bool
fits size x = x.free && leb size x.size

-- The contract: the address handed out and the segments afterwards, or `none` if no segment fits.
-- The first segment starts at `a`.
abbrev pub allocate : (size a : ℕ) → List Segment → Option (ℕ × List Segment)
allocate size a [] = none
allocate size a (x ∷ xs) =
    if fits size x
    then some (a + header_size, taken size x xs)
    else elim (allocate size (a + header_size + x.size) xs) [
      | none ↦ none
      | some (p, ys) ↦ some (p, x ∷ ys)
    ]

-- The search has the contract's outcome.
abbrev pub Answers :
    (prev a end : ℕ) (s : Heap) → Option (ℕ × List Segment) → Option (Option (ℕ × Heap)) → Type 0
Answers prev a end s none r = r ≡ some none
Answers prev a end s (some (p, ys)) r =
    (t : Heap) × (r ≡ some (some (p, t))) × IsAfter prev a end s t ys

passed_over :
    (size a prev end : ℕ) (s : Heap) (x : Segment) (xs : List Segment)
    → IsChain s.headers prev a a end (x ∷ xs)
    → fits size x ≡ false
    → take_segment size a s ≡ none
unfolding take_segment
passed_over size a prev end s x xs c misses = ground (arith, c.1, c.2)

module _ (end size : ℕ) (s : Heap) (small : 0x10 ≤ size) (bounded : end < 2 ^ 63) where
  -- The first segment is passed over and stands before what the search of the others answers.
  Answers-cons :
      (prev a : ℕ) (x : Segment) (xs : List Segment) (fuel : ℕ) (o : Option (ℕ × List Segment))
      → 0 < a
      → IsChain s.headers prev a a end (x ∷ xs)
      → (s.headers a).next ≡ a + header_size + x.size
      → Answers a
          (a + header_size + x.size)
          end
          s
          o
          (find_segment fuel size (a + header_size + x.size) s)
      → Answers prev a end s
          (elim o [ none ↦ none | some (p, ys) ↦ some (p, x ∷ ys) ])
          (find_segment fuel size (a + header_size + x.size) s)
  Answers-cons prev a x xs fuel none pos c linked h = h
  Answers-cons prev a x xs fuel (some (p, ys)) pos c linked (t, e, k) = (
    t,
    e,
    record {
      chain = rw (k.frame a pos (omega arith)) (refl, c.1, c.2, c.3, rw linked k.chain);
      frame = λ b q l. k.frame b q (omega arith);
      same_start = k.same_start;
      same_end = k.same_end;
    },
  )

  hit-Answers :
      (fuel prev a : ℕ) (x : Segment) (xs : List Segment)
      → 0 < a
      → IsChain s.headers prev a a end (x ∷ xs)
      → fits size x ≡ true
      → Answers prev a end s (allocate size a (x ∷ xs)) (find_segment (suc fuel) size a s)
  unfolding find_segment
  hit-Answers fuel prev a x xs pos c hit =
      let took =
        take_segment-taken prev a end size s x xs c (ground arith) pos small bounded
          (ground arith) in
      rw (find_segment, hit, took.1) (took.0, refl, took.2)

  pub find_segment-Answers :
      (fuel prev a : ℕ) (x : Segment) (xs : List Segment)
      → 0 < a
      → IsChain s.headers prev a a end (x ∷ xs)
      → length xs < fuel
      → Answers prev a end s (allocate size a (x ∷ xs)) (find_segment fuel size a s)
  unfolding find_segment
  find_segment-Answers zero prev a x xs pos c h = absurd (omega arith)
  find_segment-Answers (suc fuel) prev a x [] pos c h = elim (Bool-cases (fits size x)) [
    | inl hit ↦ hit-Answers fuel prev a x [] pos c hit
    | inr misses ↦
        rw (find_segment, misses, passed_over size a prev end s x [] c misses, c.4.0) refl
  ]
  find_segment-Answers (suc fuel) prev a x (y ∷ ys) pos c h = elim (Bool-cases (fits size x)) [
    | inl hit ↦ hit-Answers fuel prev a x (y ∷ ys) pos c hit
    | inr misses ↦
        let next = a + header_size + x.size in
        let there : ((s.headers a).next == 0) ≡ false = ground (arith, c.4.0) in
        let rest =
          find_segment-Answers fuel a next y ys (omega arith) (rw (c.4.0) at c.4) (omega arith) in
        rw (find_segment, misses, passed_over size a prev end s x (y ∷ ys) c misses, there, c.4.0)
          (Answers-cons prev a x (y ∷ ys) fuel (allocate size next (y ∷ ys)) pos c c.4.0 rest)
  ]
