-- ===== src/Memory/Heap/Free.antt =====
-- `HeapFree` of a block between blocks in use.
use os_tk.Base.{
  ℕ, ◌+◌, ◌<◌, ◌≤◌, ◌≡◌, ◌≢◌, ◌⊎◌, refl, ap, ◌∙◌, subst, Bool, true, false, ◌==◌, arith, List, [],
  ◌∷◌, ◌++◌, sub_u64, ==-refl, Bool-cases, inl, inr,
}
use os_tk.Memory.Heap.{
  Header, Heap, header_size, set_free, combine_forward, combine_backward, heap_free,
}
use os_tk.Memory.Heap.Chain.{Segment, IsChain, IsChain-le, IsChain-frame, IsHeap}

-- The bytes of the segments with their headers.
abbrev pub span : List Segment → ℕ
span [] = 0
span (x ∷ xs) = header_size + x.size + span xs

abbrev pub first_free : List Segment → Bool
first_free [] = false
first_free (x ∷ xs) = x.free

abbrev pub last_free : Bool → List Segment → Bool
last_free free [] = free
last_free free (x ∷ xs) = last_free x.free xs

-- A link from `b` to nothing, or to a segment in use.
abbrev InUse : (ℕ → Header) → (b p : ℕ) → Type 0
InUse hs b p = (p ≡ 0) ⊎ ((p ≢ b) × ((hs p).free ≡ false))

abbrev pub Earlier : (ℕ → Header) → (a p : ℕ) → Type 0
Earlier hs a p = (p ≡ 0) ⊎ ((p < a) × ((hs p).free ≡ false))

-- What stands at the segment behind `before`.
record IsBetween (hs : ℕ → Header) (b end : ℕ) : Type 0 where
  back : InUse hs b (hs b).last
  ahead : InUse hs b (hs b).next
  within : b + header_size ≤ end

first_InUse :
    (hs : ℕ → Header) (prev p a end b : ℕ) (xs : List Segment)
    → b < a
    → first_free xs ≡ false
    → IsChain hs prev p a end xs
    → InUse hs b p
first_InUse hs prev p a end b [] lt f c = inl c.0
first_InUse hs prev p a end b (x ∷ xs) lt f c = rw (c.0) (inr ((λ e. omega arith), c.2 ∙ f))

Earlier-InUse : (hs : ℕ → Header) (a p : ℕ) → Earlier hs a p → InUse hs a p
Earlier-InUse hs a p (inl e) = inl e
Earlier-InUse hs a p (inr h) = inr ((λ e. omega arith), h.1)

chain-IsBetween :
    (hs : ℕ → Header) (prev p a end : ℕ) (before : List Segment) (y : Segment)
    (after : List Segment) (prev_free : Bool)
    → (prev_free ≡ false → Earlier hs a prev)
    → last_free prev_free before ≡ false
    → first_free after ≡ false
    → IsChain hs prev p a end (before ++ y ∷ after)
    → IsBetween hs (a + span before) end
chain-IsBetween hs prev p a end [] y after free ok l f c =
    let none : a + 0 ≡ a = omega arith in
    let le = IsChain-le hs a (hs a).next (a + header_size + y.size) end after c.4 in
    rw none (record {
      back = rw (c.3) (Earlier-InUse hs a prev (ok l));
      ahead =
          first_InUse hs a (hs a).next (a + header_size + y.size) end a after (omega arith) f c.4;
      within = omega arith;
    })
chain-IsBetween hs prev p a end (x ∷ xs) y after free ok l f c =
    let place : a + header_size + x.size + span xs ≡ a + (header_size + x.size + span xs) =
      omega arith in
    subst (λ b. IsBetween hs b end) place
      (chain-IsBetween hs a (hs a).next (a + header_size + x.size) end xs y after x.free
        (λ e. inr (omega arith, c.2 ∙ e)) l f c.4)

free_first :
    (s : Heap) (prev p a end : ℕ) (y : Segment) (after : List Segment)
    → IsChain s.headers prev p a end (y ∷ after)
    → IsChain (set_free a true s).headers prev p a end (record y { free = true } ∷ after)
free_first s prev p a end y after c = rw (==-refl a) (
  c.0,
  c.1,
  refl,
  c.3,
  IsChain-frame s.headers (set_free a true s).headers a (s.headers a).next
      (a + header_size + y.size) end after (λ b h. ground arith) c.4,
)

IsChain-free :
    (s : Heap) (prev p a end : ℕ) (before : List Segment) (y : Segment) (after : List Segment)
    → IsChain s.headers prev p a end (before ++ y ∷ after)
    → IsChain
        (set_free (a + span before) true s).headers
        prev
        p
        a
        end
        (before ++ record y { free = true } ∷ after)
IsChain-free s prev p a end [] y after c =
    let none : a ≡ a + 0 = omega arith in
    subst (λ b. IsChain (set_free b true s).headers prev p a end (record y { free = true } ∷ after))
      none (free_first s prev p a end y after c)
IsChain-free s prev p a end (x ∷ xs) y after c =
    let place : a + header_size + x.size + span xs ≡ a + (header_size + x.size + span xs) =
      omega arith in
    let away : (a + (header_size + x.size + span xs) == a) ≡ false = ground arith in
    let rest = IsChain-free s a (s.headers a).next (a + header_size + x.size) end xs y after c.4 in
    rw away (c.0, c.1, c.2, c.3, (rw place at rest))

combine_forward_idle :
    (b : ℕ) (t : Heap)
    → ((t.headers b).next ≡ 0) ⊎ ((t.headers (t.headers b).next).free ≡ false)
    → combine_forward b t ≡ t
unfolding combine_forward
combine_forward_idle b t (inl e) = rw e refl
combine_forward_idle b t (inr e) = elim (Bool-cases ((t.headers b).next == 0)) [
  | inl null ↦ rw null refl
  | inr there ↦ rw (there, e) refl
]

pub combine_backward_idle :
    (b : ℕ) (t : Heap)
    → ((t.headers b).last ≡ 0) ⊎ ((t.headers (t.headers b).last).free ≡ false)
    → combine_backward b t ≡ t
unfolding combine_backward
combine_backward_idle b t (inl e) = rw e refl
combine_backward_idle b t (inr e) = elim (Bool-cases ((t.headers b).last == 0)) [
  | inl null ↦ rw null refl
  | inr there ↦ rw (there, e) refl
]

-- Marking `b` free changes no link and no other segment.
still-InUse :
    (s : Heap) (b p : ℕ)
    → InUse s.headers b p
    → (p ≡ 0) ⊎ (((set_free b true s).headers p).free ≡ false)
still-InUse s b p (inl e) = inl e
still-InUse s b p (inr h) = inr (ground (arith, h.0, h.1))

-- The calls that join neighbours leave the heap between segments in use.
no_join :
    (s : Heap) (b end : ℕ)
    → IsBetween s.headers b end
    → combine_backward b (combine_forward b (set_free b true s)) ≡ set_free b true s
no_join s b end k =
    let t = set_free b true s in
    let next : (t.headers b).next ≡ (s.headers b).next = rw (==-refl b) refl in
    let last : (t.headers b).last ≡ (s.headers b).last = rw (==-refl b) refl in
    let forward = combine_forward_idle b t (rw next (still-InUse s b (s.headers b).next k.ahead)) in
    let backward =
      combine_backward_idle b t (rw last (still-InUse s b (s.headers b).last k.back)) in
    ap (combine_backward b) forward ∙ backward

-- `HeapFree` marks the segment of the block free in its header, and changes nothing else of the
-- heap; the list of the segments changes in that mark alone. The segments before and behind it are
-- in use or do not exist.
pub heap_free-refines :
    (s : Heap) (before : List Segment) (y : Segment) (after : List Segment)
    → IsHeap s (before ++ y ∷ after)
    → last_free false before ≡ false
    → first_free after ≡ false
    → (heap_free (s.start + span before + header_size) s ≡ set_free (s.start + span before) true s)
      × IsHeap
          (heap_free (s.start + span before + header_size) s)
          (before ++ record y { free = true } ∷ after)
unfolding heap_free
heap_free-refines s before y after h l f =
    let b = s.start + span before in
    let k =
      chain-IsBetween s.headers 0 s.start s.start s.end before y after false (λ e. inl refl) l f
        h.chain in
    let place : sub_u64 (b + header_size) header_size ≡ b = omega (arith, k.within, h.bounded) in
    let same : heap_free (b + header_size) s ≡ set_free b true s =
      ap (λ a. combine_backward a (combine_forward a (set_free a true s))) place
      ∙ no_join s b s.end k in
    (
      same,
      rw same (record {
        chain = IsChain-free s 0 s.start s.start s.end before y after h.chain;
        placed = h.placed;
        bounded = h.bounded;
      }),
    )
