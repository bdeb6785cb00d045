-- ===== src/Memory/Heap/Chain.antt =====
-- The heap as the list of its segments: their headers follow one another without a gap from the
-- heap's start to its end, linked in both directions.
use os_tk.Base.{
  ℕ, ◌+◌, ◌^◌, ◌<◌, ◌≤◌, ◌≡◌, ◌≢◌, refl, ◌∙◌, Bool, ◌==◌, if◌then◌else◌, arith, List, [], ◌∷◌,
}
use os_tk.Memory.Heap.{Header, Heap, header_size}

pub record Segment : Type 0 where
  pub size : ℕ
  pub free : Bool

-- From the link `p` on the headers `hs` hold the segments, the first of them at `a` and linked back
-- to `prev`; the last one ends at `end` and has no next.
abbrev pub IsChain : (hs : ℕ → Header) (prev p a end : ℕ) → List Segment → Type 0
IsChain hs prev p a end [] = (p ≡ 0) × (a ≡ end)
IsChain hs prev p a end (x ∷ xs) =
    (p ≡ a)
    × ((hs a).size ≡ x.size)
    × ((hs a).free ≡ x.free)
    × ((hs a).last ≡ prev)
    × IsChain hs a (hs a).next (a + header_size + x.size) end xs

pub IsChain-le :
    (hs : ℕ → Header) (prev p a end : ℕ) (xs : List Segment) → IsChain hs prev p a end xs → a ≤ end
IsChain-le hs prev p a end [] c = omega arith
IsChain-le hs prev p a end (x ∷ xs) c =
    let rest = IsChain-le hs a (hs a).next (a + header_size + x.size) end xs c.4 in omega arith

-- The link leads to the first segment or is NULL.
pub IsChain-first :
    (hs : ℕ → Header) (prev p a end : ℕ) (xs : List Segment)
    → IsChain hs prev p a end xs
    → (b : ℕ) → 0 < b
    → b < a
    → p ≢ b
IsChain-first hs prev p a end [] c b pos below e = omega arith
IsChain-first hs prev p a end (x ∷ xs) c b pos below e = omega arith

-- Only the headers from `a` on count.
pub IsChain-frame :
    (hs ks : ℕ → Header) (prev p a end : ℕ) (xs : List Segment)
    → ((b : ℕ) → a ≤ b → ks b ≡ hs b)
    → IsChain hs prev p a end xs
    → IsChain ks prev p a end xs
IsChain-frame hs ks prev p a end [] same c = c
IsChain-frame hs ks prev p a end (x ∷ xs) same c =
    let here = same a (omega arith) in
    let rest =
      IsChain-frame hs ks a (hs a).next (a + header_size + x.size) end xs
        (λ b h. same b (omega arith)) c.4 in
    rw here (c.0, c.1, c.2, c.3, rest)

-- A new segment in front: the link back of the first one changes.
pub IsChain-relink :
    (hs ks : ℕ → Header) (prev prev' p a end : ℕ) (xs : List Segment)
    → 0 < a
    → ((b : ℕ) → a ≤ b → ks b ≡ (if p == b then record (hs b) { last = prev' } else hs b))
    → IsChain hs prev p a end xs
    → IsChain ks prev' p a end xs
IsChain-relink hs ks prev prev' p a end [] pos same c = c
IsChain-relink hs ks prev prev' p a end (x ∷ xs) pos same c =
    let here : ks a ≡ record (hs a) { last = prev' } = same a (omega arith) ∙ ground arith in
    let rest =
      IsChain-frame hs ks a (hs a).next (a + header_size + x.size) end xs
        (λ b h. same b (omega arith) ∙ ground arith) c.4 in
    rw here (c.0, c.1, c.2, refl, rest)

-- The heap's segments, below 2 ^ 63 and not at NULL.
pub record IsHeap (s : Heap) (segments : List Segment) : Type 0 where
  pub chain : IsChain s.headers 0 s.start s.start s.end segments
  pub placed : 0 < s.start
  pub bounded : s.end < 2 ^ 63
