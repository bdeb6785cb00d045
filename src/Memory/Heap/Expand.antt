-- ===== src/Memory/Heap/Expand.antt =====
-- `ExpandHeap`: the heap grows by one free segment at its end.
use os_tk.Base.{
  ℕ, ◌+◌, ◌-◌, ◌*◌, ◌/◌, ◌^◌, ◌<◌, ◌≤◌, ◌≡◌, ◌≢◌, refl, ap, sym, ◌∙◌, subst, Bool, true, false,
  arith, List, [], ◌∷◌, ◌++◌, u64, sub_u64, ne→==, ==-refl, inr,
}
use os_tk.Memory.Heap.{
  Header, Heap, header_size, round_up, expand_heap, combine_backward, map_pages, set_free, set_last,
  set_next, set_size,
}
use os_tk.Paging.Tables.{Mapper}
use os_tk.Memory.Heap.Chain.{Segment, IsChain, IsHeap}
use os_tk.Memory.Heap.Free.{last_free, combine_backward_idle}

-- The address of the last of the segments.
abbrev pub last_address : (a : ℕ) → Segment → List Segment → ℕ
last_address a x [] = a
last_address a x (y ∷ ys) = last_address (a + header_size + x.size) y ys

le-last_address : (a : ℕ) (x : Segment) (xs : List Segment) → a ≤ last_address a x xs
le-last_address a x [] = omega arith
le-last_address a x (y ∷ ys) = omega (arith, le-last_address (a + header_size + x.size) y ys)

last_address-lt :
    (hs : ℕ → Header) (prev p a end : ℕ) (x : Segment) (xs : List Segment)
    → IsChain hs prev p a end (x ∷ xs)
    → last_address a x xs + header_size ≤ end
last_address-lt hs prev p a end x [] c = omega (arith, c.4.1)
last_address-lt hs prev p a end x (y ∷ ys) c =
    last_address-lt hs a (hs a).next (a + header_size + x.size) end y ys c.4

-- The new segment of `size` bytes with its header.
abbrev pub added : ℕ → Segment
added size = record { size = size - header_size; free = true }

-- What the headers are after the link to the new segment.
record IsLinked (hs ks : ℕ → Header) (last end size : ℕ) : Type 0 where
  joined : ks last ≡ record (hs last) { next = end }
  fresh : ks end ≡ record { size = size - header_size; free = true; next = 0; last = last }
  same : (b : ℕ) → b ≢ last → b ≢ end → ks b ≡ hs b

IsChain-added :
    (hs ks : ℕ → Header) (prev p a end size : ℕ) (x : Segment) (xs : List Segment)
    → IsChain hs prev p a end (x ∷ xs)
    → header_size ≤ size
    → IsLinked hs ks (last_address a x xs) end size
    → IsChain ks prev p a (end + size) (x ∷ xs ++ added size ∷ [])
IsChain-added hs ks prev p a end size x [] c room k =
    let place : a + header_size + x.size ≡ end = c.4.1 in
    rw (k.joined, place)
      (c.0, c.1, c.2, c.3, rw k.fresh (refl, refl, refl, refl, (refl, omega (arith, room))))
IsChain-added hs ks prev p a end size x (y ∷ ys) c room k =
    let b = a + header_size + x.size in
    let above = le-last_address b y ys in
    let below = last_address-lt hs a (hs a).next b end y ys c.4 in
    let here = k.same a (λ e. omega (arith, above, e)) (λ e. omega (arith, above, below, e)) in
    let rest = IsChain-added hs ks a (hs a).next b end size y ys c.4 room k in
    rw here (c.0, c.1, c.2, c.3, rest)

-- The last segment is in use.
chain-last_free :
    (hs : ℕ → Header) (prev p a end : ℕ) (free : Bool) (x : Segment) (xs : List Segment)
    → IsChain hs prev p a end (x ∷ xs)
    → last_free free (x ∷ xs) ≡ false
    → (hs (last_address a x xs)).free ≡ false
chain-last_free hs prev p a end free x [] c l = c.2 ∙ l
chain-last_free hs prev p a end free x (y ∷ ys) c l =
    chain-last_free hs a (hs a).next (a + header_size + x.size) end x.free y ys c.4 l

-- The pages that the code maps make up the rounded size.
round_up-pages :
    (size : ℕ)
    → 0 < size
    → size < 2 ^ 63
    → (round_up 0x1000 size / 0x1000 * 0x1000 ≡ round_up 0x1000 size)
      × (0x1000 ≤ round_up 0x1000 size)
round_up-pages size pos small = ground arith

-- The heap with the new segment linked, before it is joined with the one before.
abbrev linked : (mapper : Mapper) → (size end : ℕ) → Heap → Heap
linked mapper size end s =
    let s1 = record s { mapper = mapper; end = end } in
    let s4 = set_next s.last_header s.end (set_last s.end s.last_header (set_free s.end true s1)) in
    set_size s.end size (set_next s.end 0 (record s4 { last_header = s.end }))

linked-IsLinked :
    (mapper : Mapper) (size end : ℕ) (s : Heap)
    → s.last_header ≢ s.end
    → IsLinked s.headers (linked mapper (size - header_size) end s).headers s.last_header s.end size
linked-IsLinked mapper size end s apart =
    let away = ne→== s.last_header s.end apart in
    let away' = ne→== s.end s.last_header (λ e. apart (sym e)) in
    record {
      joined = rw (away', ==-refl s.last_header) refl;
      fresh = rw (==-refl s.end, away) refl;
      same = λ b ne ne'.
          let other = ne→== s.last_header b (λ e. ne (sym e)) in
          let other' = ne→== s.end b (λ e. ne' (sym e)) in rw (other, other') refl;
    }

module _ (mapper : Mapper) (size : ℕ) (s : Heap) (x : Segment) (xs : List Segment)
    (h : IsHeap s (x ∷ xs)) (last : s.last_header ≡ last_address s.start x xs)
    (used : last_free false (x ∷ xs) ≡ false) where
  apart : s.last_header ≢ s.end
  apart e = omega (arith, last, last_address-lt s.headers 0 s.start s.start s.end x xs h.chain, e)

  abbrev after : Heap
  after = linked mapper (size - header_size) (s.end + size) s

  after-IsLinked : IsLinked s.headers after.headers s.last_header s.end size
  after-IsLinked = linked-IsLinked mapper size (s.end + size) s apart

  in_use : (s.headers s.last_header).free ≡ false
  in_use =
      ap (λ b. (s.headers b).free) last
      ∙ chain-last_free s.headers 0 s.start s.start s.end false x xs h.chain used

  after_idle : combine_backward s.end after ≡ after
  after_idle =
      let k = after-IsLinked in
      combine_backward_idle s.end after
        (inr (ap (λ v. (after.headers v.last).free) k.fresh ∙ ap (λ v. v.free) k.joined ∙ in_use))

  after-IsHeap :
      header_size ≤ size → s.end + size < 2 ^ 63 → IsHeap after (x ∷ xs ++ added size ∷ [])
  after-IsHeap room fit = record {
    chain =
        IsChain-added s.headers after.headers 0 s.start s.start s.end size x xs h.chain room
          (subst (λ b. IsLinked s.headers after.headers b s.end size) last after-IsLinked);
    placed = h.placed;
    bounded = fit;
  }

-- `ExpandHeap` adds one free segment at the heap's end, of the size rounded up to whole pages, less
-- its header, where the heap's last header is that of its last segment, that segment is in use, and
-- the heap ends below 2 ^ 63 afterwards.
pub expand_heap-IsHeap :
    (size : ℕ) (s : Heap) (x : Segment) (xs : List Segment)
    → IsHeap s (x ∷ xs)
    → s.last_header ≡ last_address s.start x xs
    → last_free false (x ∷ xs) ≡ false
    → 0 < size
    → size < 2 ^ 63
    → s.end + round_up 0x1000 size < 2 ^ 63
    → IsHeap (expand_heap size s) (x ∷ xs ++ added (round_up 0x1000 size) ∷ [])
      × ((expand_heap size s).start ≡ s.start)
      × ((expand_heap size s).last_header ≡ s.end)
unfolding expand_heap
expand_heap-IsHeap size s x xs h last used pos small fit =
    let r = round_up-pages size pos small in
    let rounded = round_up 0x1000 size in
    let mapper = map_pages (rounded / 0x1000) s.end s.mapper in
    let new_end : u64 (s.end + rounded / 0x1000 * 0x1000) ≡ s.end + rounded =
      omega (arith, fit, r.0) in
    let new_size : sub_u64 rounded header_size ≡ rounded - header_size = omega (arith, fit, r.1) in
    let done : expand_heap size s ≡ after mapper rounded s x xs h last used =
      ap (λ e. combine_backward s.end (linked mapper (sub_u64 rounded header_size) e s)) new_end
      ∙ ap (λ n. combine_backward s.end (linked mapper n (s.end + rounded) s)) new_size
      ∙ after_idle mapper rounded s x xs h last used in
    subst
      (λ t. IsHeap t (x ∷ xs ++ added rounded ∷ []) × (t.start ≡ s.start) × (t.last_header ≡ s.end))
      (sym done)
      (after-IsHeap mapper rounded s x xs h last used (omega (arith, r.1)) fit, refl, refl)
