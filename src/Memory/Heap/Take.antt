-- ===== src/Memory/Heap/Take.antt =====
-- What `HeapAllocate` does at one segment, on the list of segments.
use os_tk.Base.{
  ℕ, ◌+◌, ◌-◌, ◌^◌, ◌<◌, ◌≤◌, ◌≡◌, ◌≢◌, refl, ap, ◌∙◌, true, false, ◌==◌, ltb, leb, if◌then◌else◌,
  arith, List, ◌∷◌, some, u64, sub_u64, ne→==, ==-refl, Bool-cases, inl, inr,
}
use os_tk.Memory.Heap.{Heap, header_size, set_free, split, take_segment, ltb_int64}
use os_tk.Memory.Heap.Segments.{IsCut, split_parts}
use os_tk.Memory.Heap.Chain.{
  Segment, IsChain, IsChain-le, IsChain-first, IsChain-frame, IsChain-relink,
}

-- A free segment of `x.size` bytes is taken for `size`: with a header and 16 bytes to spare it is
-- cut in two.
abbrev pub taken : ℕ → Segment → List Segment → List Segment
taken size x xs =
    if leb (size + header_size + 0x10) x.size
    then record { size = size; free = false }
      ∷ record { size = x.size - size - header_size; free = true }
      ∷ xs
    else record x { free = false } ∷ xs

-- The heap `t` has the segments `ys` from `a` on, and is `s` otherwise.
pub record IsAfter (prev a end : ℕ) (s t : Heap) (ys : List Segment) : Type 0 where
  pub chain : IsChain t.headers prev a a end ys
  pub frame : (b : ℕ) → 0 < b → b < a → t.headers b ≡ s.headers b
  pub same_start : t.start ≡ s.start
  pub same_end : t.end ≡ s.end

-- Too small a rest: the split is refused.
split_refused :
    (a len : ℕ) (s : Heap)
    → len ≤ (s.headers a).size
    → (s.headers a).size < len + header_size + 0x10
    → (s.headers a).size < 2 ^ 63
    → split a len s ≡ (0, s)
unfolding split
split_refused a len s le tight bounded = elim (Bool-cases (ltb len 0x10)) [
  | inl short ↦ rw short
  | inr long ↦ rw (long, refused)
]
  where
    refused : ltb_int64 (sub_u64 (sub_u64 (s.headers a).size len) header_size) 0x10 ≡ true
    refused = ground arith

module _ (prev a end size : ℕ) (s : Heap) (x : Segment) (xs : List Segment)
    (c : IsChain s.headers prev a a end (x ∷ xs)) (free : x.free ≡ true) (pos : 0 < a)
    (small : 0x10 ≤ size) (bounded : end < 2 ^ 63) where
  inside : a + header_size + x.size ≤ end
  inside = IsChain-le s.headers a (s.headers a).next (a + header_size + x.size) end xs c.4

  abbrev here : ℕ
  here = a + header_size + size

  abbrev rest : ℕ
  rest = x.size - size - header_size

  module _ (room : size + header_size + 0x10 ≤ x.size) (u : Heap)
      (k : IsCut a size rest here s u) where
    abbrev both : Heap
    both = set_free a false u

    both-first : both.headers a ≡ record (s.headers a) { size = size; free = false; next = here }
    both-first = rw (==-refl a, k.first)

    both-second :
        both.headers here ≡ record { size = rest; free = true; next = (s.headers a).next; last = a }
    both-second =
        let away : (a == here) ≡ false = ground arith in
        rw (away, k.second)
          (ap (λ v. record { size = rest; free = v; next = (s.headers a).next; last = a })
            (c.2 ∙ free))

    both-other :
        (b : ℕ)
        → b ≢ a
        → b ≢ here
        → both.headers b
          ≡ (if (s.headers a).next == b then record (s.headers b) { last = here } else s.headers b)
    both-other b ne ne_here =
        let away : (a == b) ≡ false = ground arith in rw away (k.other b ne ne_here)

    tail : IsChain both.headers here (s.headers a).next (here + header_size + rest) end xs
    tail =
        let place : here + header_size + rest ≡ a + header_size + x.size = omega arith in
        rw place (
          IsChain-relink s.headers both.headers a here (s.headers a).next (a + header_size + x.size)
            end xs (omega arith) (λ b h. both-other b (λ e. omega arith) (λ e. omega arith)) c.4)

    both-IsAfter :
        IsAfter prev a end s both
          (record { size = size; free = false } ∷ record { size = rest; free = true } ∷ xs)
    both-IsAfter = record {
      chain = rw both-first (refl, refl, refl, c.3, rw both-second (refl, refl, refl, refl, tail));
      frame = λ b p h.
          let unlinked = ne→== _ b (
            IsChain-first s.headers a (s.headers a).next (a + header_size + x.size) end xs c.4 b p
              (omega arith)) in
          both-other b (λ e. omega arith) (λ e. omega arith) ∙ rw unlinked refl;
      same_start = k.same_start;
      same_end = k.same_end;
    }

  take-whole : IsAfter prev a end s (set_free a false s) (record x { free = false } ∷ xs)
  take-whole = record {
    chain = rw (==-refl a) (
      refl,
      c.1,
      refl,
      c.3,
      IsChain-frame s.headers (set_free a false s).headers a (s.headers a).next
          (a + header_size + x.size) end xs (λ b h. ground arith) c.4,
    );
    frame = λ b p h. ground arith;
    same_start = refl;
    same_end = refl;
  }

  -- A free segment that is large enough is taken.
  pub take_segment-taken :
      size ≤ x.size
      → (t : Heap) × (take_segment size a s ≡ some (a + header_size, t))
        × IsAfter prev a end s t (taken size x xs)
  unfolding take_segment
  take_segment-taken le =
      let fr : (s.headers a).free ≡ true = c.2 ∙ free in
      let address : u64 (a + header_size) ≡ a + header_size = omega (arith, inside) in
      elim (Bool-cases (leb (size + header_size + 0x10) x.size)) [
        | inl room ↦
            let enough : size + header_size + 0x10 ≤ x.size = ground arith in
            let larger : ltb size (s.headers a).size ≡ true = ground (arith, c.1) in
            let order : a + size + header_size ≡ here = omega arith in
            let parts =
              (split_parts a size s small (omega (arith, c.1)) (omega (arith, c.1, inside))
                (omega (arith, inside))
                (λ e.
                  IsChain-first s.headers a (s.headers a).next (a + header_size + x.size) end xs c.4
                    a pos (omega arith) e)).1 in
            (
              set_free a false (split a size s).1,
              rw (fr, larger, address) refl,
              rw room (both-IsAfter enough (split a size s).1 (rw (order, c.1) at parts)),
            )
        | inr tight ↦
            let less : x.size < size + header_size + 0x10 = ground arith in
            (set_free a false s, whole_step fr address less, rw tight take-whole)
      ]
    where
      whole_step :
          (s.headers a).free ≡ true
          → u64 (a + header_size) ≡ a + header_size
          → x.size < size + header_size + 0x10
          → take_segment size a s ≡ some (a + header_size, set_free a false s)
      whole_step fr address less = elim (Bool-cases (ltb size (s.headers a).size)) [
        | inl larger ↦
            let same : split a size s ≡ (0, s) =
              split_refused a size s (omega (arith, c.1)) (omega (arith, c.1))
                (omega (arith, c.1, inside)) in
            rw (fr, larger, address, same) refl
        | inr equal ↦
            let hit : ((s.headers a).size == size) ≡ true = ground (arith, c.1) in
            rw (fr, equal, address, hit) refl
      ]
