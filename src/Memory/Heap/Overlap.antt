-- ===== src/Memory/Heap/Overlap.antt =====
-- `HeapFree` of a block before a free segment.
use os_tk.Base.{
  ℕ, ◌+◌, ◌^◌, ◌<◌, ◌≤◌, ◌≡◌, ◌≢◌, ◌⊎◌, refl, ap, sym, ◌∙◌, subst, Bool, true, false, ◌==◌, arith,
  List, [], ◌∷◌, ◌++◌, u64, sub_u64, ==-refl, ne→==, Bool-cases, inl, inr,
}
use os_tk.Memory.Heap.{
  Header, Heap, header_size, set_free, combine_forward, combine_backward, heap_free,
}
use os_tk.Memory.Heap.Chain.{Segment, IsChain, IsChain-le, IsHeap}
use os_tk.Memory.Heap.Free.{span, last_free, combine_backward_idle, Earlier}
use os_tk.Memory.Heap.Segments.{combine_forward-keeps_next}

combine_forward_elsewhere :
    (header b : ℕ) (t : Heap)
    → (t.headers header).next ≢ 0
    → (t.headers (t.headers header).next).free ≡ true
    → header ≢ b
    → (t.headers (t.headers header).next).next ≢ b
    → (combine_forward header t).headers b ≡ t.headers b
unfolding combine_forward
combine_forward_elsewhere header b t present free apart behind =
    let n = (t.headers header).next in
    let no_null = ne→== n 0 present in
    elim (Bool-cases (n == t.last_header)) [
      | inl a ↦ elim (Bool-cases ((t.headers n).next == 0)) [
        | inl e ↦ rw (no_null, free, a, e, ne→== _ _ apart) refl
        | inr e ↦ rw (no_null, free, a, e, ne→== _ _ apart, ne→== _ _ behind) refl
      ]
      | inr a ↦ elim (Bool-cases ((t.headers n).next == 0)) [
        | inl e ↦ rw (no_null, free, a, e, ne→== _ _ apart) refl
        | inr e ↦ rw (no_null, free, a, e, ne→== _ _ apart, ne→== _ _ behind) refl
      ]
    ]

-- The headers of two segments in a row, at `b` and at `c`.
record IsFollowed (hs : ℕ → Header) (b c end : ℕ) (y z : Segment) : Type 0 where
  next : (hs b).next ≡ c
  size : (hs b).size ≡ y.size
  back : Earlier hs b (hs b).last
  next_size : (hs c).size ≡ z.size
  next_free : (hs c).free ≡ z.free
  onward : ((hs c).next ≡ 0) ⊎ (c < (hs c).next)
  within : c + header_size + z.size ≤ end

chain-onward :
    (hs : ℕ → Header) (prev p a end c : ℕ) (xs : List Segment)
    → c < a
    → IsChain hs prev p a end xs
    → (p ≡ 0) ⊎ (c < p)
chain-onward hs prev p a end c [] lt k = inl k.0
chain-onward hs prev p a end c (x ∷ xs) lt k = inr (omega (arith, lt, k.0))

chain-IsFollowed :
    (hs : ℕ → Header) (prev p a end : ℕ) (before : List Segment) (y z : Segment)
    (after : List Segment) (prev_free : Bool)
    → (prev_free ≡ false → Earlier hs a prev)
    → last_free prev_free before ≡ false
    → IsChain hs prev p a end (before ++ y ∷ z ∷ after)
    → let b = a + span before in IsFollowed hs b (b + header_size + y.size) end y z
chain-IsFollowed hs prev p a end [] y z after free ok l k =
    let none : a + 0 ≡ a = omega arith in
    let c = a + header_size + y.size in
    let rest = k.4 in
    let le = IsChain-le hs c (hs c).next (c + header_size + z.size) end after rest.4 in
    rw none (record {
      next = rest.0;
      size = k.1;
      back = rw (k.3) (ok l);
      next_size = rest.1;
      next_free = rest.2;
      onward =
          chain-onward hs c (hs c).next (c + header_size + z.size) end c after (omega arith) rest.4;
      within = le;
    })
chain-IsFollowed hs prev p a end (x ∷ xs) y z after free ok l k =
    let place : a + header_size + x.size + span xs ≡ a + (header_size + x.size + span xs) =
      omega arith in
    subst (λ b. IsFollowed hs b (b + header_size + y.size) end y z) place
      (chain-IsFollowed hs a (hs a).next (a + header_size + x.size) end xs y z after x.free
        (λ e. inr (omega arith, k.2 ∙ e)) l k.4)

abbrev with_size : ℕ → Header → Header
with_size size h = record h { size = size }

-- The header of a free segment.
abbrev linked : (size next last : ℕ) → Header
linked size next last = record { size = size; free = true; next = next; last = last }

-- The two calls that join `b` to its neighbours, where only the next one is free.
joined :
    (s : Heap) (b end : ℕ) (y z : Segment)
    → let c = b + header_size + y.size in
      IsFollowed s.headers b c end y z
      → z.free ≡ true
      → end < 2 ^ 63
      → 0 < b
      → let u = combine_backward b (combine_forward b (set_free b true s)) in
        (u.headers b ≡ record {
          size = y.size + header_size + z.size;
          free = true;
          next = c;
          last = (s.headers b).last;
        })
        × (u.headers c ≡ s.headers c)
joined s b end y z k free bounded placed =
    let c = b + header_size + y.size in
    let t = set_free b true s in
    let at_b : t.headers b ≡ record (s.headers b) { free = true } = rw (==-refl b) refl in
    let at : (p : ℕ) → b ≢ p → t.headers p ≡ s.headers p = λ p ne. rw (ne→== b p ne) refl in
    let b_c : b ≢ c = λ e. omega (arith, e) in
    let at_c = at c b_c in
    let next : (t.headers b).next ≡ c = ap Header.next at_b ∙ k.next in
    let present : (t.headers b).next ≢ 0 = λ e. omega (arith, next, e) in
    let u = combine_forward b t in
    let nn = (s.headers c).next in
    let p = (s.headers b).last in
    let at_next : t.headers (t.headers b).next ≡ s.headers c = ap t.headers next ∙ at_c in
    let next_is_free = ap Header.free at_next ∙ k.next_free ∙ free in
    let behind : (t.headers (t.headers b).next).next ≡ nn = ap Header.next at_next in
    let forward : nn ≢ b = λ e. ground (arith, k.onward, placed, e) in
    let onward : nn ≢ c = λ e. ground (arith, k.onward, placed, e) in
    let keeps =
      combine_forward-keeps_next b t present (λ e. b_c (sym e ∙ next)) next_is_free
        (λ e. forward (sym behind ∙ e)) (λ e. onward (sym behind ∙ e ∙ next)) in
    let total = y.size + header_size + z.size in
    let sizes : u64 ((t.headers b).size + (t.headers (t.headers b).next).size + header_size)
        ≡ total =
      ap (λ h. u64 (Header.size h + (t.headers (t.headers b).next).size + header_size)) at_b
      ∙ ap (λ h. u64 ((s.headers b).size + Header.size h + header_size)) at_next
      ∙ omega (arith, k.size, k.next_size, k.within, bounded) in
    let next_kept =
      combine_forward_elsewhere b c t present next_is_free b_c (λ e. onward (sym behind ∙ e))
      ∙ at_c in
    let idle : (p ≡ 0) ⊎ ((u.headers p).free ≡ false) = elim k.back [
      | inl e ↦ inl e
      | inr (lower, used) ↦ elim (Bool-cases (p == 0)) [
        | inl null ↦ inl (ground (arith, null))
        | inr there ↦
            let b_p : b ≢ p = λ e. omega (arith, lower, e) in
            let away : nn ≢ p = λ e. ground (arith, k.onward, lower, there, e) in
            inr (
              ap Header.free (
                combine_forward_elsewhere b p t present next_is_free b_p
                  (λ e. away (sym behind ∙ e))
                ∙ at p b_p)
              ∙ used)
      ]
    ] in
    let last : (u.headers b).last ≡ p = ap Header.last keeps ∙ ap Header.last at_b in
    let stays =
      combine_backward_idle b u
        (subst (λ q. (q ≡ 0) ⊎ ((u.headers q).free ≡ false)) (sym last) idle) in
    let result =
      keeps
      ∙ ap (λ n. with_size n (t.headers b)) sizes
      ∙ ap (with_size total) at_b
      ∙ ap (λ n. linked total n p) k.next in
    rw stays (result, next_kept)

-- `HeapFree` of a block before a free segment: the block's segment then counts the bytes of the next
-- one as its own, but the link still leads to that segment, which is free itself, with its old size.
-- The segment before the block is in use or does not exist.
pub heap_free-overlaps :
    (s : Heap) (before : List Segment) (y z : Segment) (after : List Segment)
    → IsHeap s (before ++ y ∷ z ∷ after)
    → last_free false before ≡ false
    → z.free ≡ true
    → let b = s.start + span before in
      let c = b + header_size + y.size in
      let t = heap_free (b + header_size) s in
      (t.headers b ≡ record {
        size = y.size + header_size + z.size;
        free = true;
        next = c;
        last = (s.headers b).last;
      })
      × ((t.headers c).free ≡ true)
      × ((t.headers c).size ≡ z.size)
unfolding heap_free
heap_free-overlaps s before y z after h l free =
    let b = s.start + span before in
    let c = b + header_size + y.size in
    let k =
      chain-IsFollowed s.headers 0 s.start s.start s.end before y z after false (λ e. inl refl) l
        h.chain in
    let place : sub_u64 (b + header_size) header_size ≡ b = omega (arith, k.within, h.bounded) in
    let (here, there) = joined s b s.end y z k free h.bounded (omega (arith, h.placed)) in
    let same : heap_free (b + header_size) s
        ≡ combine_backward b (combine_forward b (set_free b true s)) =
      ap (λ a. combine_backward a (combine_forward a (set_free a true s))) place in
    rw same (here, ap Header.free there ∙ k.next_free ∙ free, ap Header.size there ∙ k.next_size)
