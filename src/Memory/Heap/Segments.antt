-- ===== src/Memory/Heap/Segments.antt =====
-- kernel/src/Memory/Heap.c: cutting a segment in two and joining neighbours.
use os_tk.Base.{
  ℕ, ◌+◌, ◌-◌, ◌^◌, ◌<◌, ◌≤◌, ◌≡◌, ◌≢◌, refl, true, false, ◌==◌, ltb, if◌then◌else◌, arith, ==→eq,
  u64, sub_u64, ne→==, le→ltb, ==-refl, Bool-cases, inl, inr, ap,
}
use os_tk.Memory.Heap.{
  Header, Heap, header_size, set_size, set_free, set_next, set_last, ltb_int64, combine_forward,
  split,
}

-- The assignments of `HeapSegmentHeader_Split`, after its guards.
abbrev cut : (header len rest new : ℕ) → Heap → Heap
cut header len rest new s =
    let s1 = set_last (s.headers header).next new s in
    let s2 = set_next new (s1.headers header).next s1 in
    let s3 = set_next header new s2 in
    let s4 = set_last new header s3 in
    let s5 = set_size new rest s4 in
    let s6 = set_free new (s5.headers header).free s5 in set_size header len s6

module _ (header len rest new : ℕ) (s : Heap) (apart : new ≢ header)
    (forward : (s.headers header).next ≢ header) where
  seen_new : (header == new) ≡ false
  seen_new = ground arith

  seen_header : (new == header) ≡ false
  seen_header = ground arith

  seen_next : ((s.headers header).next == header) ≡ false
  seen_next = ground arith

  cut-header :
      (cut header len rest new s).headers header
      ≡ record (s.headers header) { size = len; next = new }
  cut-header = rw (seen_new, seen_header, seen_next, ==-refl header) refl

  cut-new : (cut header len rest new s).headers new ≡ record {
    size = rest;
    free = (s.headers header).free;
    next = (s.headers header).next;
    last = header;
  }
  cut-new = rw (seen_new, seen_header, seen_next, ==-refl header, ==-refl new) refl

  -- Of the other headers only the old next one changes, in its link back.
  cut-other :
      (b : ℕ)
      → b ≢ header
      → b ≢ new
      → (cut header len rest new s).headers b ≡ (
          if (s.headers header).next == b then record (s.headers b) { last = new } else s.headers b)
  cut-other b ne_header ne_new =
      let past_header : (header == b) ≡ false = ground arith in
      let past_new : (new == b) ≡ false = ground arith in
      elim (Bool-cases ((s.headers header).next == b)) [
        | inl here ↦
            rw (past_header, past_new, here)
              (ap (λ k. record (s.headers k) { last = new }) (==→eq _ _ here))
        | inr away ↦ rw (past_header, past_new, away)
      ]

-- The heap `u` is `s` with the segment at `header` cut in two.
pub record IsCut (header len rest new : ℕ) (s u : Heap) : Type 0 where
  pub first : u.headers header ≡ record (s.headers header) { size = len; next = new }
  pub second : u.headers new ≡ record {
    size = rest;
    free = (s.headers header).free;
    next = (s.headers header).next;
    last = header;
  }
  pub other :
      (b : ℕ)
      → b ≢ header
      → b ≢ new
      → u.headers b ≡ (
          if (s.headers header).next == b then record (s.headers b) { last = new } else s.headers b)
  pub same_start : u.start ≡ s.start
  pub same_end : u.end ≡ s.end

cut-IsCut :
    (header len rest new : ℕ) (s : Heap)
    → new ≢ header
    → (s.headers header).next ≢ header
    → IsCut header len rest new s (cut header len rest new s)
cut-IsCut header len rest new s apart forward = record {
  first = cut-header header len rest new s apart forward;
  second = cut-new header len rest new s apart forward;
  other = cut-other header len rest new s apart forward;
  same_start = refl;
  same_end = refl;
}

module _ (header len : ℕ) (s : Heap) (small : 0x10 ≤ len)
    (room : len + header_size + 0x10 ≤ (s.headers header).size)
    (bounded : (s.headers header).size < 2 ^ 63) (fits : header + len + header_size < 2 ^ 64) where
  rest_eq :
      sub_u64 (sub_u64 (s.headers header).size len) header_size
      ≡ (s.headers header).size - len - header_size
  rest_eq = omega arith

  long : ltb len 0x10 ≡ false
  long = le→ltb len 0x10 small

  rest_long : ltb_int64 ((s.headers header).size - len - header_size) 0x10 ≡ false
  rest_long = ground arith

  fits_eq : u64 (header + len + header_size) ≡ header + len + header_size
  fits_eq = omega arith

  split-cut : split header len s ≡ (
    header + len + header_size,
    cut header len ((s.headers header).size - len - header_size) (header + len + header_size) s,
  )
  unfolding split
  split-cut = rw (rest_eq, long, rest_long, fits_eq) refl

-- A segment with room for the cut, for a header and for 16 bytes more is cut in two, where the
-- number of bytes is at least 16 and the next segment is another one: the new segment stands
-- behind the bytes, the sizes of both and its header make up the old size, the links lead through
-- it, it is as free as the old one, and no other header changes but in its link back.
pub split_parts :
    (header len : ℕ) (s : Heap)
    → 0x10 ≤ len
    → len + header_size + 0x10 ≤ (s.headers header).size
    → (s.headers header).size < 2 ^ 63
    → header + len + header_size < 2 ^ 64
    → (s.headers header).next ≢ header
    → let new = header + len + header_size in
      ((split header len s).0 ≡ new)
      × IsCut header len ((s.headers header).size - len - header_size) new s (split header len s).1
split_parts header len s small room bounded fits forward =
    let rest = (s.headers header).size - len - header_size in
    let new = header + len + header_size in
    let apart : new ≢ header = λ e. omega arith in
    rw (split-cut header len s small room bounded fits)
      (refl, cut-IsCut header len rest new s apart forward)

-- A segment whose next one is free takes its bytes and those of its header, but keeps its link to
-- it, where the three segments in question are different.
pub combine_forward-keeps_next :
    (header : ℕ) (t : Heap)
    → (t.headers header).next ≢ 0
    → (t.headers header).next ≢ header
    → (t.headers (t.headers header).next).free ≡ true
    → (t.headers (t.headers header).next).next ≢ header
    → (t.headers (t.headers header).next).next ≢ (t.headers header).next
    → (combine_forward header t).headers header ≡ record (t.headers header) {
      size = u64 ((t.headers header).size + (t.headers (t.headers header).next).size + header_size);
    }
unfolding combine_forward
combine_forward-keeps_next header t present apart free forward onward =
    let n = (t.headers header).next in
    let no_null = ne→== n 0 present in
    elim (Bool-cases (n == t.last_header)) [
      | inl a ↦ elim (Bool-cases ((t.headers n).next == 0)) [
        | inl b ↦ rw (no_null, free, a, b, ==-refl header) refl
        | inr b ↦ rw (no_null, free, a, b, ne→== _ _ forward, ne→== _ _ onward, ==-refl header) refl
      ]
      | inr a ↦ elim (Bool-cases ((t.headers n).next == 0)) [
        | inl b ↦ rw (no_null, free, a, b, ==-refl header) refl
        | inr b ↦ rw (no_null, free, a, b, ne→== _ _ forward, ne→== _ _ onward, ==-refl header) refl
      ]
    ]

-- Joining the parts of a free segment that was cut gives its size back, but leaves the link to the
-- new segment in place. The segment has room for the cut, for a header and for 16 bytes more, at
-- least 16 bytes are cut, and the next segment is neither part.
combine_forward-split :
    (header len : ℕ) (s : Heap)
    → 0x10 ≤ len
    → len + header_size + 0x10 ≤ (s.headers header).size
    → (s.headers header).size < 2 ^ 63
    → header + len + header_size < 2 ^ 64
    → (s.headers header).next ≢ header
    → (s.headers header).next ≢ header + len + header_size
    → (s.headers header).free ≡ true
    → (combine_forward header (split header len s).1).headers header
      ≡ record (s.headers header) { next = header + len + header_size }
combine_forward-split header len s small room bounded fits forward onward free =
    let t = (split header len s).1 in
    let new = header + len + header_size in
    let c = (split_parts header len s small room bounded fits forward).1 in
    let next_h : (t.headers header).next ≡ new = ap Header.next c.first in
    let F : (t.headers (t.headers header).next).free ≡ true = rw (next_h, c.second) free in
    let P : (t.headers header).next ≢ 0 = λ e. omega arith in
    let A : (t.headers header).next ≢ header = λ e. omega arith in
    let W : (t.headers (t.headers header).next).next ≢ header = rw (next_h, c.second) forward in
    let O : (t.headers (t.headers header).next).next ≢ (t.headers header).next =
      rw (next_h, c.second) onward in
    let whole : u64 (len + ((s.headers header).size - len - header_size) + header_size)
        ≡ (s.headers header).size =
      omega arith in
    rw (combine_forward-keeps_next header t P A F W O, next_h, c.first, c.second)
      (ap (λ z. record (s.headers header) { size = z; next = new }) whole)
