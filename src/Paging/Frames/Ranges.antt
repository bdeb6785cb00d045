-- ===== src/Paging/Frames/Ranges.antt =====
-- The loops over pages, and what `ReadEFIMemoryMap` leaves in the bitmap.
use os_tk.Base.{
  ℕ, zero, suc, ◌*◌, ◌/◌, ◌≤◌, ◌≡◌, refl, Bool, arith, ◌&&◌, ltb, leb, if◌then◌else◌, u64, ◌+◌, ◌^◌,
  ◌∙◌, ap,
}
use os_tk.Paging.Frames.{Frames, each_page}
use os_tk.Paging.Frames.Marks.{is_marked, limit, PageEffect, PageEffect-IsMarkedAs}

-- Page `k` is one of the `n` pages from `first` on.
abbrev pub in_pages : ℕ → ℕ → ℕ → Bool
in_pages first n k = leb first k && ltb k (first + n)

-- `t` has the `n` bits from `first` on at `v`, as far as they are in range, and the others as `s`.
pub record IsRangeMarked (v : Bool) (first n : ℕ) (s t : Frames) : Type 0 where
  pub bits :
      (k : ℕ) → k ≤ limit s → is_marked t k ≡ (if in_pages first n k then v else is_marked s k)
  pub same_size : t.bitmap.size ≡ s.bitmap.size
  pub same_buffer : t.bitmap.buffer ≡ s.bitmap.buffer

module _ (v : Bool) (page : ℕ → Frames → Frames)
    (effect : (a : ℕ) (s : Frames) → PageEffect v (a / 4096) s (page a s)) where
  each_page-IsRangeMarked :
      (address left i : ℕ) (s : Frames)
      → address + (i + left) * 4096 ≤ 2 ^ 64
      → IsRangeMarked v (address / 4096 + i) left s (each_page page address left i s)
  unfolding each_page
  each_page-IsRangeMarked address zero i s fits = record {
    bits = λ k inside. ground arith;
    same_size = refl;
    same_buffer = refl;
  }
  each_page-IsRangeMarked address (suc left) i s fits =
      let here = u64 (address + i * 4096) in
      let index : here / 4096 ≡ address / 4096 + i = omega arith in
      let one = PageEffect-IsMarkedAs (effect here s) in
      let same : limit (page here s) ≡ limit s = ap (λ n. u64 (n * 8)) one.same_size in
      let rest = each_page-IsRangeMarked address left (i + 1) (page here s) (omega arith) in
      record {
        bits = λ k inside. ground (arith, rest.bits k, one.bits k, index, same);
        same_size = rest.same_size ∙ one.same_size;
        same_buffer = rest.same_buffer ∙ one.same_buffer;
      }

  pub pages-IsRangeMarked :
      (address n : ℕ) (s : Frames)
      → address + n * 4096 ≤ 2 ^ 64
      → IsRangeMarked v (address / 4096) n s (each_page page address n 0 s)
  pages-IsRangeMarked address n s fits =
      let start : address / 4096 + 0 ≡ address / 4096 = omega arith in
      rw start at (each_page-IsRangeMarked address n 0 s (omega arith))
