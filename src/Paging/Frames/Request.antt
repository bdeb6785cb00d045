-- ===== src/Paging/Frames/Request.antt =====
-- Which page `RequestPage` hands out.
use os_tk.Base.{
  ℕ, zero, suc, ◌*◌, ◌/◌, ◌-◌, ◌≤◌, ◌<◌, ◌≡◌, refl, inl, inr, true, false, arith, ◌==◌, u64, ◌+◌,
  Bool-cases, ◌^◌, ==→eq, ==→ne,
}
use os_tk.Paging.Frames.{Frames, request_loop, request_page}
use os_tk.Paging.Frames.Marks.{
  is_marked, limit, IsMarkedAs, PageEffect-IsMarkedAs, lock_page-PageEffect,
}
use os_tk.Paging.Frames.Ledger.{IsHinted}

-- The result of a request: the first clear page, locked and nothing else changed in the bitmap;
-- or NULL with every page marked and the bitmap as it was. The address of page 0 is NULL as well.
pub data Requested (s : Frames) (r : ℕ × Frames) : Type 0 where
  granted :
      (k : ℕ)
      → k < limit s
      → ((j : ℕ) → j < k → is_marked s j ≡ true)
      → is_marked s k ≡ false
      → r.0 ≡ k * 4096
      → IsMarkedAs true k s r.1
      → Requested s r
  exhausted :
      ((j : ℕ) → j < limit s → is_marked s j ≡ true)
      → r.0 ≡ 0
      → r.1.bitmap ≡ s.bitmap
      → Requested s r

IsHinted-advance :
    (s : Frames)
    → is_marked s s.page_bitmap_index ≡ true
    → IsHinted s
    → IsHinted (record s { page_bitmap_index = s.page_bitmap_index + 1 })
IsHinted-advance s marked h j below inside = elim (Bool-cases (j == s.page_bitmap_index)) [
  | inl here ↦ rw (==→eq j s.page_bitmap_index here) marked
  | inr before ↦ h j (omega (arith, ==→ne j s.page_bitmap_index before)) inside
]

-- The hint does not show in the conditions on the bitmap.
Requested-advance :
    (s : Frames) (i : ℕ) (r : ℕ × Frames)
    → Requested (record s { page_bitmap_index = i }) r
    → Requested s r
Requested-advance s i r (granted k lt below clear e m) =
    granted k lt below clear e
      (record { bits = m.bits; same_size = m.same_size; same_buffer = m.same_buffer })
Requested-advance s i r (exhausted all e same) = exhausted all e same

request_loop-Requested :
    (left : ℕ) (s : Frames)
    → left ≡ limit s - s.page_bitmap_index
    → limit s * 4096 ≤ 2 ^ 64
    → IsHinted s
    → Requested s (request_loop left s)
unfolding request_loop
request_loop-Requested zero s e small h = exhausted (λ j lt. h j (omega arith) lt) refl refl
request_loop-Requested (suc left) s e small h =
    elim (Bool-cases (is_marked s s.page_bitmap_index)) [
      | inl marked ↦ rw marked (
          Requested-advance s (s.page_bitmap_index + 1) _ (
            request_loop-Requested left (record s { page_bitmap_index = s.page_bitmap_index + 1 })
              (omega arith) small (IsHinted-advance s marked h)))
      | inr clear ↦
          let page : u64 (s.page_bitmap_index * 4096) ≡ s.page_bitmap_index * 4096 = omega arith in
          let place : s.page_bitmap_index * 4096 / 4096 ≡ s.page_bitmap_index = omega arith in
          rw (clear, page)
            (granted s.page_bitmap_index (omega arith) (λ j lt. h j lt (omega arith)) clear refl
              (rw place at
                (PageEffect-IsMarkedAs (lock_page-PageEffect (s.page_bitmap_index * 4096) s))))
    ]

-- With an honest hint, and a memory whose addresses fit 64 bits, `RequestPage` hands out the
-- lowest clear page and marks just that one, also where that is page 0, whose address is NULL; if
-- every page is marked it answers NULL and leaves the bitmap as it is.
pub request_page-Requested :
    (s : Frames) → limit s * 4096 ≤ 2 ^ 64 → IsHinted s → Requested s (request_page s)
unfolding request_page
request_page-Requested s small h = request_loop-Requested _ s refl small h
