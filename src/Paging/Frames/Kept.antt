-- ===== src/Paging/Frames/Kept.antt =====
-- `RequestPage` and `LockPages` free no page.
use os_tk.Base.{ℕ, subst, zero, suc, ◌+◌, ◌*◌, ◌≡◌, inl, inr, true, arith, u64, Bool-cases}
use os_tk.Memory.Bitmap.{get}
use os_tk.Paging.Frames.{Frames, request_loop, request_page, lock_page, each_page, lock_pages}
use os_tk.Paging.Frames.Marks.{is_marked, PageEffect-IsMarkedAs, lock_page-PageEffect}

-- Every page that is marked in `s` is marked in `t`.
abbrev pub StaysMarked : (s t : Frames) → Type 0
StaysMarked s t = (k : ℕ) → is_marked s k ≡ true → is_marked t k ≡ true

pub lock_page-StaysMarked : (address : ℕ) (s : Frames) → StaysMarked s (lock_page address s)
lock_page-StaysMarked address s k marked =
    ground (arith, (PageEffect-IsMarkedAs (lock_page-PageEffect address s)).bits k, marked)

request_loop-StaysMarked : (left : ℕ) (s : Frames) → StaysMarked s (request_loop left s).1
unfolding request_loop
request_loop-StaysMarked zero s k marked = marked
request_loop-StaysMarked (suc left) s k marked =
    elim (Bool-cases (get s.bitmap s.page_bitmap_index)) [
      | inl taken ↦ rw taken (
          request_loop-StaysMarked left (record s { page_bitmap_index = s.page_bitmap_index + 1 }) k
            marked)
      | inr free ↦ rw free (lock_page-StaysMarked (u64 (s.page_bitmap_index * 4096)) s k marked)
    ]

pub request_page-StaysMarked : (s : Frames) → StaysMarked s (request_page s).1
unfolding request_page
request_page-StaysMarked s = request_loop-StaysMarked _ s

-- What each round takes from `suc n` to `n` is at `n` behind `left` rounds, if it was at `left + n`.
each_page_rounds :
    (P : ℕ → Frames → Type 0) (address : ℕ)
    → ((n a : ℕ) (s : Frames) → P (suc n) s → P n (lock_page a s))
    → (left i n : ℕ) (s : Frames) → P (left + n) s
    → P n (each_page lock_page address left i s)
unfolding each_page
each_page_rounds P address step zero i n s h = subst (λ k. P k s) (omega arith) h
each_page_rounds P address step (suc left) i n s h =
    let a = u64 (address + i * 4096) in
    each_page_rounds P address step left (i + 1) n (lock_page a s)
      (step (left + n) a s (subst (λ k. P k s) (omega arith) h))

pub lock_pages_rounds :
    (P : ℕ → Frames → Type 0)
    → ((n a : ℕ) (s : Frames) → P (suc n) s → P n (lock_page a s))
    → (address left n : ℕ) (s : Frames) → P (left + n) s
    → P n (lock_pages address left s)
unfolding lock_pages
lock_pages_rounds P step address left n s h = each_page_rounds P address step left 0 n s h

pub lock_pages-StaysMarked :
    (address left : ℕ) (s : Frames) → StaysMarked s (lock_pages address left s)
lock_pages-StaysMarked address left s =
    lock_pages_rounds (λ n t. StaysMarked s t)
      (λ n a t h k marked. lock_page-StaysMarked a t k (h k marked)) address left 0 s
      (λ k marked. marked)
