-- ===== src/Paging/Frames/Marks.antt =====
-- What the four operations on one page do to the page bitmap.
use os_tk.Base.{
  ℕ, ◌*◌, ◌/◌, ◌≤◌, ◌<◌, ◌≡◌, refl, ◌⊎◌, inl, inr, Bool, true, false, arith, ltb, leb, ◌==◌, ◌&&◌,
  if◌then◌else◌, u64, ◌+◌, Bool-cases, ltb→lt, ltb→le, not,
}
use os_tk.Memory.Bitmap.{get, set}
use os_tk.Memory.Bitmap.Laws.{get-set, set-done, size-set, buffer-set, set_out_of_range}
use os_tk.Paging.Frames.{Frames, lower_hint, free_page, lock_page, unreserve_page, reserve_page}

abbrev pub is_marked : Frames → ℕ → Bool
is_marked s i = get s.bitmap i

-- The largest index that the bitmap's own check lets through.
abbrev pub limit : Frames → ℕ
limit s = u64 (s.bitmap.size * 8)

-- `t` has the bit `i` at `v` if the index is in range, and all other bits as `s` has them.
pub record IsMarkedAs (v : Bool) (i : ℕ) (s t : Frames) : Type 0 where
  pub bits : (j : ℕ) → is_marked t j ≡ (if leb i (limit s) && (i == j) then v else is_marked s j)
  pub same_size : t.bitmap.size ≡ s.bitmap.size
  pub same_buffer : t.bitmap.buffer ≡ s.bitmap.buffer

-- The bit was at `v` already, or the index is out of range.
IsMarkedAs-stay :
    (v : Bool) (i : ℕ) (s : Frames) → (is_marked s i ≡ v) ⊎ (limit s < i) → IsMarkedAs v i s s
IsMarkedAs-stay v i s (inl e) = record {
  bits = λ j. ground (arith, e);
  same_size = refl;
  same_buffer = refl;
}
IsMarkedAs-stay v i s (inr h) = record {
  bits = λ j. ground arith;
  same_size = refl;
  same_buffer = refl;
}

IsMarkedAs-set :
    (v : Bool) (i : ℕ) (s t : Frames)
    → i ≤ limit s
    → t.bitmap ≡ (set s.bitmap i v).1
    → IsMarkedAs v i s t
IsMarkedAs-set v i s t h e = record {
  bits = λ j. rw (e, get-set s.bitmap i j v h) (ground arith);
  same_size = rw (e, size-set s.bitmap i v);
  same_buffer = rw (e, buffer-set s.bitmap i v);
}

-- What a move of one page between free and taken does to the three counters, and to the hint.
abbrev Moved : Bool → ℕ → Frames → Frames → Type 0
Moved true i s t =
    (u64 (t.used_memory + t.reserved_memory) ≡ u64 (s.used_memory + s.reserved_memory + 4096))
    × (u64 (t.free_memory + 4096) ≡ u64 s.free_memory)
    × (t.page_bitmap_index ≡ s.page_bitmap_index)
Moved false i s t =
    (u64 (t.used_memory + t.reserved_memory + 4096) ≡ u64 (s.used_memory + s.reserved_memory))
    × (u64 t.free_memory ≡ u64 (s.free_memory + 4096))
    × (t.page_bitmap_index ≡ lower_hint s.page_bitmap_index i)

-- An operation on page `i` either leaves everything alone, or moves the page.
pub data PageEffect (v : Bool) (i : ℕ) (s t : Frames) : Type 0 where
  stay : (is_marked s i ≡ v) ⊎ (limit s < i) → t ≡ s → PageEffect v i s t
  move :
      i ≤ limit s
      → is_marked s i ≡ not v
      → t.bitmap ≡ (set s.bitmap i v).1
      → Moved v i s t
      → PageEffect v i s t

pub PageEffect-IsMarkedAs :
    {v : Bool} {i : ℕ} {s t : Frames} → PageEffect v i s t → IsMarkedAs v i s t
PageEffect-IsMarkedAs {v} {i} {s} (stay h e) = rw e (IsMarkedAs-stay v i s h)
PageEffect-IsMarkedAs {v} {i} {s} {t} (move h free e m) = IsMarkedAs-set v i s t h e

-- The three ways through an operation: the page is there already, its index is refused, or it
-- moves.
PageEffect-cases :
    (v : Bool) (i : ℕ) (s t : Frames)
    → (is_marked s i ≡ v → t ≡ s)
    → (is_marked s i ≡ not v → set s.bitmap i v ≡ (false, s.bitmap) → t ≡ s)
    → (is_marked s i ≡ not v
        → (set s.bitmap i v).0 ≡ true
        → (t.bitmap ≡ (set s.bitmap i v).1) × Moved v i s t)
    → PageEffect v i s t
PageEffect-cases v i s t there refused moved = elim (same_or_not (is_marked s i) v) [
  | inl e ↦ stay (inl e) (there e)
  | inr ne ↦ elim (Bool-cases (ltb (limit s) i)) [
    | inl beyond ↦
        stay (inr (ltb→lt _ _ beyond))
          (refused ne (set_out_of_range s.bitmap i v (ltb→lt _ _ beyond)))
    | inr within ↦
        let now = moved ne (set-done s.bitmap i v (ltb→le _ _ within)) in
        move (ltb→le _ _ within) ne now.0 now.1
  ]
]
  where
    same_or_not : (a b : Bool) → (a ≡ b) ⊎ (a ≡ not b)
    same_or_not a b = ground arith

module _ (address : ℕ) (s : Frames) where
  pub lock_page-PageEffect : PageEffect true (address / 4096) s (lock_page address s)
  unfolding lock_page
  lock_page-PageEffect =
      PageEffect-cases true (address / 4096) s (lock_page address s) (λ e. rw e) (λ e f. rw (e, f))
        (λ e f. rw (e, f) (refl, omega arith))

  pub reserve_page-PageEffect : PageEffect true (address / 4096) s (reserve_page address s)
  unfolding reserve_page
  reserve_page-PageEffect =
      PageEffect-cases true (address / 4096) s (reserve_page address s) (λ e. rw e)
        (λ e f. rw (e, f)) (λ e f. rw (e, f) (refl, omega arith))

  pub free_page-PageEffect : PageEffect false (address / 4096) s (free_page address s)
  unfolding free_page
  free_page-PageEffect =
      PageEffect-cases false (address / 4096) s (free_page address s) (λ e. rw e) (λ e f. rw (e, f))
        (λ e f. rw (e, f) (refl, (omega arith, omega arith, refl)))

  pub unreserve_page-PageEffect : PageEffect false (address / 4096) s (unreserve_page address s)
  unfolding unreserve_page
  unreserve_page-PageEffect =
      PageEffect-cases false (address / 4096) s (unreserve_page address s) (λ e. rw e)
        (λ e f. rw (e, f)) (λ e f. rw (e, f) (refl, (omega arith, omega arith, refl)))
