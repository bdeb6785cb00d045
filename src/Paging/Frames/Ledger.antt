-- ===== src/Paging/Frames/Ledger.antt =====
-- The allocator's counters against its bitmap, over any sequence of calls.
use os_tk.Base.{
  ==→eq, ==→ne, ap, ℕ, zero, suc, ◌*◌, ◌≤◌, ◌<◌, ◌≡◌, refl, inl, inr, Bool, true, false, arith,
  ◌==◌, if◌then◌else◌, u64, ◌+◌, Bool-cases, not, List, [], ◌∷◌,
}
use os_tk.Paging.Frames.{
  Frames, free_page, lock_page, unreserve_page, reserve_page, request_page, request_loop,
}
use os_tk.Paging.Frames.Marks.{
  is_marked, limit, IsMarkedAs, PageEffect, stay, move, PageEffect-IsMarkedAs, lock_page-PageEffect,
  reserve_page-PageEffect, free_page-PageEffect, unreserve_page-PageEffect,
}

-- How many of the first `n` indices are marked.
unfoldable pub count : ℕ → (ℕ → Bool) → ℕ
count zero marked = 0
count (suc n) marked = count n marked + (if marked n then 1 else 0)

count_ext : (n : ℕ) (f g : ℕ → Bool) → ((j : ℕ) → g j ≡ f j) → count n g ≡ count n f
unfolding count
count_ext zero f g h = refl
count_ext (suc n) f g h = rw (count_ext n f g h, h n)

-- One index outside the count changes nothing.
pub count_same :
    (n i : ℕ) (v : Bool) (f g : ℕ → Bool)
    → n ≤ i
    → ((j : ℕ) → g j ≡ (if i == j then v else f j))
    → count n g ≡ count n f
unfolding count
count_same zero i v f g le h = refl
count_same (suc n) i v f g le h = ground (arith, count_same n i v f g (omega arith) h, h n)

-- One index inside it counts as its new value does.
pub count_update :
    (n i : ℕ) (v : Bool) (f g : ℕ → Bool)
    → i < n
    → ((j : ℕ) → g j ≡ (if i == j then v else f j))
    → count n g + (if f i then 1 else 0) ≡ count n f + (if v then 1 else 0)
unfolding count
count_update zero i v f g lt h = absurd (omega arith)
count_update (suc n) i v f g lt h = elim (Bool-cases (i == n)) [
  | inl last ↦
      let e : i ≡ n = ==→eq i n last in
      rw e (ground (arith, count_same n i v f g (omega arith) h, h n, ap f e))
  | inr before ↦ ground (arith, count_update n i v f g (omega (arith, ==→ne i n before)) h, h n)
]

-- The taken memory is 4096 bytes for each mark, up to the constant `base` that it started with,
-- and free and taken memory together stay `total`. The counters are 64-bit words.
pub record IsBalanced (base total : ℕ) (s : Frames) : Type 0 where
  pub taken :
      u64 (s.used_memory + s.reserved_memory)
      ≡ u64 (base + 4096 * count (suc (limit s)) (is_marked s))
  pub whole : u64 (s.free_memory + s.used_memory + s.reserved_memory) ≡ total

-- Every page below the allocator's hint is marked, so a search from the hint misses none.
abbrev pub IsHinted : Frames → Type 0
IsHinted s = (j : ℕ) → j < s.page_bitmap_index → j < limit s → is_marked s j ≡ true

module _ (base total : ℕ) {i : ℕ} {s t : Frames} where
  limit_same : {v : Bool} → IsMarkedAs v i s t → limit t ≡ limit s
  limit_same e = ap (λ n. u64 (n * 8)) e.same_size

  -- The marks of a move, counted.
  count_moved :
      (v : Bool)
      → i ≤ limit s
      → is_marked s i ≡ not v
      → IsMarkedAs v i s t
      → count (suc (limit t)) (is_marked t) + (if v then 0 else 1)
        ≡ count (suc (limit s)) (is_marked s) + (if v then 1 else 0)
  count_moved v h old e = rw (limit_same e) (
      ground (
        arith,
        old,
        count_update (suc (limit s)) i v (is_marked s) (is_marked t) (omega arith)
            (λ j. ground (arith, e.bits j)),
      ))

  PageEffect-IsBalanced :
      (v : Bool) → PageEffect v i s t → IsBalanced base total s → IsBalanced base total t
  PageEffect-IsBalanced v (stay h e) b = rw e b
  PageEffect-IsBalanced true (move h old e m) b = record {
    taken =
        omega
          (arith, b.taken, m.0, count_moved true h old (PageEffect-IsMarkedAs (move h old e m)));
    whole = omega (arith, b.whole, m.0, m.1);
  }
  PageEffect-IsBalanced false (move h old e m) b = record {
    taken =
        omega
          (arith, b.taken, m.0, count_moved false h old (PageEffect-IsMarkedAs (move h old e m)));
    whole = omega (arith, b.whole, m.0, m.1);
  }

  PageEffect-IsHinted : (v : Bool) → PageEffect v i s t → IsHinted s → IsHinted t
  PageEffect-IsHinted v (stay h e) b j below inside = ground (arith, e, b j)
  PageEffect-IsHinted true (move h old e m) b j below inside =
      let now = PageEffect-IsMarkedAs {s = s} {t = t} (move h old e m) in
      ground (arith, now.bits j, b j, limit_same now, m.2)
  PageEffect-IsHinted false (move h old e m) b j below inside =
      let now = PageEffect-IsMarkedAs {s = s} {t = t} (move h old e m) in
      ground (arith, now.bits j, b j, limit_same now, m.2)

-- The calls that a client makes on one page at a time.
pub data Call : Type 0 where
  lock unlock reserve unreserve : ℕ → Call
  request : Call

unfoldable pub perform : Call → Frames → Frames
perform (lock a) s = lock_page a s
perform (unlock a) s = free_page a s
perform (reserve a) s = reserve_page a s
perform (unreserve a) s = unreserve_page a s
perform request s = (request_page s).1

pub perform_all : List Call → Frames → Frames
perform_all [] s = s
perform_all (c ∷ cs) s = perform_all cs (perform c s)

-- `request_page` moves its hint past the marked pages, and then locks one page or none.
pub record IsSound (base total : ℕ) (s : Frames) : Type 0 where
  pub balanced : IsBalanced base total s
  pub hinted : IsHinted s

module _ (base total : ℕ) where
  IsSound-advance :
      (s : Frames)
      → is_marked s s.page_bitmap_index ≡ true
      → IsSound base total s
      → IsSound base total (record s { page_bitmap_index = s.page_bitmap_index + 1 })
  IsSound-advance s marked v = record {
    balanced = record { taken = v.balanced.taken; whole = v.balanced.whole };
    hinted = λ j below inside. elim (Bool-cases (j == s.page_bitmap_index)) [
      | inl here ↦ rw (==→eq j s.page_bitmap_index here) marked
      | inr before ↦ v.hinted j (omega (arith, ==→ne j s.page_bitmap_index before)) inside
    ];
  }

  PageEffect-IsSound :
      (v : Bool) {i : ℕ} {s t : Frames}
      → PageEffect v i s t
      → IsSound base total s
      → IsSound base total t
  PageEffect-IsSound v e h = record {
    balanced = PageEffect-IsBalanced base total v e h.balanced;
    hinted = PageEffect-IsHinted base total v e h.hinted;
  }

  request_loop-IsSound :
      (left : ℕ) (s : Frames) → IsSound base total s → IsSound base total (request_loop left s).1
  unfolding request_loop
  request_loop-IsSound zero s v = v
  request_loop-IsSound (suc left) s v = elim (Bool-cases (is_marked s s.page_bitmap_index)) [
    | inl marked ↦ rw marked (request_loop-IsSound left _ (IsSound-advance s marked v))
    | inr clear ↦ rw clear (PageEffect-IsSound true (lock_page-PageEffect _ s) v)
  ]

  pub perform-IsSound :
      (c : Call) (s : Frames) → IsSound base total s → IsSound base total (perform c s)
  unfolding perform request_page
  perform-IsSound (lock a) s v = PageEffect-IsSound true (lock_page-PageEffect a s) v
  perform-IsSound (unlock a) s v = PageEffect-IsSound false (free_page-PageEffect a s) v
  perform-IsSound (reserve a) s v = PageEffect-IsSound true (reserve_page-PageEffect a s) v
  perform-IsSound (unreserve a) s v = PageEffect-IsSound false (unreserve_page-PageEffect a s) v
  perform-IsSound request s v = request_loop-IsSound _ s v

  -- Any sequence of calls keeps the counters in step with the bitmap and the hint below every free
  -- page.
  pub perform_all-IsSound :
      (cs : List Call) (s : Frames) → IsSound base total s → IsSound base total (perform_all cs s)
  unfolding perform_all
  perform_all-IsSound [] s v = v
  perform_all-IsSound (c ∷ cs) s v = perform_all-IsSound cs (perform c s) (perform-IsSound c s v)
