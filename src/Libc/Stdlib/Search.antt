-- ===== src/Libc/Stdlib/Search.antt =====
-- `bsearch` on sorted members. The search is proved on numbers without a bound, and the code's words
-- agree with it where they do not wrap round.
use os_tk.Base.{
  ℕ, zero, suc, ◌+◌, ◌-◌, ◌*◌, ◌/◌, ◌^◌, ◌<◌, ◌≤◌, ◌≡◌, ◌≢◌, ◌⊎◌, refl, ap, ◌∙◌, true, false, ◌==◌,
  ltb, u32, u64, if◌then◌else◌, arith, Option, none, some, Bool-cases, inl, inr, ==→eq, ==→ne,
}
use native.Mathlib.Nat.{add-mul, one-mul, pow-suc}
use os_tk.Libc.Bytes.{null, ltb_int, at_int}
use os_tk.Libc.Stdlib.{half_int, bsearch_loop, bsearch}

-- The search over numbers.
search : ℕ → (comparison : ℕ → ℕ) → (size base limit : ℕ) → Option ℕ
search zero comparison size base limit = none
search (suc fuel) comparison size base limit =
    let pointer = base + limit / 2 * size in
    let cmp = comparison pointer in
    let right = search fuel comparison size (pointer + size) ((limit - 1) / 2) in
    let left = search fuel comparison size base (limit / 2) in
    if limit == 0
    then some null
    else if cmp == 0
    then some pointer
    else if ltb_int 0 cmp
    then right
    else left

bsearch_loop-search :
    (fuel : ℕ) (comparison : ℕ → ℕ) (size base limit : ℕ)
    → limit < 2 ^ 31
    → base + limit * size < 2 ^ 64
    → bsearch_loop fuel comparison size base limit ≡ search fuel comparison size base limit
unfolding bsearch_loop search
bsearch_loop-search zero comparison size base limit small fits = refl
bsearch_loop-search (suc fuel) comparison size base limit small fits =
    elim (Bool-cases (limit == 0)) [
      | inl empty ↦ rw empty refl
      | inr some_left ↦
          let half : half_int limit ≡ limit / 2 = ground (arith, small) in
          let less : half_int (u32 (limit + (2 ^ 32 - 1))) ≡ (limit - 1) / 2 =
            ground (arith, small, some_left) in
          let nonneg : at_int 0 (limit / 2) ≡ limit / 2 = ground (arith, small) in
          let k = limit / 2 in
          let j = (limit - 1) / 2 in
          let parts : limit ≡ k + 1 + j = ground (arith, some_left) in
          let whole : limit * size ≡ k * size + size + j * size =
            ap (λ l. l * size) parts
            ∙ omega (arith, add-mul (k + 1) j size, add-mul k 1 size, one-mul size) in
          let pointer : u64 (base + k * size) ≡ base + k * size = omega (arith, fits, whole) in
          let next : u64 (base + k * size + size) ≡ base + k * size + size =
            omega (arith, fits, whole) in
          let right =
            bsearch_loop-search fuel comparison size (base + k * size + size) j
              (omega (arith, small)) (omega (arith, fits, whole)) in
          let left =
            bsearch_loop-search fuel comparison size base k (omega (arith, small))
              (omega (arith, fits, whole)) in
          rw (some_left, half, less, nonneg, pointer, next, right, left) refl
    ]

module _ (comparison : ℕ → ℕ) (base size : ℕ) where
  -- The comparison of the key with member `i`.
  abbrev pub at : ℕ → ℕ
  at i = comparison (base + i * size)

  -- The first `n` members are in order: the key is above a member only if it is above all before
  -- it, and below a member only if it is below all behind it.
  pub record IsSorted (n : ℕ) : Type 0 where
    pub is_int : (i : ℕ) → i < n → at i < 2 ^ 32
    pub above : (i j : ℕ) → i < j → j < n → ltb_int 0 (at j) ≡ true → ltb_int 0 (at i) ≡ true
    pub below : (i j : ℕ) → i < j → j < n → ltb_int (at i) 0 ≡ true → ltb_int (at j) 0 ≡ true

  -- A member that compares equal, of those from `lo` to below `hi`; or NULL if there is none.
  pub data SearchResult (lo hi : ℕ) (r : Option ℕ) : Type 0 where
    hit : (i : ℕ) → lo ≤ i → i < hi → r ≡ some (base + i * size) → at i ≡ 0 → SearchResult lo hi r
    missing : r ≡ some null → ((i : ℕ) → lo ≤ i → i < hi → at i ≢ 0) → SearchResult lo hi r

  widen :
      (lo hi lo' hi' : ℕ) (r : Option ℕ)
      → lo ≤ lo'
      → hi' ≤ hi
      → ((i : ℕ) → lo ≤ i → i < hi → (i < lo') ⊎ (hi' ≤ i) → at i ≢ 0)
      → SearchResult lo' hi' r
      → SearchResult lo hi r
  widen lo hi lo' hi' r a b out (hit i p q e z) = hit i (omega arith) (omega arith) e z
  widen lo hi lo' hi' r a b out (missing e none_in) = missing e (λ i p q.
      elim (Bool-cases (ltb i lo')) [
        | inl before ↦ out i p q (inl (ground arith))
        | inr from ↦ elim (Bool-cases (ltb i hi')) [
          | inl within ↦ none_in i (ground arith) (ground arith)
          | inr behind ↦ out i p q (inr (ground arith))
        ]
      ])

  -- One round at member `m`, which stands in the middle of what is left.
  abbrev next_round : (fuel lo limit m : ℕ) → Option ℕ
  next_round fuel lo limit m =
      if at m == 0
      then some (base + m * size)
      else if ltb_int 0 (at m)
      then search fuel comparison size (base + (m + 1) * size) ((limit - 1) / 2)
      else search fuel comparison size (base + lo * size) (limit / 2)

  nothing_left : (fuel lo : ℕ) → search (suc fuel) comparison size (base + lo * size) 0 ≡ some null
  unfolding search
  nothing_left fuel lo = refl

  search_step :
      (fuel lo limit : ℕ)
      → (limit == 0) ≡ false
      → search (suc fuel) comparison size (base + lo * size) limit
        ≡ next_round fuel lo limit (lo + limit / 2)
  unfolding search
  search_step fuel lo limit some_left =
      let middle : base + lo * size + limit / 2 * size ≡ base + (lo + limit / 2) * size =
        omega (arith, add-mul lo (limit / 2) size) in
      let behind : base + lo * size + limit / 2 * size + size ≡ base + (lo + limit / 2 + 1) * size =
        omega (arith, middle, add-mul (lo + limit / 2) 1 size, one-mul size) in
      rw some_left (
        ap
          (λ q.
            if comparison (base + lo * size + limit / 2 * size) == 0
            then some (base + lo * size + limit / 2 * size)
            else if ltb_int 0 (comparison (base + lo * size + limit / 2 * size))
            then search fuel comparison size q ((limit - 1) / 2)
            else search fuel comparison size (base + lo * size) (limit / 2))
          behind
        ∙ ap
            (λ p.
              if comparison p == 0
              then some p
              else if ltb_int 0 (comparison p)
              then search fuel comparison size (base + (lo + limit / 2 + 1) * size)
                  ((limit - 1) / 2)
              else search fuel comparison size (base + lo * size) (limit / 2))
            middle)

  module _ (n : ℕ) (sorted : IsSorted n) where
    above_ne : (m i : ℕ) → m < n → i ≤ m → ltb_int 0 (at m) ≡ true → at i ≢ 0
    above_ne m i lt le up z = elim (Bool-cases (i == m)) [
      | inl same ↦ ground (arith, ap at (==→eq i m same))
      | inr other ↦ ground (arith, sorted.above i m (omega (arith, ==→ne i m other)) lt up)
    ]

    below_ne : (m i : ℕ) → i < n → m ≤ i → (at m == 0) ≡ false → ltb_int 0 (at m) ≡ false → at i ≢ 0
    below_ne m i lt le nonzero down z =
        let negative : ltb_int (at m) 0 ≡ true = ground (arith, sorted.is_int m (omega arith)) in
        elim (Bool-cases (m == i)) [
          | inl same ↦ ground (arith, ap at (==→eq m i same))
          | inr other ↦
              ground (arith, sorted.below m i (omega (arith, ==→ne m i other)) lt negative)
        ]

    round-SearchResult :
        (fuel lo limit : ℕ)
        → limit < 2 ^ suc fuel
        → lo + limit ≤ n
        → (limit == 0) ≡ false
        → ((lo' limit' : ℕ)
            → limit' < 2 ^ fuel
            → lo' + limit' ≤ n
            → SearchResult lo'
                (lo' + limit')
                (search (suc fuel) comparison size (base + lo' * size) limit'))
        → SearchResult lo (lo + limit) (next_round (suc fuel) lo limit (lo + limit / 2))
    round-SearchResult fuel lo limit small fit some_left rest =
        let m = lo + limit / 2 in
        let inside : m < lo + limit = ground arith in
        let double = pow-suc 2 fuel in
        elim (Bool-cases (at m == 0)) [
          | inl equal ↦ rw equal (hit m (omega arith) inside refl (==→eq _ _ equal))
          | inr differs ↦ elim (Bool-cases (ltb_int 0 (at m))) [
            | inl up ↦
                rw (differs, up)
                  (widen lo (lo + limit) (m + 1) (m + 1 + (limit - 1) / 2) _ (omega arith)
                    (ground arith) (λ i p q side. above_ne m i (omega arith) (ground arith) up)
                    (rest (m + 1) ((limit - 1) / 2) (omega (arith, double)) (ground arith)))
            | inr down ↦
                rw (differs, down)
                  (widen lo (lo + limit) lo m _ (omega arith) (omega arith)
                    (λ i p q side. below_ne m i (omega arith) (ground arith) differs down)
                    (rest lo (limit / 2) (omega (arith, double)) (omega arith)))
          ]
        ]

    search-SearchResult :
        (fuel lo limit : ℕ)
        → limit < 2 ^ fuel
        → lo + limit ≤ n
        → SearchResult lo (lo + limit) (search (suc fuel) comparison size (base + lo * size) limit)
    search-SearchResult zero lo limit small fit =
        let none_left : limit ≡ 0 = omega arith in
        rw (none_left, nothing_left zero lo) (missing refl (λ i p q. absurd (omega arith)))
    search-SearchResult (suc fuel) lo limit small fit = elim (Bool-cases (limit == 0)) [
      | inl empty ↦
          rw (==→eq _ _ empty, nothing_left (suc fuel) lo)
            (missing refl (λ i p q. absurd (omega arith)))
      | inr some_left ↦
          rw (search_step (suc fuel) lo limit some_left)
            (round-SearchResult fuel lo limit small fit some_left (search-SearchResult fuel))
    ]

  -- `bsearch` on sorted members, fewer than 2 ^ 31 and within the address space, returns a member
  -- that compares equal, or NULL if none does. A fuel one above the binary digits of their number is
  -- enough.
  pub bsearch-SearchResult :
      (fuel n : ℕ)
      → IsSorted n
      → n < 2 ^ 31
      → base + n * size < 2 ^ 64
      → n < 2 ^ fuel
      → SearchResult 0 n (bsearch (suc fuel) comparison base n size)
  unfolding bsearch
  bsearch-SearchResult fuel n sorted int fits small =
      let start : base + 0 * size ≡ base = omega arith in
      let whole : 0 + n ≡ n = omega arith in
      let word : u32 n ≡ n = omega (arith, int) in
      rw (word, bsearch_loop-search (suc fuel) comparison size base n int fits)
        (rw (start, whole) at (search-SearchResult n sorted fuel 0 n small (omega arith)))
