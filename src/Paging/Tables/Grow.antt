-- ===== src/Paging/Tables/Grow.antt =====
-- A step down keeps the tree, whether it follows an entry or adds a table.
use os_tk.Base.{
  ℕ, suc, ◌*◌, ◌/◌, ◌%◌, ◌^◌, ◌<◌, ◌≡◌, ◌≢◌, refl, ap, true, false, arith, ltb, ◌==◌, if◌then◌else◌,
  u64, Bool-cases, inl, inr, ==→eq, ==→ne, sym, ◌∙◌, ltb→lt, ltb→le, ==-refl,
}
use mathlib.Core.Bool.{false≢true}
use os_tk.Paging.Entry.{present, get_flag, get_address}
use os_tk.Paging.Entry.Laws.{get_address-lt}
use os_tk.Paging.Frames.{Frames, request_page}
use os_tk.Paging.Frames.Marks.{is_marked}
use os_tk.Paging.Tables.{Mapper, slot, store_word, clear_page, point_to, next_table}
use os_tk.Paging.Tables.Supply.{
  CanGrant, request_page-IsGranted, get_flag-zero, point_to-present, get_address-point_to,
}
use os_tk.Paging.Tables.Tree.{Shape, target, IsTree, table_of, IsStep}

CanGrant-weaken :
    {base total n : ℕ} {f : Frames} → CanGrant base total (suc n) f → CanGrant base total n f
CanGrant-weaken c = record { sound = c.sound; small = c.small; spare = omega (arith, c.spare) }

module _ (base total pages n t i : ℕ) (g : Shape) (m : Mapper) (tree : IsTree g m)
    (at : g.level t ≡ suc (suc n)) (lt : i < 512) where
  -- The entry is there already.
  follow-IsStep :
      CanGrant base total (suc pages) m.frames
      → get_flag (m.words (slot t i)) present ≡ true
      → IsStep base total pages n t i g m (target (m.words (slot t i)), m)
  follow-IsStep c there = record {
    shape = g;
    tree = tree;
    grants = CanGrant-weaken c;
    same_root = refl;
    level = omega (arith, at, tree.child_level t i lt (omega (arith, at)) there);
    entered = there;
    leads = refl;
    same_level = λ x h. refl;
    same_words = λ a h k. refl;
  }

  module _ (k : ℕ) (frames : Frames) (clear : is_marked m.frames k ≡ false)
      (room : k * 4096 < 2 ^ 52)
      (marks : (j : ℕ) → is_marked frames j ≡ (if k == j then true else is_marked m.frames j)) where
    -- The memory and the shape with the new table `k * 4096`.
    grown : Mapper
    grown = record m {
      frames = frames;
      words =
          store_word (clear_page m.words (k * 4096)) (slot t i)
            (point_to (m.words (slot t i)) (k * 4096));
    }

    abbrev shape : Shape
    shape = record {
      level = λ x. if k * 4096 == x then suc n else g.level x;
      up = λ x. if k * 4096 == x then slot t i else g.up x;
    }

    -- The page was no table.
    fresh : g.level (k * 4096) ≡ 0
    fresh = elim (Bool-cases (ltb 0 (g.level (k * 4096)))) [
      | inl table ↦ absurd (
          false≢true (
            sym clear
            ∙ ap (is_marked m.frames) (omega arith)
            ∙ tree.taken (k * 4096) (ltb→lt _ _ table)))
      | inr none ↦ omega (arith, ltb→le _ _ none)
    ]

    ne_fresh : (x : ℕ) → 0 < g.level x → k * 4096 ≢ x
    ne_fresh x h e = omega (arith, fresh, ap g.level e)

    grown-slot : grown.words (slot t i) ≡ point_to (m.words (slot t i)) (k * 4096)
    unfolding grown
    grown-slot = rw (==-refl (slot t i))

    grown_elsewhere : (a : ℕ) → 0 < g.level (table_of a) → slot t i ≢ a → grown.words a ≡ m.words a
    unfolding grown
    grown_elsewhere a h ne =
        let apart : k * 4096 ≢ table_of a = ne_fresh (table_of a) h in ground arith

    grown_fresh : (j : ℕ) → j < 512 → grown.words (slot (k * 4096) j) ≡ 0
    unfolding grown
    grown_fresh j h =
        let apart : k * 4096 ≢ t = ne_fresh t (omega (arith, at)) in
        let whole : t % 4096 ≡ 0 = tree.aligned t (omega (arith, at)) in ground arith

    grown-target : target (grown.words (slot t i)) ≡ k * 4096
    grown-target =
        rw (grown-slot, get_address-point_to (m.words (slot t i)) (k * 4096) room) (omega arith)

    level_old : (x : ℕ) → 0 < g.level x → shape.level x ≡ g.level x
    level_old x h = let ne = ne_fresh x h in ground arith

    up_old : (x : ℕ) → 0 < g.level x → shape.up x ≡ g.up x
    up_old x h = let ne = ne_fresh x h in ground arith

    aligned_grown : (x : ℕ) → 0 < shape.level x → x % 4096 ≡ 0
    aligned_grown x h = elim (Bool-cases (k * 4096 == x)) [
      | inl new ↦ omega (arith, ==→eq _ _ new)
      | inr old ↦ tree.aligned x (rw old at h)
    ]

    -- The slot is the one that was filled.
    child_here :
        (x j : ℕ)
        → j < 512
        → 1 < shape.level x
        → slot t i ≡ slot x j
        → (suc (shape.level (target (grown.words (slot x j)))) ≡ shape.level x)
          × (shape.up (target (grown.words (slot x j))) ≡ slot x j)
    child_here x j h up e =
        let x_whole : x % 4096 ≡ 0 = aligned_grown x (omega (arith, up)) in
        let t_whole : t % 4096 ≡ 0 = tree.aligned t (omega (arith, at)) in
        let same : x ≡ t = omega (arith, e) in
        let old = level_old t (omega (arith, at)) in
        rw (← e, grown-target, same, ==-refl (k * 4096)) (omega (arith, old, at), refl)

    -- The slot is another one, of an old table.
    child_old :
        (x j : ℕ)
        → j < 512
        → 1 < g.level x
        → slot t i ≢ slot x j
        → get_flag (grown.words (slot x j)) present ≡ true
        → (suc (shape.level (target (grown.words (slot x j)))) ≡ shape.level x)
          × (shape.up (target (grown.words (slot x j))) ≡ slot x j)
    child_old x j h up ne there =
        let base_x : table_of (slot x j) ≡ x = omega (arith, tree.aligned x (omega (arith, up))) in
        let word = grown_elsewhere (slot x j) (rw base_x (omega (arith, up))) ne in
        let there' : get_flag (m.words (slot x j)) present ≡ true = rw word at there in
        let below = tree.child_level x j h up there' in
        let old = level_old x (omega (arith, up)) in
        let child = level_old (target (m.words (slot x j))) (omega (arith, below, up)) in
        let above = up_old (target (m.words (slot x j))) (omega (arith, below, up)) in
        rw word (omega (arith, below, old, child), above ∙ tree.child_up x j h up there')

    child_grown :
        (x j : ℕ)
        → j < 512
        → 1 < shape.level x
        → get_flag (grown.words (slot x j)) present ≡ true
        → (suc (shape.level (target (grown.words (slot x j)))) ≡ shape.level x)
          × (shape.up (target (grown.words (slot x j))) ≡ slot x j)
    child_grown x j h up there = elim (Bool-cases (slot t i == slot x j)) [
      | inl here ↦ child_here x j h up (==→eq _ _ here)
      | inr other ↦ elim (Bool-cases (k * 4096 == x)) [
        | inl new ↦ absurd (
            false≢true (
              sym get_flag-zero
              ∙ ap (λ w. get_flag w present) (sym (grown_fresh j h))
              ∙ ap (λ y. get_flag (grown.words (slot y j)) present) (==→eq _ _ new)
              ∙ there))
        | inr old ↦ child_old x j h (rw old at up) (==→ne _ _ other) there
      ]
    ]

    grown-IsTree : IsTree shape grown
    unfolding grown
    grown-IsTree = record {
      root = level_old m.page_table_map4 (omega (arith, tree.root)) ∙ tree.root;
      aligned = aligned_grown;
      taken = λ x h. elim (Bool-cases (k * 4096 == x)) [
        | inl new ↦
            let e : k ≡ x / 4096 = omega (arith, ==→eq _ _ new) in ground (arith, marks (x / 4096))
        | inr old ↦ ground (arith, marks (x / 4096), tree.taken x (rw old at h))
      ];
      child_level = λ x j h up there. (child_grown x j h up there).0;
      child_up = λ x j h up there. (child_grown x j h up there).1;
    }

    grow-IsStep :
        CanGrant base total pages frames
        → get_flag (m.words (slot t i)) present ≡ false
        → IsStep base total pages n t i g m (k * 4096, grown)
    grow-IsStep c absent = record {
      shape = shape;
      tree = grown-IsTree;
      grants = unfold grown in c;
      same_root = unfold grown in refl;
      level = rw (==-refl (k * 4096));
      entered = rw grown-slot (point_to-present (m.words (slot t i)) (k * 4096));
      leads = grown-target;
      same_level = level_old;
      same_words = λ a h same.
          grown_elsewhere a h (λ e.
            false≢true (sym absent ∙ ap (λ b. get_flag (m.words b) present) e ∙ same (sym e)));
    }

  -- `MapMemory`'s step down from a table of the tree, with a page to spare.
  pub next_table-IsStep :
      CanGrant base total (suc pages) m.frames
      → IsStep base total pages n t i g m (next_table t i m)
  unfolding next_table grown
  next_table-IsStep c = elim (Bool-cases (get_flag (m.words (slot t i)) present)) [
    | inl there ↦
        let word : u64 (get_address (m.words (slot t i)) * 2 ^ 12) ≡ target (m.words (slot t i)) =
          omega (arith, get_address-lt (m.words (slot t i))) in
        rw (there, word) (follow-IsStep c there)
    | inr absent ↦
        let got = request_page-IsGranted base total pages m.frames c in
        let room : got.page * 4096 < 2 ^ 52 = omega (arith, got.below, c.small) in
        rw (absent, got.address)
          (grow-IsStep got.page (request_page m.frames).1 got.was_free room
            (λ j. ground (arith, got.marks.bits j, got.below)) got.rest absent)
  ]
