-- ===== src/Memory/Heap/Backing.antt =====
-- The pages behind the heap.
use os_tk.Base.{
  Bool, if◌then◌else◌, ℕ, zero, suc, ◌+◌, ◌-◌, ◌*◌, ◌/◌, ◌%◌, ◌^◌, ◌≤◌, ◌<◌, ◌≡◌, ◌≢◌, ◌⊎◌, refl,
  sym, subst, ap, ◌∙◌, inl, inr, some, arith, true, false, ltb, Bool-cases, ltb→lt, ltb→le, u64,
  ==-refl,
}
use os_tk.Memory.Heap.{map_pages}
use os_tk.Paging.Frames.{Frames, request_page}
use os_tk.Paging.Frames.Marks.{is_marked}
use os_tk.Paging.Frames.Kept.{StaysMarked, request_page-StaysMarked}
use os_tk.Paging.Tables.{Mapper, map_memory}
use os_tk.Paging.Tables.Supply.{CanGrant, request_page-IsGranted}
use os_tk.Paging.Tables.Tree.{Shape, IsTree}
use os_tk.Paging.Tables.Route.{translate}
use os_tk.Paging.Tables.Kept.{map_memory-StaysMarked, IsTree-request}
use os_tk.Paging.Tables.Range.{
  HasTable, HasTable-next, no_table, same_table, needed, needed-suc, needed-bound, tables_of,
  CanGrant-le, map_memory_ready-IsMapped,
}

-- Between `m` and `m'`, `left` pages from `position` on were mapped, each to a page of its own that
-- was free, and no other translation of an address below 2 ^ 48 has changed; the tables are a tree, and `spare` pages
-- are left.
pub record IsBacked (base total spare left position : ℕ) (m m' : Mapper) : Type 0 where
  pub frame : ℕ → ℕ
  pub maps :
      (u : ℕ)
      → position ≤ u
      → u < position + left * 4096
      → translate m'.words m.page_table_map4 u
        ≡ some (frame ((u - position) / 4096) * 4096 + u % 4096)
  pub was_free : (j : ℕ) → j < left → is_marked m.frames (frame j) ≡ false
  pub is_taken : (j : ℕ) → j < left → is_marked m'.frames (frame j) ≡ true
  pub apart : (i j : ℕ) → i < j → j < left → frame i ≢ frame j
  pub kept :
      (u x : ℕ)
      → u < 2 ^ 48
      → (u < position) ⊎ (position + left * 4096 ≤ u)
      → translate m.words m.page_table_map4 u ≡ some x
      → translate m'.words m.page_table_map4 u ≡ some x
  pub shape : Shape
  pub tree : IsTree shape m'
  pub grants : CanGrant base total spare m'.frames
  pub same_root : m'.page_table_map4 ≡ m.page_table_map4

abbrev before : ℕ → (ℕ → ℕ) → ℕ → ℕ
before k frame zero = k
before k frame (suc j) = frame j

free_before :
    (s t : Frames) → StaysMarked s t → (k : ℕ) → is_marked t k ≡ false → is_marked s k ≡ false
free_before s t stays k free = elim (Bool-cases (is_marked s k)) [
  | inl marked ↦ absurd (ground (arith, stays k marked, free))
  | inr clear ↦ clear
]

-- One page, and those behind it.
IsBacked-next :
    (base total spare left position k : ℕ) (m m2 m' : Mapper)
    → position + suc left * 4096 ≤ 2 ^ 48
    → StaysMarked m.frames m2.frames
    → is_marked m.frames k ≡ false
    → is_marked m2.frames k ≡ true
    → is_marked m'.frames k ≡ true
    → m2.page_table_map4 ≡ m.page_table_map4
    → ((u : ℕ)
        → position ≤ u
        → u < position + 4096
        → translate m2.words m.page_table_map4 u ≡ some (k * 4096 + u % 4096))
    → ((u x : ℕ)
        → u < 2 ^ 48
        → (u < position) ⊎ (position + 4096 ≤ u)
        → translate m.words m.page_table_map4 u ≡ some x
        → translate m2.words m.page_table_map4 u ≡ some x)
    → IsBacked base total spare left (position + 4096) m2 m'
    → IsBacked base total spare (suc left) position m m'
IsBacked-next base total spare left position k m m2 m' small stays free marked at_end root here away
      r =
    record {
      frame = before k r.frame;
      maps = λ u from to. elim (Bool-cases (ltb u (position + 4096))) [
        | inl first ↦
            let inside = ltb→lt _ _ first in
            let low : u < 2 ^ 48 = omega (arith, inside, small) in
            let index : (u - position) / 4096 ≡ 0 = omega (arith, from, inside) in
            rw index (
              subst (λ t. translate m'.words t u ≡ some (k * 4096 + u % 4096)) root
                (r.kept u (k * 4096 + u % 4096) low (inl inside) (
                  subst (λ t. translate m2.words t u ≡ some (k * 4096 + u % 4096)) (sym root)
                    (here u from inside))))
        | inr later ↦
            let above = ltb→le _ _ later in
            let below : u < position + 4096 + left * 4096 = omega (arith, to) in
            let index : (u - position) / 4096 ≡ suc ((u - (position + 4096)) / 4096) =
              omega (arith, above) in
            rw index (
              subst
                (λ t.
                  translate m'.words t u
                  ≡ some (r.frame ((u - (position + 4096)) / 4096) * 4096 + u % 4096))
                root (r.maps u above below))
      ];
      was_free = first_free;
      is_taken = first_taken;
      apart = all_apart;
      kept = λ u x low outside e.
          let one = away u x low (ground (arith, outside)) e in
          subst (λ t. translate m'.words t u ≡ some x) root
            (r.kept u x low (ground (arith, outside))
              (subst (λ t. translate m2.words t u ≡ some x) (sym root) one));
      shape = r.shape;
      tree = r.tree;
      grants = r.grants;
      same_root = r.same_root ∙ root;
    }
  where
    first_free : (j : ℕ) → j < suc left → is_marked m.frames (before k r.frame j) ≡ false
    first_free zero lt = free
    first_free (suc j) lt =
        free_before m.frames m2.frames stays (r.frame j) (r.was_free j (omega (arith, lt)))

    first_taken : (j : ℕ) → j < suc left → is_marked m'.frames (before k r.frame j) ≡ true
    first_taken zero lt = at_end
    first_taken (suc j) lt = r.is_taken j (omega (arith, lt))

    all_apart : (i j : ℕ) → i < j → j < suc left → before k r.frame i ≢ before k r.frame j
    all_apart i zero less lt e = absurd (omega (arith, less))
    all_apart zero (suc j) less lt e =
        let clear = r.was_free j (omega (arith, lt)) in
        let both : true ≡ false = sym marked ∙ ap (is_marked m2.frames) e ∙ clear in
        absurd (ground (arith, both))
    all_apart (suc i) (suc j) less lt e = r.apart i j (omega (arith, less)) (omega (arith, lt)) e

map_pages-StaysMarked :
    (left position : ℕ) (m : Mapper) → StaysMarked m.frames (map_pages left position m).frames
unfolding map_pages
map_pages-StaysMarked zero position m k marked = marked
map_pages-StaysMarked (suc left) position m k marked =
    let r = request_page m.frames in
    let m1 : Mapper = record m { frames = r.1 } in
    map_pages-StaysMarked left (u64 (position + 0x1000)) (map_memory position r.0 m1) k
      (map_memory-StaysMarked position r.0 m1 k (request_page-StaysMarked m.frames k marked))

module _ (base total spare : ℕ) where
  map_pages_ready-IsBacked :
      (ready : Bool) (left position : ℕ) (g : Shape) (m : Mapper)
      → IsTree g m
      → CanGrant base total (needed suc ready left position spare) m.frames
      → HasTable ready position m
      → position % 4096 ≡ 0
      → position + left * 4096 ≤ 2 ^ 48
      → IsBacked base total spare left position m (map_pages left position m)
  unfolding map_pages
  map_pages_ready-IsBacked ready zero position g m tree pages there whole small = record {
    frame = λ j. j;
    maps = λ u from to. absurd (omega (arith, from, to));
    was_free = λ j lt. absurd (omega (arith, lt));
    is_taken = λ j lt. absurd (omega (arith, lt));
    apart = λ i j less lt e. absurd (omega (arith, lt));
    kept = λ u x low outside e. e;
    shape = g;
    tree = tree;
    grants = pages;
    same_root = refl;
  }
  map_pages_ready-IsBacked ready (suc left) position g m tree pages there whole small =
      let r = request_page m.frames in
      let m1 : Mapper = record m { frames = r.1 } in
      let rest = needed suc (same_table position) left (position + 4096) spare in
      let n = if ready then rest else suc (suc (suc rest)) in
      let granted = request_page-IsGranted base total n m.frames pages in
      let k = granted.page in
      let room : r.0 < 2 ^ 52 = omega (arith, granted.address, granted.below, pages.small) in
      let one =
        map_memory_ready-IsMapped base total rest g m1 ready (IsTree-request g m tree) granted.rest
          position r.0 room there in
      let m2 = map_memory position r.0 m1 in
      let next : u64 (position + 0x1000) ≡ position + 4096 = omega (arith, small) in
      let marked : is_marked m1.frames k ≡ true =
        ground (arith, granted.marks.bits k, granted.below, ==-refl k) in
      let taken = map_memory-StaysMarked position r.0 m1 k marked in
      rw next (
        IsBacked-next base total spare left position k m m2 (map_pages left (position + 4096) m2)
          small
          (λ j is.
            map_memory-StaysMarked position r.0 m1 j (request_page-StaysMarked m.frames j is))
          granted.was_free taken (map_pages-StaysMarked left (position + 4096) m2 k taken)
          one.same_root
          (λ u from to.
            one.maps u (omega (arith, whole, from, to))
            ∙ ap (λ a. some (a + u % 4096)) (omega (arith, granted.address)))
          (λ u x low outside e.
            one.keeps u x (λ same. ground (arith, outside, same, whole, low, small)) e)
          (map_pages_ready-IsBacked (same_table position) left (position + 4096) one.shape m2
            one.tree one.grants (HasTable-next position one.table m2 whole one.route)
            (omega (arith, whole)) (omega (arith, small))))

  pub map_pages-IsBacked :
      (left position : ℕ) (g : Shape) (m : Mapper)
      → IsTree g m
      → CanGrant base total (left + (spare + 3 * tables_of left position)) m.frames
      → position % 4096 ≡ 0
      → position + left * 4096 ≤ 2 ^ 48
      → IsBacked base total spare left position m (map_pages left position m)
  map_pages-IsBacked left position g m tree pages whole small =
      let enough : needed suc false left position spare
          ≤ left + (spare + 3 * tables_of left position) =
        omega
          (arith, needed-suc false left position spare, needed-bound left position spare whole) in
      map_pages_ready-IsBacked false left position g m tree (CanGrant-le enough pages)
        (no_table position m) whole small
