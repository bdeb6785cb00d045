-- ===== src/Core/Start/Identity.antt =====
-- The identity map that `InitMemory` builds.
use os_tk.Base.{
  ℕ, zero, suc, ◌+◌, ◌*◌, ◌/◌, ◌%◌, ◌^◌, ◌≤◌, ◌<◌, ◌≡◌, ◌⊎◌, refl, sym, subst, ap, ◌∙◌, inl, inr,
  some, arith, Bool, false, ltb, Bool-cases, ltb→lt, ltb→le, u64,
}
use os_tk.Core.Start.{map_identity}
use os_tk.Paging.Tables.{Mapper, map_memory}
use os_tk.Paging.Tables.Supply.{CanGrant}
use os_tk.Paging.Tables.Tree.{Shape, IsTree}
use os_tk.Paging.Tables.Route.{translate}
use os_tk.Paging.Tables.LastStep.{IsMapped}
use os_tk.Paging.Tables.Range.{
  HasTable, HasTable-next, same_table, needed, needed-bound, no_table, tables_of, CanGrant-le,
  map_memory_ready-IsMapped,
}

-- Between `m` and `m'`, `left` pages from `i` on were mapped to themselves, and no other translation
-- of an address below 2 ^ 48 has changed; the tables are a tree, and `spare` pages are left.
pub record IsDirect (base total spare left i : ℕ) (m m' : Mapper) : Type 0 where
  pub maps : (u : ℕ) → i ≤ u → u < i + left * 4096 → translate m'.words m.page_table_map4 u ≡ some u
  pub keeps :
      (u x : ℕ)
      → u < 2 ^ 48
      → (u < i) ⊎ (i + left * 4096 ≤ u)
      → translate m.words m.page_table_map4 u ≡ some x
      → translate m'.words m.page_table_map4 u ≡ some x
  pub shape : Shape
  pub tree : IsTree shape m'
  pub grants : CanGrant base total spare m'.frames
  pub same_root : m'.page_table_map4 ≡ m.page_table_map4

module _ (base total spare : ℕ) where
  IsDirect-next :
      (left i n : ℕ) (m m2 m' : Mapper)
      → i % 4096 ≡ 0
      → i + suc left * 4096 ≤ 2 ^ 48
      → IsMapped base total n i i m m2
      → IsDirect base total spare left (i + 4096) m2 m'
      → IsDirect base total spare (suc left) i m m'
  IsDirect-next left i n m m2 m' whole small one r = record {
    maps = λ u from to. elim (Bool-cases (ltb u (i + 4096))) [
      | inl first ↦
          let inside = ltb→lt _ _ first in
          let low : u < 2 ^ 48 = omega (arith, inside, small) in
          let at_itself : i / 2 ^ 12 * 2 ^ 12 + u % 2 ^ 12 ≡ u =
            omega (arith, from, inside, whole) in
          subst (λ t. translate m'.words t u ≡ some u) one.same_root
            (r.keeps u u low (inl inside) (
              subst (λ t. translate m2.words t u ≡ some u) (sym one.same_root)
                (one.maps u (omega (arith, from, inside, whole)) ∙ ap some at_itself)))
      | inr later ↦
          let below : u < i + 4096 + left * 4096 = omega (arith, to) in
          subst (λ t. translate m'.words t u ≡ some u) one.same_root
            (r.maps u (ltb→le _ _ later) below)
    ];
    keeps = λ u x low outside e.
        let here = one.keeps u x (λ same. ground (arith, outside, same, whole, low, small)) e in
        subst (λ t. translate m'.words t u ≡ some x) one.same_root
          (r.keeps u x low (ground (arith, outside))
            (subst (λ t. translate m2.words t u ≡ some x) (sym one.same_root) here));
    shape = r.shape;
    tree = r.tree;
    grants = r.grants;
    same_root = r.same_root ∙ one.same_root;
  }

  map_identity_ready-IsDirect :
      (ready : Bool) (left i : ℕ) (g : Shape) (m : Mapper)
      → IsTree g m
      → CanGrant base total (needed (λ n. n) ready left i spare) m.frames
      → HasTable ready i m
      → i % 4096 ≡ 0
      → i + left * 4096 ≤ 2 ^ 48
      → IsDirect base total spare left i m (map_identity left i m)
  unfolding map_identity
  map_identity_ready-IsDirect ready zero i g m tree pages there whole small = record {
    maps = λ u from to. absurd (omega (arith, from, to));
    keeps = λ u x low outside e. e;
    shape = g;
    tree = tree;
    grants = pages;
    same_root = refl;
  }
  map_identity_ready-IsDirect ready (suc left) i g m tree pages there whole small =
      let n = needed (λ n. n) (same_table i) left (i + 4096) spare in
      let room : i < 2 ^ 52 = omega (arith, small) in
      let one = map_memory_ready-IsMapped base total n g m ready tree pages i i room there in
      let m2 = map_memory i i m in
      let next : u64 (i + 0x1000) ≡ i + 4096 = omega (arith, small) in
      let rest =
        map_identity_ready-IsDirect (same_table i) left (i + 4096) one.shape m2 one.tree one.grants
          (HasTable-next i one.table m2 whole one.route) (omega (arith, whole))
          (omega (arith, small)) in
      rw next (IsDirect-next left i n m m2 (map_identity left (i + 4096) m2) whole small one rest)

  pub map_identity-IsDirect :
      (left i : ℕ) (g : Shape) (m : Mapper)
      → IsTree g m
      → CanGrant base total (spare + 3 * tables_of left i) m.frames
      → i % 4096 ≡ 0
      → i + left * 4096 ≤ 2 ^ 48
      → IsDirect base total spare left i m (map_identity left i m)
  map_identity-IsDirect left i g m tree pages whole small =
      map_identity_ready-IsDirect false left i g m tree
        (CanGrant-le (needed-bound left i spare whole) pages) (no_table i m) whole small

  -- The loop that maps page after page to itself, from a page's address on and below 2 ^ 48, makes
  -- the processor find every address of these pages at itself. The tables are a tree, and the
  -- allocator can grant three pages for each block of 2 ^ 21 bytes that they touch.
  map_identity-translate :
      (left i : ℕ) (g : Shape) (m : Mapper)
      → IsTree g m
      → CanGrant base total (spare + 3 * tables_of left i) m.frames
      → i % 4096 ≡ 0
      → i + left * 4096 ≤ 2 ^ 48
      → (u : ℕ) → i ≤ u
      → u < i + left * 4096
      → translate (map_identity left i m).words m.page_table_map4 u ≡ some u
  map_identity-translate left i g m tree pages whole small =
      (map_identity-IsDirect left i g m tree pages whole small).maps
