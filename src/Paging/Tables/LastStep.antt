-- ===== src/Paging/Tables/LastStep.antt =====
-- The last step of `MapMemory`, and what it keeps of the routes.
use os_tk.Base.{
  ℕ, ◌+◌, ◌*◌, ◌/◌, ◌%◌, ◌^◌, ◌<◌, ◌≡◌, ◌≢◌, ap, false, arith, ◌==◌, sym, ◌∙◌, ==-refl, ne→==, some,
  subst,
}
use os_tk.Paging.Entry.Laws.{init_page_map_index_walk}
use os_tk.Paging.Tables.{Mapper, slot, point_to, map_page, map_memory}
use os_tk.Paging.Tables.Supply.{CanGrant, point_to-present, get_address-point_to}
use os_tk.Paging.Tables.Tree.{Shape, IsTree}
use os_tk.Paging.Tables.Route.{translate, Route, translate-Route, translate-Walked}
use os_tk.Paging.Tables.Steps.{Prepared, three_steps}
use os_tk.Paging.Tables.Walk.{Route-Levels, Route-unique, slot_inj, Leads-store}

-- The base-512 digits of the page of `v`, the highest first.
abbrev pub digits : ℕ → ℕ × ℕ × ℕ × ℕ
digits v = (v / 2 ^ 39 % 512, v / 2 ^ 30 % 512, v / 2 ^ 21 % 512, v / 2 ^ 12 % 512)

abbrev pub steps_to : ℕ → Mapper → ℕ × Mapper
steps_to v m = three_steps (digits v).0 (digits v).1 (digits v).2 m

-- What a call that maps the page of `v` to that of `physical` does.
pub record IsMapped (base total spare v physical : ℕ) (m m' : Mapper) : Type 0 where
  pub maps :
      (u : ℕ)
      → u / 2 ^ 12 % 2 ^ 36 ≡ v / 2 ^ 12 % 2 ^ 36
      → translate m'.words m.page_table_map4 u ≡ some (physical / 2 ^ 12 * 2 ^ 12 + u % 2 ^ 12)
  pub keeps :
      (u x : ℕ)
      → u / 2 ^ 12 % 2 ^ 36 ≢ v / 2 ^ 12 % 2 ^ 36
      → translate m.words m.page_table_map4 u ≡ some x
      → translate m'.words m.page_table_map4 u ≡ some x
  pub shape : Shape
  pub tree : IsTree shape m'
  pub grants : CanGrant base total spare m'.frames
  pub same_root : m'.page_table_map4 ≡ m.page_table_map4
  pub table : ℕ
  pub route : Route m'.words m'.page_table_map4 (digits v).0 (digits v).1 (digits v).2 table

module _ (base total spare : ℕ) (g : Shape) (m : Mapper) (tree : IsTree g m) (v physical : ℕ)
    (room : physical < 2 ^ 52)
    (ready : Prepared base total spare g m
      (digits v).0
      (digits v).1
      (digits v).2
      (steps_to v m)) where
  abbrev before : ℕ × Mapper
  before = steps_to v m

  after : Mapper
  after = map_page before.0 (digits v).3 physical before.1

  map_memory_steps : map_memory v physical m ≡ after
  unfolding map_memory after
  map_memory_steps = let (p, q, r, s) = init_page_map_index_walk v in rw (p, q, r, s)

  store-Route :
      {a b c t1 : ℕ}
      → a < 512
      → b < 512
      → c < 512
      → Route before.1.words m.page_table_map4 a b c t1
      → Route after.words m.page_table_map4 a b c t1
  unfolding after map_page
  store-Route {a} {b} {c} {t1} ha hb hc r =
      let r' : Route before.1.words before.1.page_table_map4 a b c t1 =
        subst (λ q. Route before.1.words q a b c t1) (sym ready.same_root) r in
      let lv = Route-Levels ready.tree ha hb hc r' in
      let w = point_to (before.1.words (slot before.0 (digits v).3)) physical in
      let root : ready.shape.level m.page_table_map4 ≡ 4 =
        ap ready.shape.level (sym ready.same_root) ∙ ready.tree.root in
      record {
        t3 = r.t3;
        t2 = r.t2;
        first = Leads-store ready.tree w ha (omega arith) (omega (arith, root)) ready.level r.first;
        second =
            Leads-store ready.tree w hb (omega arith) (omega (arith, lv.l3)) ready.level r.second;
        third =
            Leads-store ready.tree w hc (omega arith) (omega (arith, lv.l2)) ready.level r.third;
      }

  mapped :
      (u : ℕ)
      → u / 2 ^ 12 % 2 ^ 36 ≡ v / 2 ^ 12 % 2 ^ 36
      → translate after.words m.page_table_map4 u ≡ some (physical / 2 ^ 12 * 2 ^ 12 + u % 2 ^ 12)
  unfolding after map_page
  mapped u same =
      let d3 : u / 2 ^ 39 % 512 ≡ (digits v).0 = omega arith in
      let d2 : u / 2 ^ 30 % 512 ≡ (digits v).1 = omega arith in
      let d1 : u / 2 ^ 21 % 512 ≡ (digits v).2 = omega arith in
      let d0 : u / 2 ^ 12 % 512 ≡ (digits v).3 = omega arith in
      translate-Route {t1 = before.0} {page = physical / 2 ^ 12 * 2 ^ 12} u
        (rw (d3, d2, d1) (store-Route (omega arith) (omega arith) (omega arith) ready.route))
        (rw d0 (record {
          there = rw (==-refl (slot before.0 (digits v).3)) (point_to-present _ physical);
          goes = rw (==-refl (slot before.0 (digits v).3), get_address-point_to _ physical room);
        }))

  after-IsTree : IsTree ready.shape after
  unfolding after map_page
  after-IsTree = record {
    root = ready.tree.root;
    aligned = ready.tree.aligned;
    taken = ready.tree.taken;
    child_level = λ t i h up there.
        let same = after_upper t i h up in
        rw same (ready.tree.child_level t i h up (rw same at there));
    child_up = λ t i h up there.
        let same = after_upper t i h up in
        rw same (ready.tree.child_up t i h up (rw same at there));
  }
    where
      after_upper :
          (t i : ℕ)
          → i < 512
          → 1 < ready.shape.level t
          → after.words (slot t i) ≡ before.1.words (slot t i)
      after_upper t i h up =
          let apart : (slot before.0 (digits v).3 == slot t i) ≡ false =
            ne→== (slot before.0 (digits v).3) (slot t i) (λ e.
              let same =
                slot_inj ready.tree before.0 t (digits v).3 i (omega arith) h
                  (omega (arith, ready.level)) (omega (arith, up)) e in
              omega (arith, ap ready.shape.level same.0, ready.level, up)) in
          rw apart

  -- The entry of another page is not the one that was written.
  other_slot :
      (u t1 : ℕ)
      → u / 2 ^ 12 % 2 ^ 36 ≢ v / 2 ^ 12 % 2 ^ 36
      → Route before.1.words m.page_table_map4
          (u / 2 ^ 39 % 512)
          (u / 2 ^ 30 % 512)
          (u / 2 ^ 21 % 512)
          t1
      → slot before.0 (digits v).3 ≢ slot t1 (u / 2 ^ 12 % 512)
  other_slot u t1 ne r e =
      let at_root = λ (a b c t : ℕ) (q : Route before.1.words m.page_table_map4 a b c t).
        subst (λ x. Route before.1.words x a b c t) (sym ready.same_root) q in
      let r' = at_root _ _ _ _ r in
      let lv = Route-Levels ready.tree (omega arith) (omega arith) (omega arith) r' in
      let same =
        slot_inj ready.tree before.0 t1 (digits v).3 (u / 2 ^ 12 % 512) (omega arith) (omega arith)
          (omega (arith, ready.level)) (omega (arith, lv.l1)) e in
      let mine =
        subst (Route before.1.words before.1.page_table_map4 (digits v).0 (digits v).1 (digits v).2)
          same.0 (at_root _ _ _ _ ready.route) in
      let one =
        Route-unique ready.tree (omega arith) (omega arith) (omega arith) (omega arith)
          (omega arith) (omega arith) mine r' in
      ne (omega (arith, one, same.1))

  kept :
      (u x : ℕ)
      → u / 2 ^ 12 % 2 ^ 36 ≢ v / 2 ^ 12 % 2 ^ 36
      → translate m.words m.page_table_map4 u ≡ some x
      → translate after.words m.page_table_map4 u ≡ some x
  unfolding after map_page
  kept u x ne e =
      let w = translate-Walked e in
      let lv = Route-Levels tree (omega arith) (omega arith) (omega arith) w.route in
      let moved = ready.kept (omega arith) (omega arith) (omega arith) w.route in
      let leaf = ready.same_leaf w.t1 (u / 2 ^ 12 % 512) (omega arith) lv.l1 in
      let apart = ne→== _ _ (other_slot u w.t1 ne moved) in
      translate-Route u (store-Route (omega arith) (omega arith) (omega arith) moved)
        (record { there = rw (apart, leaf) w.leaf.there; goes = rw (apart, leaf) w.leaf.goes })
      ∙ ap some (sym w.result)

  pub last_step-IsMapped : IsMapped base total spare v physical m (map_memory v physical m)
  unfolding after map_page
  last_step-IsMapped = rw map_memory_steps (record {
    maps = mapped;
    keeps = kept;
    shape = ready.shape;
    tree = after-IsTree;
    grants = ready.grants;
    same_root = ready.same_root;
    table = before.0;
    route =
        subst (λ r. Route after.words r (digits v).0 (digits v).1 (digits v).2 before.0)
          (sym ready.same_root) (store-Route (omega arith) (omega arith) (omega arith) ready.route);
  })
