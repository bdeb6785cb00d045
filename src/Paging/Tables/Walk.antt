-- ===== src/Paging/Tables/Walk.antt =====
-- `MapMemory` against the processor's walk of the tables.
use os_tk.Base.{ℕ, suc, ◌<◌, ◌≡◌, ap, false, arith, ◌==◌, sym, ◌∙◌, ne→==}
use os_tk.Paging.Tables.{Mapper, slot, store_word}
use os_tk.Paging.Tables.Tree.{Shape, IsTree, table_of, IsStep}
use os_tk.Paging.Tables.Route.{Leads, Route}

module _ {g : Shape} {m : Mapper} (tree : IsTree g m) where
  Leads-level :
      {x j y : ℕ} → j < 512 → 1 < g.level x → Leads m.words x j y → suc (g.level y) ≡ g.level x
  Leads-level {x} {j} h up l = rw (← l.goes) (tree.child_level x j h up l.there)

  Leads-up : {x j y : ℕ} → j < 512 → 1 < g.level x → Leads m.words x j y → g.up y ≡ slot x j
  Leads-up {x} {j} h up l = rw (← l.goes) (tree.child_up x j h up l.there)

  table_of-slot : (x j : ℕ) → j < 512 → 0 < g.level x → table_of (slot x j) ≡ x
  table_of-slot x j h up = omega (arith, tree.aligned x up)

  -- Two slots of tables that are one address are one slot.
  pub slot_inj :
      (x y j k : ℕ)
      → j < 512
      → k < 512
      → 0 < g.level x
      → 0 < g.level y
      → slot x j ≡ slot y k
      → (x ≡ y) × (j ≡ k)
  slot_inj x y j k hj hk hx hy e = omega (arith, tree.aligned x hx, tree.aligned y hy)

  pub record Levels (a b c t3 t2 t1 : ℕ) : Type 0 where
    pub l3 : g.level t3 ≡ 3
    pub l2 : g.level t2 ≡ 2
    pub l1 : g.level t1 ≡ 1

  pub Route-Levels :
      {a b c t1 : ℕ}
      → a < 512
      → b < 512
      → c < 512
      → (r : Route m.words m.page_table_map4 a b c t1) → Levels a b c r.t3 r.t2 t1
  Route-Levels ha hb hc r =
      let e3 : g.level r.t3 ≡ 3 =
        omega (arith, Leads-level ha (omega (arith, tree.root)) r.first, tree.root) in
      let e2 : g.level r.t2 ≡ 2 = omega (arith, Leads-level hb (omega (arith, e3)) r.second, e3) in
      let e1 : g.level _ ≡ 1 = omega (arith, Leads-level hc (omega (arith, e2)) r.third, e2) in
      record { l3 = e3; l2 = e2; l1 = e1 }

  -- A last-level table is reached in one way only.
  pub Route-unique :
      {a b c a' b' c' t1 : ℕ}
      → a < 512
      → b < 512
      → c < 512
      → a' < 512
      → b' < 512
      → c' < 512
      → Route m.words m.page_table_map4 a b c t1
      → Route m.words m.page_table_map4 a' b' c' t1
      → (a ≡ a') × (b ≡ b') × (c ≡ c')
  Route-unique ha hb hc ha' hb' hc' r s =
      let lr = Route-Levels ha hb hc r in
      let ls = Route-Levels ha' hb' hc' s in
      let e1 = slot_inj r.t2 s.t2 _ _ hc hc' (omega (arith, lr.l2)) (omega (arith, ls.l2)) (
        sym (Leads-up hc (omega (arith, lr.l2)) r.third)
        ∙ Leads-up hc' (omega (arith, ls.l2)) s.third) in
      let e2 = slot_inj r.t3 s.t3 _ _ hb hb' (omega (arith, lr.l3)) (omega (arith, ls.l3)) (
        sym (Leads-up hb (omega (arith, lr.l3)) r.second)
        ∙ ap g.up e1.0
        ∙ Leads-up hb' (omega (arith, ls.l3)) s.second) in
      let e3 =
        slot_inj m.page_table_map4 m.page_table_map4 _ _ ha ha' (omega (arith, tree.root))
          (omega (arith, tree.root))
          (sym (Leads-up ha (omega (arith, tree.root)) r.first)
            ∙ ap g.up e2.0
            ∙ Leads-up ha' (omega (arith, tree.root)) s.first) in
      (e3.1, e2.1, e1.1)

  -- A step keeps every present entry.
  pub Leads-step :
      {base total pages n t i x j y : ℕ} {r : ℕ × Mapper}
      → IsStep base total pages n t i g m r
      → j < 512
      → 0 < g.level x
      → Leads m.words x j y
      → Leads r.1.words x j y
  Leads-step {x} {j} st h up l =
      let same = st.same_words (slot x j) (rw (table_of-slot x j h up) up) (λ e. l.there) in
      record { there = rw same l.there; goes = rw same l.goes }

  -- A write at a slot of a last-level table keeps the entries of the tables above.
  pub Leads-store :
      {x j y t i : ℕ} (w : ℕ)
      → j < 512
      → i < 512
      → 1 < g.level x
      → g.level t ≡ 1
      → Leads m.words x j y
      → Leads (store_word m.words (slot t i) w) x j y
  Leads-store {x} {j} {t} {i} w hj hi up low l =
      let apart : (slot t i == slot x j) ≡ false = ne→== (slot t i) (slot x j) (λ e. omega (
        arith,
        up,
        low,
        ap g.level (slot_inj t x i j hi hj (omega (arith, low)) (omega (arith, up)) e).0,
      )) in
      record { there = rw apart l.there; goes = rw apart l.goes }
