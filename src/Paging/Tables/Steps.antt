-- ===== src/Paging/Tables/Steps.antt =====
-- The three steps down that `MapMemory` makes.
use os_tk.Base.{ℕ, suc, ◌<◌, ◌≡◌, ap, arith, sym, ◌∙◌, subst}
use os_tk.Paging.Tables.{Mapper, slot, next_table}
use os_tk.Paging.Tables.Supply.{CanGrant}
use os_tk.Paging.Tables.Tree.{Shape, IsTree, table_of, IsStep}
use os_tk.Paging.Tables.Grow.{next_table-IsStep}
use os_tk.Paging.Tables.Route.{Route}
use os_tk.Paging.Tables.Walk.{Route-Levels, slot_inj, Leads-step}

-- A step keeps a route of the tree.
Route-step :
    {g : Shape} {m : Mapper} {base total pages n t i a b c t1 : ℕ} {r : ℕ × Mapper}
    → IsTree g m
    → IsStep base total pages n t i g m r
    → a < 512
    → b < 512
    → c < 512
    → Route m.words m.page_table_map4 a b c t1
    → Route r.1.words m.page_table_map4 a b c t1
Route-step tree st ha hb hc r =
    let lv = Route-Levels tree ha hb hc r in
    record {
      t3 = r.t3;
      t2 = r.t2;
      first = Leads-step tree st ha (omega (arith, tree.root)) r.first;
      second = Leads-step tree st hb (omega (arith, lv.l3)) r.second;
      third = Leads-step tree st hc (omega (arith, lv.l2)) r.third;
    }

-- A step from an upper table keeps every entry of the last-level tables.
leaf-step :
    {g : Shape} {m : Mapper} {base total pages n x i : ℕ} {r : ℕ × Mapper}
    → IsTree g m
    → IsStep base total pages n x i g m r
    → i < 512
    → 1 < g.level x
    → (t j : ℕ) → j < 512
    → g.level t ≡ 1
    → r.1.words (slot t j) ≡ m.words (slot t j)
leaf-step {g} {x} {i} tree st hi up t j hj low =
    let inside : table_of (slot t j) ≡ t = omega (arith, tree.aligned t (omega (arith, low))) in
    st.same_words (slot t j) (rw inside (omega (arith, low))) (λ e.
      let same = slot_inj tree t x j i hj hi (omega (arith, low)) (omega (arith, up)) e in
      absurd (omega (arith, ap g.level same.0, low, up)))

-- The three steps of `MapMemory`, with the route that they make.
pub record Prepared (base total spare : ℕ) (g : Shape) (m : Mapper) (a b c : ℕ) (r : ℕ × Mapper)
    : Type 0 where
  pub shape : Shape
  pub tree : IsTree shape r.1
  pub grants : CanGrant base total spare r.1.frames
  pub same_root : r.1.page_table_map4 ≡ m.page_table_map4
  pub level : shape.level r.0 ≡ 1
  pub route : Route r.1.words m.page_table_map4 a b c r.0
  pub kept :
      {a' b' c' t1 : ℕ}
      → a' < 512
      → b' < 512
      → c' < 512
      → Route m.words m.page_table_map4 a' b' c' t1
      → Route r.1.words m.page_table_map4 a' b' c' t1
  pub same_leaf : (t j : ℕ) → j < 512 → g.level t ≡ 1 → r.1.words (slot t j) ≡ m.words (slot t j)

abbrev pub three_steps : ℕ → ℕ → ℕ → Mapper → ℕ × Mapper
three_steps a b c m =
    let (pdp, m1) = next_table m.page_table_map4 a m in
    let (pd, m2) = next_table pdp b m1 in next_table pd c m2

module _ (base total spare : ℕ) (g : Shape) (m : Mapper) (tree : IsTree g m)
    (pages : CanGrant base total (suc (suc (suc spare))) m.frames) where
  module _ (a b c : ℕ) (ha : a < 512) (hb : b < 512) (hc : c < 512) where
    abbrev r1 : ℕ × Mapper
    r1 = next_table m.page_table_map4 a m

    abbrev r2 : ℕ × Mapper
    r2 = next_table r1.0 b r1.1

    abbrev r3 : ℕ × Mapper
    r3 = next_table r2.0 c r2.1

    step1 : IsStep base total (suc (suc spare)) 2 m.page_table_map4 a g m r1
    step1 =
        next_table-IsStep base total (suc (suc spare)) 2 m.page_table_map4 a g m tree tree.root ha
          pages

    step2 : IsStep base total (suc spare) 1 r1.0 b step1.shape r1.1 r2
    step2 =
        next_table-IsStep base total (suc spare) 1 r1.0 b step1.shape r1.1 step1.tree step1.level hb
          step1.grants

    step3 : IsStep base total spare 0 r2.0 c step2.shape r2.1 r3
    step3 =
        next_table-IsStep base total spare 0 r2.0 c step2.shape r2.1 step2.tree step2.level hc
          step2.grants

    root_level1 : step1.shape.level m.page_table_map4 ≡ 4
    root_level1 = step1.same_level m.page_table_map4 (omega (arith, tree.root)) ∙ tree.root

    root_level2 : step2.shape.level m.page_table_map4 ≡ 4
    root_level2 = step2.same_level m.page_table_map4 (omega (arith, root_level1)) ∙ root_level1

    pdp_level2 : step2.shape.level r1.0 ≡ 3
    pdp_level2 = step2.same_level r1.0 (omega (arith, step1.level)) ∙ step1.level

    made-Route : Route r3.1.words m.page_table_map4 a b c r3.0
    made-Route = record {
      t3 = r1.0;
      t2 = r2.0;
      first = Leads-step step2.tree step3 ha (omega (arith, root_level2)) (
          Leads-step step1.tree step2 ha (omega (arith, root_level1))
            (record { there = step1.entered; goes = step1.leads }));
      second =
          Leads-step step2.tree step3 hb (omega (arith, pdp_level2))
            (record { there = step2.entered; goes = step2.leads });
      third = record { there = step3.entered; goes = step3.leads };
    }

    same_leaf_lem : (t j : ℕ) → j < 512 → g.level t ≡ 1 → r3.1.words (slot t j) ≡ m.words (slot t j)
    same_leaf_lem t j hj low =
        let low1 = step1.same_level t (omega (arith, low)) in
        let low2 = step2.same_level t (omega (arith, low1, low)) in
        leaf-step step2.tree step3 hc (omega (arith, step2.level)) t j hj
          (omega (arith, low2, low1, low))
        ∙ leaf-step step1.tree step2 hb (omega (arith, step1.level)) t j hj
            (omega (arith, low1, low))
        ∙ leaf-step tree step1 ha (omega (arith, tree.root)) t j hj low

    kept_lem :
        {a' b' c' t1 : ℕ}
        → a' < 512
        → b' < 512
        → c' < 512
        → Route m.words m.page_table_map4 a' b' c' t1
        → Route r3.1.words m.page_table_map4 a' b' c' t1
    kept_lem {a'} {b'} {c'} {t1} ha' hb' hc' r =
        let root1 = step1.same_root in
        let root2 = step2.same_root ∙ root1 in
        let after1 = Route-step tree step1 ha' hb' hc' r in
        let after2 =
          Route-step step1.tree step2 ha' hb' hc'
            (subst (λ q. Route r1.1.words q a' b' c' t1) (sym root1) after1) in
        let after3 =
          Route-step step2.tree step3 ha' hb' hc'
            (subst (λ q. Route r2.1.words q a' b' c' t1) (sym step2.same_root) after2) in
        subst (λ q. Route r3.1.words q a' b' c' t1) root2 after3

    pub prepared : Prepared base total spare g m a b c (three_steps a b c m)
    prepared = record {
      shape = step3.shape;
      tree = step3.tree;
      grants = step3.grants;
      same_root = step3.same_root ∙ step2.same_root ∙ step1.same_root;
      level = step3.level;
      route = made-Route;
      kept = kept_lem;
      same_leaf = same_leaf_lem;
    }
