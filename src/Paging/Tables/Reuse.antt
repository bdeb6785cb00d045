-- ===== src/Paging/Tables/Reuse.antt =====
-- The three steps of `MapMemory` where the tables are there already.
use os_tk.Base.{ℕ, ◌*◌, ◌^◌, ◌<◌, ◌≡◌, refl, sym, subst, arith, u64}
use os_tk.Paging.Entry.{get_address}
use os_tk.Paging.Entry.Laws.{get_address-lt}
use os_tk.Paging.Tables.{Mapper, slot, next_table}
use os_tk.Paging.Tables.Supply.{CanGrant}
use os_tk.Paging.Tables.Tree.{Shape, IsTree, target}
use os_tk.Paging.Tables.Route.{Leads, Route}
use os_tk.Paging.Tables.Steps.{Prepared, three_steps}
use os_tk.Paging.Tables.Walk.{Route-Levels}

next_table-Leads : (t i y : ℕ) (m : Mapper) → Leads m.words t i y → next_table t i m ≡ (y, m)
unfolding next_table
next_table-Leads t i y m l =
    let word : u64 (get_address (m.words (slot t i)) * 2 ^ 12) ≡ target (m.words (slot t i)) =
      omega (arith, get_address-lt (m.words (slot t i))) in
    rw (l.there, word, l.goes) refl

three_steps-Route :
    (a b c t1 : ℕ) (m : Mapper)
    → Route m.words m.page_table_map4 a b c t1
    → three_steps a b c m ≡ (t1, m)
three_steps-Route a b c t1 m r =
    rw (next_table-Leads m.page_table_map4 a r.t3 m r.first)
      (rw (next_table-Leads r.t3 b r.t2 m r.second) (next_table-Leads r.t2 c t1 m r.third))

-- No page is needed.
pub three_steps-Prepared :
    (base total spare : ℕ) (g : Shape) (m : Mapper)
    → IsTree g m
    → CanGrant base total spare m.frames
    → (a b c t1 : ℕ) → a < 512
    → b < 512
    → c < 512
    → Route m.words m.page_table_map4 a b c t1
    → Prepared base total spare g m a b c (three_steps a b c m)
three_steps-Prepared base total spare g m tree pages a b c t1 ha hb hc r =
    subst (Prepared base total spare g m a b c) (sym (three_steps-Route a b c t1 m r)) (record {
      shape = g;
      tree = tree;
      grants = pages;
      same_root = refl;
      level = (Route-Levels tree ha hb hc r).l1;
      route = r;
      kept = λ ha' hb' hc' r'. r';
      same_leaf = λ t j hj low. refl;
    })
