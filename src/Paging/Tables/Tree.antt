-- ===== src/Paging/Tables/Tree.antt =====
-- The page tables as a tree, and one step down that tree.
use os_tk.Base.{ℕ, suc, ◌*◌, ◌/◌, ◌%◌, ◌<◌, ◌≡◌, true}
use os_tk.Paging.Entry.{present, get_flag, get_address}
use os_tk.Paging.Frames.Marks.{is_marked}
use os_tk.Paging.Tables.{Mapper, slot}
use os_tk.Paging.Tables.Supply.{CanGrant}

-- A level for the address of each table, 4 for the root and 0 for what is no table, and the slot
-- that leads to each table.
pub record Shape : Type 0 where
  pub level : ℕ → ℕ
  pub up : ℕ → ℕ

abbrev pub target : ℕ → ℕ
target pde = get_address pde * 4096

-- The tables form a tree of four levels in pages that the allocator has given away.
pub record IsTree (g : Shape) (m : Mapper) : Type 0 where
  pub root : g.level m.page_table_map4 ≡ 4
  pub aligned : (t : ℕ) → 0 < g.level t → t % 4096 ≡ 0
  pub taken : (t : ℕ) → 0 < g.level t → is_marked m.frames (t / 4096) ≡ true
  pub child_level :
      (t i : ℕ)
      → i < 512
      → 1 < g.level t
      → get_flag (m.words (slot t i)) present ≡ true
      → suc (g.level (target (m.words (slot t i)))) ≡ g.level t
  pub child_up :
      (t i : ℕ)
      → i < 512
      → 1 < g.level t
      → get_flag (m.words (slot t i)) present ≡ true
      → g.up (target (m.words (slot t i))) ≡ slot t i

-- The table that a word's address lies in.
abbrev pub table_of : ℕ → ℕ
table_of a = a / 4096 * 4096

-- After a step down from slot `i` of table `t`, at level `n + 2`: the slot leads to the result, a
-- table one level down, and no present entry or leaf entry of a table has changed.
pub record IsStep (base total pages n t i : ℕ) (g : Shape) (m : Mapper) (r : ℕ × Mapper)
    : Type 0 where
  pub shape : Shape
  pub tree : IsTree shape r.1
  pub grants : CanGrant base total pages r.1.frames
  pub same_root : r.1.page_table_map4 ≡ m.page_table_map4
  pub level : shape.level r.0 ≡ suc n
  pub entered : get_flag (r.1.words (slot t i)) present ≡ true
  pub leads : target (r.1.words (slot t i)) ≡ r.0
  pub same_level : (x : ℕ) → 0 < g.level x → shape.level x ≡ g.level x
  pub same_words :
      (a : ℕ)
      → 0 < g.level (table_of a)
      → (a ≡ slot t i → get_flag (m.words a) present ≡ true)
      → r.1.words a ≡ m.words a
