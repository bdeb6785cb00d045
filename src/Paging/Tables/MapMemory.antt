-- ===== src/Paging/Tables/MapMemory.antt =====
-- `MapMemory` against the processor's walk of the tables.
use os_tk.Base.{ℕ, suc, ◌+◌, ◌*◌, ◌/◌, ◌%◌, ◌^◌, ◌<◌, ◌≡◌, ◌≢◌, arith, some}
use os_tk.Paging.Tables.{Mapper, map_memory}
use os_tk.Paging.Tables.Supply.{CanGrant}
use os_tk.Paging.Tables.Tree.{Shape, IsTree}
use os_tk.Paging.Tables.Route.{translate, Route}
use os_tk.Paging.Tables.Steps.{prepared}
use os_tk.Paging.Tables.Reuse.{three_steps-Prepared}
use os_tk.Paging.Tables.LastStep.{digits, IsMapped, last_step-IsMapped}

-- Where the tables for the page are there, `MapMemory` needs no page.
pub map_memory_again-IsMapped :
    (base total spare : ℕ) (g : Shape) (m : Mapper)
    → IsTree g m
    → CanGrant base total spare m.frames
    → (v physical t1 : ℕ) → physical < 2 ^ 52
    → Route m.words m.page_table_map4 (digits v).0 (digits v).1 (digits v).2 t1
    → IsMapped base total spare v physical m (map_memory v physical m)
map_memory_again-IsMapped base total spare g m tree pages v physical t1 room r =
    last_step-IsMapped base total spare g m tree v physical room (
      three_steps-Prepared base total spare g m tree pages (digits v).0 (digits v).1 (digits v).2 t1
        (omega arith) (omega arith) (omega arith) r)

module _ (base total spare : ℕ) (g : Shape) (m : Mapper) (tree : IsTree g m)
    (pages : CanGrant base total (suc (suc (suc spare))) m.frames) where
  pub map_memory-IsMapped :
      (v physical : ℕ)
      → physical < 2 ^ 52
      → IsMapped base total spare v physical m (map_memory v physical m)
  map_memory-IsMapped v physical room =
      last_step-IsMapped base total spare g m tree v physical room (
        prepared base total spare g m tree pages (digits v).0 (digits v).1 (digits v).2
          (omega arith) (omega arith) (omega arith))

  module _ (v physical : ℕ) (room : physical < 2 ^ 52) where
    -- After `MapMemory` of a virtual page the processor finds every address of that page in the page
    -- of the physical address, at the same offset. The tables are a tree, the allocator can grant
    -- three pages and more, and the physical address is below 2 ^ 52.
    pub map_memory-translate :
        (u : ℕ)
        → u / 2 ^ 12 % 2 ^ 36 ≡ v / 2 ^ 12 % 2 ^ 36
        → translate (map_memory v physical m).words m.page_table_map4 u
          ≡ some (physical / 2 ^ 12 * 2 ^ 12 + u % 2 ^ 12)
    map_memory-translate u same = (map_memory-IsMapped v physical room).maps u same

    -- `MapMemory` on one page changes the translation of no address of another page that was mapped,
    -- where the tables are a tree, the allocator can grant three pages and more, and the physical
    -- address is below 2 ^ 52.
    pub map_memory-keeps :
        (u x : ℕ)
        → u / 2 ^ 12 % 2 ^ 36 ≢ v / 2 ^ 12 % 2 ^ 36
        → translate m.words m.page_table_map4 u ≡ some x
        → translate (map_memory v physical m).words m.page_table_map4 u ≡ some x
    map_memory-keeps u x ne e = (map_memory-IsMapped v physical room).keeps u x ne e

    -- After `MapMemory` the tables are a tree again, under the same root, and the allocator has at
    -- most three pages less to grant. Before it the tables are a tree, the allocator can grant three
    -- pages and more, and the physical address is below 2 ^ 52.
    pub map_memory-IsTree :
        (g' : Shape) × IsTree g' (map_memory v physical m)
        × CanGrant base total spare (map_memory v physical m).frames
        × ((map_memory v physical m).page_table_map4 ≡ m.page_table_map4)
    map_memory-IsTree =
        let r = map_memory-IsMapped v physical room in (r.shape, r.tree, r.grants, r.same_root)
