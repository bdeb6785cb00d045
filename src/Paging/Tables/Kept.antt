-- ===== src/Paging/Tables/Kept.antt =====
-- `MapMemory` frees no page.
use os_tk.Base.{ℕ, ◌/◌, inl, inr, Bool-cases}
use os_tk.Paging.Entry.{present, get_flag, init_page_map_index}
use os_tk.Paging.Frames.Kept.{StaysMarked, request_page-StaysMarked}
use os_tk.Paging.Frames.{Frames, request_page}
use os_tk.Paging.Tables.{Mapper, slot, next_table, map_page, map_memory}
use os_tk.Paging.Tables.Tree.{Shape, IsTree}

next_table-StaysMarked :
    (table index : ℕ) (m : Mapper) → StaysMarked m.frames (next_table table index m).1.frames
unfolding next_table
next_table-StaysMarked table index m k marked =
    elim (Bool-cases (get_flag (m.words (slot table index)) present)) [
      | inl there ↦ rw there marked
      | inr missing ↦ rw missing (request_page-StaysMarked m.frames k marked)
    ]

pub map_memory-StaysMarked :
    (v physical : ℕ) (m : Mapper) → StaysMarked m.frames (map_memory v physical m).frames
unfolding map_memory map_page
map_memory-StaysMarked v physical m k marked =
    let i = init_page_map_index v in
    let a = next_table m.page_table_map4 i.page_directory_pointer m in
    let b = next_table a.0 i.page_directory a.1 in
    next_table-StaysMarked b.0 i.page_table b.1 k (
      next_table-StaysMarked a.0 i.page_directory a.1 k
        (next_table-StaysMarked m.page_table_map4 i.page_directory_pointer m k marked))

-- Where no page is freed the tables stay a tree.
pub IsTree-frames :
    (g : Shape) (m : Mapper) (frames : Frames)
    → IsTree g m
    → StaysMarked m.frames frames
    → IsTree g (record m { frames = frames })
IsTree-frames g m frames tree stays = record {
  root = tree.root;
  aligned = tree.aligned;
  taken = λ t up. stays (t / 4096) (tree.taken t up);
  child_level = tree.child_level;
  child_up = tree.child_up;
}

-- After a request the tables are a tree as before.
pub IsTree-request :
    (g : Shape) (m : Mapper)
    → IsTree g m
    → IsTree g (record m { frames = (request_page m.frames).1 })
IsTree-request g m tree =
    IsTree-frames g m (request_page m.frames).1 tree (request_page-StaysMarked m.frames)
