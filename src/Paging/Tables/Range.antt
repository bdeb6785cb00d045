-- ===== src/Paging/Tables/Range.antt =====
-- `MapMemory` on page after page: which pages it needs for its tables.
use os_tk.Base.{
  ℕ, zero, suc, ◌+◌, ◌-◌, ◌*◌, ◌/◌, ◌%◌, ◌^◌, ◌≤◌, ◌<◌, ◌≡◌, refl, Bool, true, false, not, ◌==◌,
  if◌then◌else◌, arith, subst,
}
use os_tk.Paging.Frames.{Frames}
use os_tk.Paging.Tables.{Mapper, map_memory}
use os_tk.Paging.Tables.Supply.{CanGrant}
use os_tk.Paging.Tables.Tree.{Shape, IsTree}
use os_tk.Paging.Tables.Route.{Route}
use os_tk.Paging.Tables.LastStep.{digits, IsMapped}
use os_tk.Paging.Tables.MapMemory.{map_memory-IsMapped, map_memory_again-IsMapped}

-- With `ready` the tables down to the last one are there for `v`.
abbrev pub HasTable : (ready : Bool) → (v : ℕ) → Mapper → Type 0
HasTable ready v m =
    ready ≡ true
    → (t1 : ℕ) × Route m.words m.page_table_map4 (digits v).0 (digits v).1 (digits v).2 t1

-- The page behind the page `i` has its entry in the same table.
abbrev pub same_table : ℕ → Bool
same_table i = not ((i + 4096) % 2 ^ 21 == 0)

-- Nothing is said of the tables.
pub no_table : (v : ℕ) (m : Mapper) → HasTable false v m
no_table v m e = absurd (ground (arith, e))

-- The pages for `left` pages from `i` on, of which `each` are for the page itself, and `spare` more.
abbrev pub needed : (each : ℕ → ℕ) → (ready : Bool) → (left i spare : ℕ) → ℕ
needed each ready zero i spare = spare
needed each ready (suc left) i spare =
    let rest = needed each (same_table i) left (i + 4096) spare in
    each (if ready then rest else suc (suc (suc rest)))

pub map_memory_ready-IsMapped :
    (base total spare : ℕ) (g : Shape) (m : Mapper) (ready : Bool)
    → IsTree g m
    → CanGrant base total (if ready then spare else suc (suc (suc spare))) m.frames
    → (v physical : ℕ) → physical < 2 ^ 52
    → HasTable ready v m
    → IsMapped base total spare v physical m (map_memory v physical m)
map_memory_ready-IsMapped base total spare g m true tree pages v physical room there =
    let t = there refl in
    map_memory_again-IsMapped base total spare g m tree pages v physical t.0 room t.1
map_memory_ready-IsMapped base total spare g m false tree pages v physical room there =
    map_memory-IsMapped base total spare g m tree pages v physical room

pub HasTable-next :
    (i table : ℕ) (m : Mapper)
    → i % 4096 ≡ 0
    → Route m.words m.page_table_map4 (digits i).0 (digits i).1 (digits i).2 table
    → HasTable (same_table i) (i + 4096) m
HasTable-next i table m whole r same =
    let inside : (i + 4096) / 2 ^ 21 ≡ i / 2 ^ 21 = ground (arith, whole, same) in
    let d0 : (digits i).0 ≡ (digits (i + 4096)).0 = omega (arith, inside) in
    let d1 : (digits i).1 ≡ (digits (i + 4096)).1 = omega (arith, inside) in
    let d2 : (digits i).2 ≡ (digits (i + 4096)).2 = omega (arith, inside) in
    (
      table,
      subst
          (λ a. Route m.words m.page_table_map4 a (digits (i + 4096)).1 (digits (i + 4096)).2 table)
          d0
          (subst (λ b. Route m.words m.page_table_map4 (digits i).0 b (digits (i + 4096)).2 table)
            d1
            (subst (λ c. Route m.words m.page_table_map4 (digits i).0 (digits i).1 c table) d2 r)),
    )

begun-le :
    (begins : Bool) (w spare here next last : ℕ)
    → next ≡ (if begins then suc here else here)
    → next ≤ last
    → w ≤ spare + (if not begins then 0 else 3) + 3 * (last - next)
    → w ≤ spare + 3 * (last - here)
begun-le true w spare here next last from le h = omega (arith, from, le, h)
begun-le false w spare here next last from le h = omega (arith, from, le, h)

-- The last-level tables that `left` pages from `i` on have their entries in.
abbrev pub tables_of : (left i : ℕ) → ℕ
tables_of left i = (i + left * 4096 + (2 ^ 21 - 1)) / 2 ^ 21 - i / 2 ^ 21

needed-le :
    (ready : Bool) (left i spare : ℕ)
    → i % 4096 ≡ 0
    → needed (λ n. n) ready (suc left) i spare
      ≤ spare + (if ready then 0 else 3) + 3 * ((i + left * 4096) / 2 ^ 21 - i / 2 ^ 21)
needed-le ready zero i spare whole = ground arith
needed-le ready (suc left) i spare whole =
    let w = needed (λ n. n) (same_table i) (suc left) (i + 4096) spare in
    let rest = needed-le (same_table i) left (i + 4096) spare (omega (arith, whole)) in
    let place : i + 4096 + left * 4096 ≡ i + suc left * 4096 = omega arith in
    let from : (i + 4096) / 2 ^ 21
        ≡ (if (i + 4096) % 2 ^ 21 == 0 then suc (i / 2 ^ 21) else i / 2 ^ 21) =
      ground (arith, whole) in
    let bound =
      begun-le ((i + 4096) % 2 ^ 21 == 0) w spare (i / 2 ^ 21) ((i + 4096) / 2 ^ 21)
        ((i + 4096 + left * 4096) / 2 ^ 21) from (omega arith) rest in
    let goal : w ≤ spare + 3 * ((i + suc left * 4096) / 2 ^ 21 - i / 2 ^ 21) = rw place at bound in
    ground (arith, goal)

-- Three pages for each table are enough.
pub needed-bound :
    (left i spare : ℕ)
    → i % 4096 ≡ 0
    → needed (λ n. n) false left i spare ≤ spare + 3 * tables_of left i
needed-bound zero i spare whole = omega arith
needed-bound (suc left) i spare whole = omega (arith, needed-le false left i spare whole, whole)

-- With one more for each page itself.
pub needed-suc :
    (ready : Bool) (left i spare : ℕ)
    → needed suc ready left i spare ≡ left + needed (λ n. n) ready left i spare
needed-suc ready zero i spare = omega arith
needed-suc true (suc left) i spare = omega (arith, needed-suc (same_table i) left (i + 4096) spare)
needed-suc false (suc left) i spare = omega (arith, needed-suc (same_table i) left (i + 4096) spare)

pub CanGrant-le :
    {base total n k : ℕ} {f : Frames} → n ≤ k → CanGrant base total k f → CanGrant base total n f
CanGrant-le le c = record { sound = c.sound; small = c.small; spare = omega (arith, le, c.spare) }
