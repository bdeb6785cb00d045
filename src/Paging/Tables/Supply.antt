-- ===== src/Paging/Tables/Supply.antt =====
-- An allocator with pages to spare, and an entry that points to a page.
use os_tk.Base.{
  ℕ, zero, suc, ◌+◌, ◌*◌, ◌/◌, ◌^◌, ◌≤◌, ◌<◌, ◌≡◌, refl, ap, Bool, true, false, arith, u64,
}
use os_tk.Paging.Entry.{present, read_write, set_flag, set_address, get_flag, get_address}
use os_tk.Paging.Entry.Laws.{
  get_flag-bit_at, bit_at-set_flag, get_address-set_flag, get_address-set_address,
}
use os_tk.Paging.Frames.{Frames, request_page}
use os_tk.Paging.Frames.Marks.{is_marked, limit, IsMarkedAs}
use os_tk.Paging.Frames.Ledger.{count, count_update, IsSound, perform, request, perform-IsSound}
use os_tk.Paging.Frames.Request.{Requested, granted, exhausted, request_page-Requested}
use os_tk.Paging.Tables.{point_to}

-- The allocator is sound, its pages lie below 2 ^ 52, and `n` of them at least are free.
pub record CanGrant (base total n : ℕ) (f : Frames) : Type 0 where
  pub sound : IsSound base total f
  pub small : limit f * 4096 ≤ 2 ^ 52
  pub spare : count (limit f) (is_marked f) + n ≤ limit f

-- A request that is granted: a free page `k`, which is marked, with one page less to spare.
pub record IsGranted (base total n : ℕ) (f : Frames) (r : ℕ × Frames) : Type 0 where
  pub page : ℕ
  pub below : page < limit f
  pub was_free : is_marked f page ≡ false
  pub address : r.0 ≡ page * 4096
  pub marks : IsMarkedAs true page f r.1
  pub rest : CanGrant base total n r.1

count_full : (n : ℕ) (marked : ℕ → Bool) → ((j : ℕ) → j < n → marked j ≡ true) → count n marked ≡ n
unfolding count
count_full zero marked h = refl
count_full (suc n) marked h =
    ground (arith, count_full n marked (λ j lt. h j (omega arith)), h n (omega arith))

request_page-IsSound :
    (base total : ℕ) (f : Frames) → IsSound base total f → IsSound base total (request_page f).1
unfolding perform
request_page-IsSound base total f v = perform-IsSound base total request f v

Requested-IsGranted :
    (base total n : ℕ) (f : Frames) (r : ℕ × Frames)
    → CanGrant base total (suc n) f
    → IsSound base total r.1
    → Requested f r
    → IsGranted base total n f r
Requested-IsGranted base total n f r c s (exhausted all e same) =
    absurd (omega (arith, count_full (limit f) (is_marked f) all, c.spare))
Requested-IsGranted base total n f r c s (granted k lt below clear e m) =
    let same : limit r.1 ≡ limit f = ap (λ n. u64 (n * 8)) m.same_size in
    let one =
      count_update (limit f) k true (is_marked f) (is_marked r.1) lt
        (λ j. ground (arith, m.bits j)) in
    record {
      page = k;
      below = lt;
      was_free = clear;
      address = e;
      marks = m;
      rest = record {
        sound = s;
        small = rw same c.small;
        spare = rw same (ground (arith, one, c.spare, clear));
      };
    }

-- With pages to spare a request is granted.
pub request_page-IsGranted :
    (base total n : ℕ) (f : Frames)
    → CanGrant base total (suc n) f
    → IsGranted base total n f (request_page f)
request_page-IsGranted base total n f c =
    Requested-IsGranted base total n f (request_page f) c
      (request_page-IsSound base total f c.sound)
      (request_page-Requested f (omega (arith, c.small)) c.sound.hinted)

pub get_flag-zero : get_flag 0 present ≡ false
get_flag-zero = ground (arith, get_flag-bit_at 0 present)

-- The entry that `MapMemory` writes is present and leads to the page of the address.
pub point_to-present : (pde address : ℕ) → get_flag (point_to pde address) present ≡ true
unfolding point_to
point_to-present pde address = ground (
  arith,
  get_flag-bit_at (point_to pde address) present,
  bit_at-set_flag (set_flag (set_address pde (address / 2 ^ 12)) present true) read_write true 0
      (omega arith),
  bit_at-set_flag (set_address pde (address / 2 ^ 12)) present true 0 (omega arith),
)

pub get_address-point_to :
    (pde address : ℕ) → address < 2 ^ 52 → get_address (point_to pde address) ≡ address / 4096
unfolding point_to
get_address-point_to pde address h =
    rw (get_address-set_flag, get_address-set_flag)
      (get_address-set_address pde (address / 2 ^ 12) (omega arith))
