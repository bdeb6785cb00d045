-- ===== src/Paging/Entry/Laws.antt =====
-- The fields of a page table entry, bit by bit.
use os_tk.Base.{every_below, every_below_at}
use os_tk.Base.{
  ℕ, zero, suc, ◌+◌, ◌-◌, ◌*◌, ◌/◌, ◌%◌, ◌^◌, ◌≤◌, ◌<◌, ◌≡◌, refl, ap, Bool, true, false, arith,
  ltb, leb, ◌==◌, ◌&&◌, if◌then◌else◌, u64, not_u64, bit_and, ==→eq, Bool-cases, inl, inr, ◌⊎◌,
}
use native.Mathlib.Nat.{one-le-pow}
use os_tk.Bits.{bit_at, bit_at-le-one, bit_at-bit_and, bit_at-bit_or, bit_at-complement}
use os_tk.Bits.{bit_at-pow, bit_and-pow, bit_at_ext}
use os_tk.Bits.Step.{bit_and_step, bit_and-zero}
use os_tk.Bits.Shift.{bit_and-lt, bit_at-div_page, bit_at-mul_page, bit_at-mul_low}
use os_tk.Paging.Entry.{
  Flag, flag_bit, present, init_page_map_index, set_flag, set_address, get_flag, get_address,
}

odd_mask : (a m : ℕ) → bit_and a (2 * m + 1) ≡ bit_and (a / 2) m * 2 + a % 2
odd_mask a m =
    let half : (2 * m + 1) / 2 ≡ m = omega arith in
    omega (arith, bit_and_step a (2 * m + 1), ap (λ t. bit_and (a / 2) t) half)

-- A mask of nine ones is the remainder by 512.
bit_and-index : (a : ℕ) → bit_and a 0x1ff ≡ a % 512
bit_and-index a = omega (
  arith,
  odd_mask a 255,
  odd_mask (a / 2) 127,
  odd_mask (a / 2 / 2) 63,
  odd_mask (a / 2 / 2 / 2) 31,
  odd_mask (a / 2 / 2 / 2 / 2) 15,
  odd_mask (a / 2 / 2 / 2 / 2 / 2) 7,
  odd_mask (a / 2 / 2 / 2 / 2 / 2 / 2) 3,
  odd_mask (a / 2 / 2 / 2 / 2 / 2 / 2 / 2) 1,
  odd_mask (a / 2 / 2 / 2 / 2 / 2 / 2 / 2 / 2) 0,
  bit_and-zero (a / 2 / 2 / 2 / 2 / 2 / 2 / 2 / 2 / 2),
)

-- The four indices of a virtual address are the base-512 digits of its page number, each below
-- 512.
pub init_page_map_index_digits :
    (v : ℕ)
    → let i = init_page_map_index v in
      (i.page < 512)
      × (i.page_table < 512)
      × (i.page_directory < 512)
      × (i.page_directory_pointer < 512)
      × (((i.page_directory_pointer * 512 + i.page_directory) * 512 + i.page_table) * 512 + i.page
          ≡ v / 2 ^ 12 % 2 ^ 36)
unfolding init_page_map_index
init_page_map_index_digits v = omega (
  arith,
  bit_and-index (v / 4096),
  bit_and-index (v / 4096 / 512),
  bit_and-index (v / 4096 / 512 / 512),
  bit_and-index (v / 4096 / 512 / 512 / 512),
)

-- The same indices, by the shifts that a walk of the tables makes.
pub init_page_map_index_walk :
    (v : ℕ)
    → let i = init_page_map_index v in
      (i.page_directory_pointer ≡ v / 2 ^ 39 % 512)
      × (i.page_directory ≡ v / 2 ^ 30 % 512)
      × (i.page_table ≡ v / 2 ^ 21 % 512)
      × (i.page ≡ v / 2 ^ 12 % 512)
unfolding init_page_map_index
init_page_map_index_walk v = omega (
  arith,
  bit_and-index (v / 4096),
  bit_and-index (v / 4096 / 512),
  bit_and-index (v / 4096 / 512 / 512),
  bit_and-index (v / 4096 / 512 / 512 / 512),
)

flag_bit-lt : (f : Flag) → flag_bit f < 64
flag_bit-lt present = omega arith
flag_bit-lt _ = omega arith

selector : (f : Flag) → u64 (2 ^ flag_bit f) ≡ 2 ^ flag_bit f
selector present = refl
selector _ = refl

selector-lt : (f : Flag) → 2 ^ flag_bit f < 2 ^ 64
selector-lt present = omega arith
selector-lt _ = omega arith

pub get_flag-bit_at : (w : ℕ) (f : Flag) → get_flag w f ≡ (bit_at w (flag_bit f) == 1)
unfolding get_flag
get_flag-bit_at w f =
    rw (selector f, bit_and-pow) (cases (bit_at w (flag_bit f)) (bit_at-le-one w (flag_bit f)))
  where
    cases : (b : ℕ) → b ≤ 1 → (if ltb 0 (b * 2 ^ flag_bit f) then true else false) ≡ (b == 1)
    cases zero h = ground arith
    cases (suc zero) h = ground (arith, one-le-pow (flag_bit f) 2)
    cases (suc (suc b)) h = absurd (omega arith)

-- `SetFlag` writes the flag's own bit and no other of the 64.
pub bit_at-set_flag :
    (w : ℕ) (f : Flag) (enabled : Bool) (k : ℕ)
    → k < 64
    → bit_at (set_flag w f enabled) k
      ≡ (if flag_bit f == k then (if enabled then 1 else 0) else bit_at w k)
unfolding set_flag
bit_at-set_flag w f enabled k h = rw (selector f) (
    ground (
      arith,
      bit_at-bit_or (bit_and w (not_u64 (2 ^ flag_bit f))) (2 ^ flag_bit f) k,
      bit_at-bit_and w (not_u64 (2 ^ flag_bit f)) k,
      bit_at-complement 64 (2 ^ flag_bit f) k (selector-lt f) h,
      bit_at-pow (flag_bit f) k,
      bit_at-le-one w k,
    ))

-- The address field takes the bits from 12 to 51.
abbrev in_field : ℕ → Bool
in_field k = leb 12 k && ltb k 52

keep_mask : (k : ℕ) → k < 64 → bit_at 0xfff0000000000fff k ≡ (if in_field k then 0 else 1)
unfolding every_below
keep_mask k h =
    ==→eq _ _ (
      every_below_at 64 (λ k. bit_at 0xfff0000000000fff k == (if in_field k then 0 else 1)) k refl
        h)

field_mask : (k : ℕ) → k < 64 → bit_at 0x000ffffffffff000 k ≡ (if in_field k then 1 else 0)
unfolding every_below
field_mask k h =
    ==→eq _ _ (
      every_below_at 64 (λ k. bit_at 0x000ffffffffff000 k == (if in_field k then 1 else 0)) k refl
        h)

low_mask : (k : ℕ) → k < 64 → bit_at 0x000000ffffffffff k ≡ (if ltb k 40 then 1 else 0)
unfolding every_below
low_mask k h =
    ==→eq _ _
      (every_below_at 64 (λ k. bit_at 0x000000ffffffffff k == (if ltb k 40 then 1 else 0)) k refl h)

-- The address, shifted into the field.
placed : ℕ → ℕ
placed address = u64 (bit_and address 0x000000ffffffffff * 2 ^ 12)

placed-lt : (address : ℕ) → placed address ≡ bit_and address 0x000000ffffffffff * 2 ^ 12
unfolding placed
placed-lt address = omega (arith, bit_and-lt 40 address 0x000000ffffffffff (omega arith))

bit_at-placed :
    (address k : ℕ)
    → k < 64
    → bit_at (placed address) k ≡ (if in_field k then bit_at address (k - 12) else 0)
bit_at-placed address k h = rw (placed-lt address) (elim (Bool-cases (ltb k 12)) [
  | inl low ↦
      ground (arith, bit_at-mul_low 12 (bit_and address 0x000000ffffffffff) k (ground arith))
  | inr high ↦
      let e : 12 + (k - 12) ≡ k = ground arith in
      ground (
        arith,
        ap (λ t. bit_at (bit_and address 0x000000ffffffffff * 2 ^ 12) t) e,
        bit_at-mul_page (bit_and address 0x000000ffffffffff) (k - 12),
        bit_at-bit_and address 0x000000ffffffffff (k - 12),
        low_mask (k - 12) (omega arith),
        bit_at-le-one address (k - 12),
      )
])

-- `SetAddress` writes the low forty bits of the address into the bits 12 to 51, and keeps all the
-- others: the flags.
pub bit_at-set_address :
    (w address k : ℕ)
    → k < 64
    → bit_at (set_address w address) k
      ≡ (if leb 12 k && ltb k 52 then bit_at address (k - 12) else bit_at w k)
unfolding set_address placed
bit_at-set_address w address k h = ground (
  arith,
  bit_at-bit_or (bit_and w 0xfff0000000000fff) (placed address) k,
  bit_at-bit_and w 0xfff0000000000fff k,
  keep_mask k h,
  bit_at-placed address k h,
  bit_at-le-one w k,
  bit_at-le-one address (k - 12),
)

pub get_address-lt : (w : ℕ) → get_address w < 2 ^ 40
unfolding get_address
get_address-lt w = omega (arith, bit_and-lt 52 w 0x000ffffffffff000 (omega arith))

pub bit_at-get_address : (w k : ℕ) → k < 40 → bit_at (get_address w) k ≡ bit_at w (12 + k)
unfolding get_address
bit_at-get_address w k h = ground (
  arith,
  bit_at-div_page (bit_and w 0x000ffffffffff000) k,
  bit_at-bit_and w 0x000ffffffffff000 (12 + k),
  field_mask (12 + k) (omega arith),
  bit_at-le-one w (12 + k),
)

-- What `SetAddress` stores, `GetAddress` returns, if it fits forty bits.
pub get_address-set_address :
    (w address : ℕ) → address < 2 ^ 40 → get_address (set_address w address) ≡ address
get_address-set_address w address h =
    bit_at_ext 40 (get_address (set_address w address)) address (get_address-lt _) h (λ k lt.
      ground (
        arith,
        bit_at-get_address (set_address w address) k lt,
        bit_at-set_address w address (12 + k) (omega arith),
        ap (λ t. bit_at address t) (add_back k),
      ))
  where
    add_back : (k : ℕ) → 12 + k - 12 ≡ k
    add_back k = omega arith

-- A flag that is set or cleared leaves the address as it was, and every other flag.
pub get_address-set_flag :
    (w : ℕ) (f : Flag) (enabled : Bool) → get_address (set_flag w f enabled) ≡ get_address w
get_address-set_flag w f enabled =
    bit_at_ext 40 (get_address (set_flag w f enabled)) (get_address w) (get_address-lt _)
      (get_address-lt _)
      (λ k lt. ground (
        arith,
        bit_at-get_address (set_flag w f enabled) k lt,
        bit_at-get_address w k lt,
        bit_at-set_flag w f enabled (12 + k) (omega arith),
        outside f,
      ))
  where
    outside : (f : Flag) → (flag_bit f < 12) ⊎ (52 ≤ flag_bit f)
    outside present = omega arith
    outside _ = omega arith
