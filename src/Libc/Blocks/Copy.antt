-- ===== src/Libc/Blocks/Copy.antt =====
-- What the functions on blocks write.
use os_tk.Base.{
  ℕ, zero, suc, ◌+◌, ◌-◌, ◌^◌, u32, true, ◌≤◌, ◌≡◌, ◌⊎◌, refl, Bool, ◌&&◌, ltb, leb, if◌then◌else◌,
  arith, u8,
}
use os_tk.Libc.Bytes.{Bytes, store, int_rounds}
use os_tk.Libc.Blocks.{memset_loop, memset, copy_loop, memcpy}

-- `j` is one of the `n` addresses from `a` on.
abbrev pub in_block : ℕ → ℕ → ℕ → Bool
in_block a n j = leb a j && ltb j (a + n)

memset_loop_lem :
    (left i : ℕ) (m : Bytes) (src value j : ℕ)
    → memset_loop m src value left i j ≡ (if in_block (src + i) left j then u8 value else m j)
unfolding memset_loop
memset_loop_lem zero i m src value j = ground arith
memset_loop_lem (suc left) i m src value j =
    ground (arith, memset_loop_lem left (i + 1) (store m (src + i) (u8 value)) src value j)

-- `memset` fills its block with the low byte of the value and writes nowhere else; it returns the
-- address behind the block.
pub memset_fills :
    (m : Bytes) (src value size : ℕ)
    → let (p, m') = memset m src value size in
      (p ≡ src + size) × ((j : ℕ) → m' j ≡ (if in_block src size j then u8 value else m j))
unfolding memset
memset_fills m src value size = (refl, λ j. ground (arith, memset_loop_lem size 0 m src value j))

-- A copy upwards is right unless it overwrites bytes that it has yet to read.
pub copy_loop_lem :
    (left i : ℕ) (m : Bytes) (to from j : ℕ)
    → i + left ≤ 2 ^ 31
    → (to ≤ from) ⊎ (from + i + left ≤ to + i)
    → copy_loop m to from left i j ≡ (if in_block (to + i) left j then m (from + (j - to)) else m j)
unfolding copy_loop
copy_loop_lem zero i m to from j int apart = ground arith
copy_loop_lem (suc left) i m to from j int apart =
    let next : u32 (i + 1) ≡ i + 1 = omega (arith, int) in
    let nonneg : ltb i (2 ^ 31) ≡ true = ground (arith, int) in
    let rest =
      copy_loop_lem left (i + 1) (store m (to + i) (m (from + i))) to from j (omega (arith, int))
        (omega arith) in
    rw (nonneg, next) (ground (arith, rest))

-- As many rounds as the `size_t` says.
pub int_rounds_lem : (n : ℕ) → n ≤ 2 ^ 31 → int_rounds n ≡ n
int_rounds_lem n small = ground (arith, small)

-- `memcpy` moves a block that lies above its target or does not overlap it, and writes nowhere
-- else. The block has 2 ^ 31 bytes at most.
pub memcpy_copies :
    (m : Bytes) (dest src n : ℕ)
    → n ≤ 2 ^ 31
    → (dest ≤ src) ⊎ (src + n ≤ dest)
    → ((memcpy m dest src n).0 ≡ dest)
      × ((j : ℕ)
          → (memcpy m dest src n).1 j ≡ (if in_block dest n j then m (src + (j - dest)) else m j))
unfolding memcpy
memcpy_copies m dest src n small apart =
    rw (int_rounds_lem n small) (
      refl,
      λ j. ground (arith, copy_loop_lem n 0 m dest src j (omega (arith, small)) (omega arith)),
    )
