-- ===== src/Libc/Blocks.antt =====
-- The functions of lib/libc/src/string.c on blocks of memory. Each loop is counted, and recurs on
-- the rounds that are left.
pub mod Copy
pub mod Match
use os_tk.Base.{
  ℕ, zero, suc, ◌+◌, ◌-◌, Bool, true, false, not, ◌==◌, ltb, leb, u32, u64, if◌then◌else◌, u8, ◌^◌,
}
use os_tk.Libc.Bytes.{Bytes, null, store, at_int, int_rounds}

memset_loop : Bytes → ℕ → ℕ → ℕ → ℕ → Bytes
memset_loop m src value zero i = m
memset_loop m src value (suc left) i =
    memset_loop (store m (src + i) (u8 value)) src value left (i + 1)

-- The pointer returned and the memory.
pub memset : Bytes → ℕ → ℕ → ℕ → ℕ × Bytes
unfolding memset_loop
memset m src value size = (src + size, memset_loop m src value size 0)

-- `for (int i = 0; i < n; i++) to[i] = from[i];`, with `left` rounds to go.
pub copy_loop : Bytes → ℕ → ℕ → ℕ → ℕ → Bytes
copy_loop m to from zero i = m
copy_loop m to from (suc left) i =
    copy_loop (store m (at_int to i) (m (at_int from i))) to from left (u32 (i + 1))

pub memcpy : Bytes → ℕ → ℕ → ℕ → ℕ × Bytes
memcpy m dest src n = (dest, copy_loop m dest src (int_rounds n) 0)

pub strncpy : Bytes → ℕ → ℕ → ℕ → ℕ × Bytes
strncpy m dest src size = (dest, copy_loop m dest src (int_rounds size) 0)

memchr_loop : Bytes → ℕ → ℕ → ℕ → ℕ
memchr_loop m pointer value zero = null
memchr_loop m pointer value (suc size) =
    let rest = memchr_loop m (pointer + 1) value size in
    if not (m pointer == u8 value) then rest else pointer

pub memchr : Bytes → ℕ → ℕ → ℕ → ℕ
unfolding memchr_loop
memchr m src value size = if src == null then null else memchr_loop m src value size

-- The `int` -1.
abbrev pub minus_one : ℕ
minus_one = 2 ^ 32 - 1

memcmp_loop : Bytes → ℕ → ℕ → ℕ → ℕ
memcmp_loop m pointer qointer zero = 0
memcmp_loop m pointer qointer (suc size) =
    let rest = memcmp_loop m (pointer + 1) (qointer + 1) size in
    if not (m pointer == m qointer)
    then (if ltb (m qointer) (m pointer) then 1 else minus_one)
    else rest

pub memcmp : Bytes → ℕ → ℕ → ℕ → ℕ
unfolding memcmp_loop
memcmp m source1 source2 size = if source1 == source2 then 0 else memcmp_loop m source1 source2 size
