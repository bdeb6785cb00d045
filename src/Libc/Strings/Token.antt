-- ===== src/Libc/Strings/Token.antt =====
-- `strtok` of lib/libc/src/string.c.
pub mod Delimiters
pub mod First
use os_tk.Base.{
  ℕ, zero, suc, ◌+◌, Bool, true, false, ◌||◌, ◌==◌, if◌then◌else◌, Option, none, some, u32,
}
use os_tk.Libc.Bytes.{Bytes, null, store}

-- The loop over the delimiters at `src[i]`: whether one of them is met, and the memory. The
-- character is written once for each delimiter before it.
pub strtok_delimiters : ℕ → Bytes → (from delm to : ℕ) → Option (Bool × Bytes)
strtok_delimiters zero m from delm to = none
strtok_delimiters (suc fuel) m from delm to =
    let rest = strtok_delimiters fuel (store m to (m from)) from (delm + 1) to in
    if m delm == 0 then some (false, m) else if m from == m delm then some (true, m) else rest

-- The loop over the characters: the index `i` where it ends, and the memory.
pub strtok_loop : ℕ → Bytes → (src delm buffer i k : ℕ) → Option (ℕ × Bytes)
strtok_loop zero m src delm buffer i k = none
strtok_loop (suc fuel) m src delm buffer i k =
    if m (src + i) == 0
    then some (i, m)
    else elim (strtok_delimiters (suc fuel) m (src + i) delm (buffer + k)) [
      | none ↦ none
      | some (true, m1) ↦ some (i, m1)
      | some (false, m1) ↦ strtok_loop fuel m1 src delm buffer (i + 1) (k + 1)
    ]

-- `strtok`: the pointer, the static `currIndex` and the memory after it. `buffer` is the block of
-- 100 bytes that `malloc` returned. The zero goes to `buffer[i]`, where `i` is the index in the
-- source.
pub strtok : ℕ → (buffer : ℕ) → (src delm : ℕ) → (curr_index : ℕ) → Bytes → Option (ℕ × ℕ × Bytes)
strtok fuel buffer src delm curr_index m =
    if (src == null) || (delm == null) || (m (src + curr_index) == 0)
    then some (null, curr_index, m)
    else elim (strtok_loop fuel m src delm buffer curr_index 0) [
      | none ↦ none
      | some (i, m1) ↦ some (buffer, u32 (i + 1), store m1 (buffer + i) 0)
    ]
