-- ===== src/Libc/Strings.antt =====
-- The functions of lib/libc/src/string.c on strings. A loop that runs to a zero byte takes fuel,
-- and `none` means that the fuel ran out; a string shorter than the fuel is always enough.
pub mod Find
pub mod Compare
pub mod Span
pub mod Search
pub mod Concat
pub mod Token
use os_tk.Base.{
  ℕ, zero, suc, ◌+◌, ◌-◌, ◌*◌, ◌≡◌, Bool, true, false, not, ◌&&◌, ◌||◌, ◌==◌, ltb, if◌then◌else◌,
  Option, none, some, u8, u32,
}
use os_tk.Libc.Bytes.{Bytes, null, store, char_int, sub_u32, at_int, int_rounds}

infixl 5 ◌>>=◌
abbrev pub ◌>>=◌ {ℓ κ} : {A : Type ℓ} {B : Type κ} → Option A → (A → Option B) → Option B
none >>= f = none
some a >>= f = f a

pub strlen_loop : ℕ → Bytes → ℕ → ℕ → Option ℕ
strlen_loop zero m pointer size = none
strlen_loop (suc fuel) m pointer size =
    let rest = strlen_loop fuel m (pointer + 1) (size + 1) in
    if m pointer == 0 then some size else rest

unfoldable pub strlen : ℕ → Bytes → ℕ → Option ℕ
unfolding strlen_loop
strlen fuel m buffer = strlen_loop fuel m buffer 0

unfoldable pub strchr : ℕ → Bytes → ℕ → ℕ → Option ℕ
strchr zero m pointer value = none
strchr (suc fuel) m pointer value =
    let rest = strchr fuel m (pointer + 1) value in
    if m pointer == 0
    then some null
    else if char_int (m pointer) == value
    then some pointer
    else rest

strrchr_loop : ℕ → Bytes → ℕ → ℕ → ℕ → Option ℕ
strrchr_loop zero m pointer value ret = none
strrchr_loop (suc fuel) m pointer value ret =
    let rest =
      strrchr_loop fuel m (pointer + 1) value
        (if char_int (m pointer) == value then pointer else ret) in
    if m pointer == 0 then some ret else rest

pub strrchr : ℕ → Bytes → ℕ → ℕ → Option ℕ
unfolding strrchr_loop
strrchr fuel m source value = strrchr_loop fuel m source value null

strpbrk_loop : ℕ → Bytes → ℕ → ℕ → Option ℕ
strpbrk_loop zero m source accept = none
strpbrk_loop (suc fuel) m source accept =
    let rest = strpbrk_loop fuel m (source + 1) accept in
    if m source == 0 then some null else (do
      found ← strchr (suc fuel) m accept (char_int (m source))
      if found == null then rest else some source)

pub strpbrk : ℕ → Bytes → ℕ → ℕ → Option ℕ
unfolding strpbrk_loop
strpbrk fuel m source accept =
    if source == null || accept == null then some null else strpbrk_loop fuel m source accept

-- The loop of `strstr` at the `int` index `i`, with `left` indices to go; `call` is the recursive call.
strstr_scan : (ℕ → Option ℕ) → Bytes → ℕ → ℕ → ℕ → ℕ → Option ℕ
strstr_scan call m haystack c zero i = some null
strstr_scan call m haystack c (suc left) i =
    let rest = strstr_scan call m haystack c left (u32 (i + 1)) in
    if m (at_int haystack i) == c
    then (do
      pointer ← call (at_int haystack i + 1)
      some (if pointer == null then null else pointer - 1))
    else rest

-- The memory does not change, so the length that the loop's test asks for is asked for once.
pub strstr : ℕ → Bytes → ℕ → ℕ → Option ℕ
unfolding strstr_scan
strstr zero m haystack needle = none
strstr (suc fuel) m haystack needle =
    let call = λ (p : ℕ). strstr fuel m p (needle + 1) in
    if m needle == 0 then some haystack else (do
      length ← strlen (suc fuel) m haystack
      strstr_scan call m haystack (m needle) (int_rounds length) 0)

unfoldable pub strcmp : ℕ → Bytes → ℕ → ℕ → Option ℕ
strcmp zero m source1 source2 = none
strcmp (suc fuel) m source1 source2 =
    let rest = strcmp fuel m (source1 + 1) (source2 + 1) in
    if not (m source1 == 0) && (m source1 == m source2)
    then rest
    else some (sub_u32 (m source1) (m source2))

-- `size` bounds the rounds, so there is no fuel.
pub strncmp : Bytes → ℕ → ℕ → ℕ → ℕ
strncmp m source1 source2 zero = 0
strncmp m source1 source2 (suc size) =
    let rest = strncmp m (source1 + 1) (source2 + 1) size in
    if not (m source1 == 0) && (m source1 == m source2)
    then rest
    else sub_u32 (m source1) (m source2)

-- The inner loop of `strspn`: whether it stopped at the terminator of `accept`.
strspn_missing : ℕ → Bytes → ℕ → ℕ → Option Bool
strspn_missing zero m pointer c = none
strspn_missing (suc fuel) m pointer c =
    let rest = strspn_missing fuel m (pointer + 1) c in
    if not (m pointer == 0) && not (m pointer == c) then rest else some (m pointer == 0)

strspn_loop : ℕ → Bytes → ℕ → ℕ → ℕ → Option ℕ
strspn_loop zero m source accept length = none
strspn_loop (suc fuel) m source accept length =
    let rest = strspn_loop fuel m (source + 1) accept (length + 1) in
    if m source == 0 then some length else (do
      missing ← strspn_missing (suc fuel) m accept (m source)
      if missing then some length else rest)

pub strspn : ℕ → Bytes → ℕ → ℕ → Option ℕ
unfolding strspn_loop strspn_missing
strspn fuel m source accept = strspn_loop fuel m source accept 0

strcspn_loop : ℕ → Bytes → ℕ → ℕ → ℕ → Option ℕ
strcspn_loop zero m source reject length = none
strcspn_loop (suc fuel) m source reject length =
    let rest = strcspn_loop fuel m (source + 1) reject (length + 1) in
    if m source == 0 then some length else (do
      found ← strchr (suc fuel) m reject (char_int (m source))
      if found == null then rest else some length)

pub strcspn : ℕ → Bytes → ℕ → ℕ → Option ℕ
unfolding strcspn_loop
strcspn fuel m source reject =
    if source == null || reject == null then some 0 else strcspn_loop fuel m source reject 0

-- The loop of `strcat` and `strncat`: `*pointer++ += *src++`. The pointer behind the last byte and
-- the memory are returned.
strcat_loop : ℕ → Bytes → ℕ → ℕ → Option (ℕ × Bytes)
strcat_loop zero m pointer src = none
strcat_loop (suc fuel) m pointer src =
    let rest =
      strcat_loop fuel (store m pointer (u8 (m pointer + m src))) (pointer + 1) (src + 1) in
    if m src == 0 then some (pointer, m) else rest

-- The memory after the call; the pointer returned is `dest`.
pub strcat : ℕ → Bytes → ℕ → ℕ → Option Bytes
unfolding strcat_loop
strcat fuel m dest src = do
  length ← strlen fuel m dest
  (pointer, m') ← strcat_loop fuel m (dest + length) src
  some (store m' pointer 0)

strncat_loop : ℕ → Bytes → ℕ → ℕ → ℕ × Bytes
strncat_loop zero m pointer src = (pointer, m)
strncat_loop (suc size) m pointer src =
    let rest =
      strncat_loop size (store m pointer (u8 (m pointer + m src))) (pointer + 1) (src + 1) in
    if m src == 0 then (pointer, m) else rest

pub strncat : ℕ → Bytes → ℕ → ℕ → ℕ → Option Bytes
unfolding strncat_loop
strncat fuel m dest src size = do
  length ← strlen fuel m dest
  some (let (pointer, m') = strncat_loop size m (dest + length) src in store m' pointer 0)

-- The loop of `strcpy` at the `int` index `i`: its test asks for the length in the memory of the moment.
strcpy_loop : ℕ → Bytes → ℕ → ℕ → ℕ → Option Bytes
strcpy_loop zero m dest src i = none
strcpy_loop (suc fuel) m dest src i =
    let rest =
      strcpy_loop fuel (store m (at_int dest i) (m (at_int src i))) dest src (u32 (i + 1)) in
    (do length ← strlen (suc fuel) m src; if ltb (at_int 0 i) (length + 1) then rest else some m)

-- The pointer returned and the memory.
pub strcpy : ℕ → Bytes → ℕ → ℕ → Option (ℕ × Bytes)
unfolding strcpy_loop
strcpy fuel m dest src = do
  dest_length ← strlen fuel m dest
  src_length ← strlen fuel m src
  if not (dest_length + 1 == src_length + 1)
      then some (null, m)
      else (do m' ← strcpy_loop fuel m dest src 0; some (dest, m'))
