-- ===== src/Libc/Ctype.antt =====
-- lib/libc/src/ctype.c.
pub mod Laws
use os_tk.Base.{
  ℕ, zero, suc, ◌+◌, ◌≡◌, Bool, true, false, ◌&&◌, ◌||◌, ◌==◌, if◌then◌else◌, List, [], ◌∷◌, codes,
  u32,
}
use os_tk.Libc.Bytes.{leb_int, sub_u32}

abbrev between : ℕ → ℕ → ℕ → Bool
between lo hi c = leb_int lo c && leb_int c hi

pub isalnum : ℕ → ℕ
isalnum c =
    if between b'a' b'z' c
    then 1
    else if between b'A' b'Z' c
    then 1
    else if between b'0' b'9' c
    then 1
    else 0

unfoldable pub isalpha : ℕ → ℕ
isalpha c = if between b'a' b'z' c then 1 else if between b'A' b'Z' c then 1 else 0

pub iscntrl : ℕ → ℕ
iscntrl c = if between 0x0 0x1F c then 1 else if c == 0x7F then 1 else 0

unfoldable pub isdigit : ℕ → ℕ
isdigit c = if between b'0' b'9' c then 1 else 0

-- `!"#$%&'()*+,-./:;<=>?@[\]^_`{|} ~`
abbrev symbols : List ℕ
symbols =
    0x21 ∷ 0x22 ∷ 0x23 ∷ 0x24 ∷ 0x25 ∷ 0x26 ∷ 0x27 ∷ 0x28 ∷ 0x29 ∷ 0x2a ∷ 0x2b ∷ 0x2c ∷ 0x2d ∷ 0x2e
    ∷ 0x2f ∷ 0x3a ∷ 0x3b ∷ 0x3c ∷ 0x3d ∷ 0x3e ∷ 0x3f ∷ 0x40 ∷ 0x5b ∷ 0x5c ∷ 0x5d ∷ 0x5e ∷ 0x5f
    ∷ 0x60 ∷ 0x7b ∷ 0x7c ∷ 0x7d ∷ 0x20 ∷ 0x7e ∷ []

-- The loop over the symbols that are left.
ispunct_loop : List ℕ → ℕ → ℕ
ispunct_loop [] c = 0
ispunct_loop (s ∷ rest) c = let next = ispunct_loop rest c in if c == s then 1 else next

pub ispunct : ℕ → ℕ
unfolding ispunct_loop
ispunct c = ispunct_loop symbols c

pub isgraph : ℕ → ℕ
isgraph c = if isalpha c == 1 || ispunct c == 1 then 1 else 0

unfoldable pub islower : ℕ → ℕ
islower c = if between b'a' b'z' c then 1 else 0

unfoldable pub isupper : ℕ → ℕ
isupper c = if between b'A' b'Z' c then 1 else 0

pub isxdigit : ℕ → ℕ
isxdigit c =
    if between b'A' b'F' c
    then 1
    else if between b'a' b'f' c
    then 1
    else if between b'0' b'9' c
    then 1
    else 0

pub isprint : ℕ → ℕ
isprint c = if isalpha c == 1 || ispunct c == 1 || c == 0x20 then 1 else 0

unfoldable pub isspace : ℕ → ℕ
isspace c = if c == 0x20 then 1 else 0

pub tolower : ℕ → ℕ
tolower c = if islower c == 1 then c else u32 (sub_u32 c b'A' + b'a')

pub toupper : ℕ → ℕ
toupper c = if islower c == 1 then c else u32 (sub_u32 c b'a' + b'A')
