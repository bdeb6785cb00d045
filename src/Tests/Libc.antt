-- ===== src/Tests/Libc.antt =====
-- Runs of the C library's functions at concrete strings.
use os_tk.Base.{
  ℕ, ◌+◌, ◌-◌, ◌≡◌, ◌↔◌, refl, inr, ◌==◌, ltb, leb, ◌&&◌, if◌then◌else◌, some, List, [], ◌∷◌,
  get_or, arith, u8,
}
use os_tk.Libc.Bytes.{Bytes, IsString}
use os_tk.Libc.Ctype.{isdigit, isgraph, isprint}
use os_tk.Libc.Ctype.Laws.{isprint_iff}
use os_tk.Libc.Strings.{strcmp, strcat}
use os_tk.Libc.Strings.Compare.{strcmp-zero_iff}
use os_tk.Libc.Strings.Concat.{strcat-adds}

-- "abcb" at 1 and "cb" at 6.
abbrev memory : Bytes
memory q = get_or (0 ∷ 97 ∷ 98 ∷ 99 ∷ 98 ∷ 0 ∷ 99 ∷ 98 ∷ 0 ∷ []) q 0

abbrev long : List ℕ
long = 97 ∷ 98 ∷ 99 ∷ 98 ∷ []

abbrev short : List ℕ
short = 99 ∷ 98 ∷ []

tail-IsString : IsString memory 2 (98 ∷ 99 ∷ 98 ∷ [])
tail-IsString = (
  refl,
  omega arith,
  omega arith,
  (refl, omega arith, omega arith, (refl, omega arith, omega arith, refl)),
)

long-IsString : IsString memory 1 long
long-IsString = (refl, omega arith, omega arith, tail-IsString)

short-IsString : IsString memory 6 short
short-IsString = (refl, omega arith, omega arith, (refl, omega arith, omega arith, refl))

strcmp-zero_iff_example : (strcmp 5 memory 1 6 ≡ some 0) ↔ (long ≡ short)
strcmp-zero_iff_example =
    strcmp-zero_iff 5 memory 1 6 long short long-IsString short-IsString (omega arith)

strcat-adds_example :
    (m' : Bytes) × (strcat 7 memory 6 1 ≡ some m')
    × ((j : ℕ)
        → m' j ≡ (
            if j == 12
            then 0
            else if leb 8 j && ltb j 12
            then u8 (memory j + get_or long (j - 8) 0)
            else memory j))
strcat-adds_example =
    strcat-adds 7 memory 6 1 short long short-IsString long-IsString (omega arith)
      (inr (omega arith))

isprint_iff_example : (isprint 48 ≡ 0) × (isgraph 48 ≡ isprint 48)
unfolding isdigit
isprint_iff_example = isprint_iff 48 (omega arith)
