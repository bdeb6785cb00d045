-- ===== src/Libc/Strings/Search.antt =====
-- What `strstr` finds: after the first match of each byte of the needle it goes on behind that
-- match, so the bytes need not be next to each other.
use mathlib.Core.Option
use os_tk.Base.{ℕ, suc, ◌+◌, ◌-◌, ◌≤◌, ◌==◌, if◌then◌else◌, Option, none, some, List, [], ◌∷◌}
use os_tk.Libc.Bytes.{Bytes, null}

-- How many bytes of the haystack are passed until each byte of the needle has been met in order.
abbrev pub passed : List ℕ → List ℕ → Option ℕ
passed [] xs = some 0
passed (c ∷ cs) [] = none
passed (c ∷ cs) (x ∷ xs) = Option.map suc (if x == c then passed cs xs else passed (c ∷ cs) xs)

-- The pointer that `strstr` makes of it: the needle's length before the last byte that it met.
abbrev pub back_from : ℕ → ℕ → Option ℕ → ℕ
back_from p n none = null
back_from p n (some e) = p + e - n

abbrev AtLeast : ℕ → Option ℕ → Type 0
AtLeast n none = Unit {0}
AtLeast n (some e) = n ≤ e
