-- ===== src/Libc/Strings/Token/First.antt =====
-- The first token that `strtok` returns.
use os_tk.Base.{
  ℕ, suc, ◌+◌, ◌<◌, ◌≤◌, ◌≡◌, ◌⊎◌, Bool, true, false, List, [], ◌∷◌, length, Option, some, none,
  u32,
}
use os_tk.Libc.Bytes.{Bytes, store}
use os_tk.Libc.Strings.Token.{strtok_loop}
use os_tk.Libc.Strings.Token.Delimiters.{NotAmong, Among}

-- The bytes `xs` at `p`, none of them a delimiter, end at a delimiter or at a zero.
abbrev pub IsToken : (ds : List ℕ) → Bytes → ℕ → List ℕ → Type 0
IsToken ds m p [] = (m p ≡ 0) ⊎ Among (m p) ds
IsToken ds m p (x ∷ xs) = (m p ≡ x) × (0 < x) × (x < 256) × NotAmong x ds × IsToken ds m (p + 1) xs

module _ (src delm buffer d : ℕ) (ds : List ℕ)
    (clear_delm : (delm + suc (length ds) < buffer) ⊎ (buffer + 100 ≤ delm)) where
  -- What the loop does with the outcome of the delimiters.
  abbrev go_on : (fuel i : ℕ) → Option (Bool × Bytes) → Option (ℕ × Bytes)
  go_on fuel i none = none
  go_on fuel i (some (true, m1)) = some (i, m1)
  go_on fuel i (some (false, m1)) = strtok_loop fuel m1 src delm buffer (i + 1) (i + 1)

-- What `strtok` does with the outcome of its loop.
abbrev end_token : (buffer : ℕ) → Option (ℕ × Bytes) → Option (ℕ × ℕ × Bytes)
end_token buffer none = none
end_token buffer (some (i, m1)) = some (buffer, u32 (i + 1), store m1 (buffer + i) 0)
