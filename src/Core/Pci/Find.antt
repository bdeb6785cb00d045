-- ===== src/Core/Pci/Find.antt =====
-- What `ACPI_FindTable` finds.
use os_tk.Base.{
  ℕ, zero, suc, ◌+◌, ◌/◌, ◌<◌, ◌≤◌, ◌≡◌, refl, ap, ◌∙◌, true, ◌&&◌, ◌==◌, ltb, if◌then◌else◌, arith,
  Bool-cases, subst, sym, ==→eq, ==→ne, inl, inr, sub_u64,
}
use os_tk.Core.Pci.{rounds, find_entry, find_table}

module _ (entry : ℕ → ℕ) (character : ℕ → ℕ → ℕ) (signature : ℕ → ℕ) where
  -- The entry 3, if the table has one and its fourth character is the signature's.
  abbrev pub fourth : (entries : ℕ) → ℕ
  fourth entries = if ltb 3 entries && (character (entry 3) 3 == signature 3) then entry 3 else 0

  find_entry-none : (left i : ℕ) → 3 < i → find_entry entry character signature left i ≡ 0
  find_entry-none zero i above = refl
  find_entry-none (suc left) i above =
      let rest = find_entry-none left (i + 1) (omega arith) in ground (arith, rest)

  at_fourth :
      (i left : ℕ)
      → i ≡ 3
      → find_entry entry character signature (suc left) i ≡ fourth (i + suc left)
  at_fourth i left place =
      let rest = find_entry-none left 4 (omega arith) in
      let some_left : ltb 3 (3 + suc left) ≡ true = ground arith in
      subst (λ j. find_entry entry character signature (suc left) j ≡ fourth (j + suc left))
        (sym place)
        (elim (Bool-cases (character (entry 3) 3 == signature 3)) [
          | inl e ↦ rw (e, some_left) refl
          | inr e ↦ rw (e, some_left) rest
        ])

  find_entry-fourth :
      (left i : ℕ) → i ≤ 3 → find_entry entry character signature left i ≡ fourth (i + left)
  find_entry-fourth zero i le = ground arith
  find_entry-fourth (suc left) i le = elim (Bool-cases (i == 3)) [
    | inl here ↦ at_fourth i left (==→eq i 3 here)
    | inr there ↦
        let rest = find_entry-fourth left (i + 1) (omega (arith, ==→ne i 3 there)) in
        let place : i + 1 + left ≡ i + suc left = omega arith in
        let same : find_entry entry character signature (suc left) i
            ≡ find_entry entry character signature left (i + 1) =
          elim (Bool-cases (character (entry i) i == signature i)) [
            | inl e ↦ rw (e, there) refl
            | inr e ↦ rw e refl
          ] in
        same ∙ rest ∙ ap fourth place
  ]

  -- `ACPI_FindTable` returns the table's entry 3 if the fourth character of that entry's signature is
  -- the fourth one wanted, and NULL otherwise, whatever the other entries and characters are.
  pub find_table-fourth :
      (size : ℕ) → find_table entry character signature size ≡ fourth (rounds (sub_u64 size 36 / 8))
  unfolding find_table
  find_table-fourth size =
      let n = rounds (sub_u64 size 36 / 8) in
      let start : 0 + n ≡ n = omega arith in find_entry-fourth n 0 (omega arith) ∙ ap fourth start
