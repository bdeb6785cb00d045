-- ===== src/Paging/Tables/Route.antt =====
-- The way from the root to a last-level table, and the hardware's walk along it.
use os_tk.Base.{
  ℕ, ◌+◌, ◌/◌, ◌%◌, ◌^◌, ◌≡◌, refl, true, if◌then◌else◌, Bool-cases, inl, inr, Option, some, none,
}
use os_tk.Paging.Entry.{present, get_flag}
use os_tk.Paging.Tables.{slot}
use os_tk.Paging.Tables.Tree.{target}

infixl 5 ◌>>=◌
abbrev ◌>>=◌ : Option ℕ → (ℕ → Option ℕ) → Option ℕ
none >>= f = none
some a >>= f = f a

-- One level of the walk that the processor makes: a page fault, or the address in the entry.
abbrev pub descend : (ℕ → ℕ) → ℕ → ℕ → Option ℕ
descend words table index =
    if get_flag (words (slot table index)) present
    then some (target (words (slot table index)))
    else none

-- The physical address that the processor finds for `v` from the root, by the four base-512 digits
-- of the page number.
unfoldable pub translate : (ℕ → ℕ) → ℕ → ℕ → Option ℕ
translate words root v = do
  t3 ← descend words root (v / 2 ^ 39 % 512)
  t2 ← descend words t3 (v / 2 ^ 30 % 512)
  t1 ← descend words t2 (v / 2 ^ 21 % 512)
  page ← descend words t1 (v / 2 ^ 12 % 512)
  some (page + v % 2 ^ 12)

-- The entry `j` of table `x` is present and leads to `y`.
pub record Leads (words : ℕ → ℕ) (x j y : ℕ) : Type 0 where
  pub there : get_flag (words (slot x j)) present ≡ true
  pub goes : target (words (slot x j)) ≡ y

pub descend-Leads : {words : ℕ → ℕ} {x j y : ℕ} → Leads words x j y → descend words x j ≡ some y
descend-Leads l = rw (l.there, l.goes)

pub record Route (words : ℕ → ℕ) (root a b c t1 : ℕ) : Type 0 where
  pub t3 : ℕ
  pub t2 : ℕ
  pub first : Leads words root a t3
  pub second : Leads words t3 b t2
  pub third : Leads words t2 c t1

pub translate-Route :
    {words : ℕ → ℕ} {root t1 page : ℕ} (v : ℕ)
    → Route words root (v / 2 ^ 39 % 512) (v / 2 ^ 30 % 512) (v / 2 ^ 21 % 512) t1
    → Leads words t1 (v / 2 ^ 12 % 512) page
    → translate words root v ≡ some (page + v % 2 ^ 12)
unfolding translate
translate-Route v r l =
    rw (descend-Leads r.first, descend-Leads r.second, descend-Leads r.third, descend-Leads l)

-- What a successful walk has passed.
pub record Walked (words : ℕ → ℕ) (root v x : ℕ) : Type 0 where
  pub t1 : ℕ
  pub page : ℕ
  pub route : Route words root (v / 2 ^ 39 % 512) (v / 2 ^ 30 % 512) (v / 2 ^ 21 % 512) t1
  pub leaf : Leads words t1 (v / 2 ^ 12 % 512) page
  pub result : x ≡ page + v % 2 ^ 12

Leads-cases :
    (words : ℕ → ℕ) (x j : ℕ) (f : ℕ → Option ℕ) {y : ℕ}
    → (descend words x j >>= f) ≡ some y
    → (z : ℕ) × Leads words x j z × (f z ≡ some y)
Leads-cases words x j f e = elim (Bool-cases (get_flag (words (slot x j)) present)) [
  | inl p ↦ (target (words (slot x j)), record { there = p; goes = refl }, rw p at e)
  | inr q ↦ absurd (none_some (rw q at e))
]
  where
    none_some : {y : ℕ} → none ≡ some y → ⊥
    none_some h = cc

pub translate-Walked :
    {words : ℕ → ℕ} {root v x : ℕ} → translate words root v ≡ some x → Walked words root v x
unfolding translate
translate-Walked {words} {root} {v} {x} e =
    let (t3, l3, e3) = Leads-cases words root (v / 2 ^ 39 % 512) _ e in
    let (t2, l2, e2) = Leads-cases words t3 (v / 2 ^ 30 % 512) _ e3 in
    let (t1, l1, e1) = Leads-cases words t2 (v / 2 ^ 21 % 512) _ e2 in
    let (page, l0, e0) = Leads-cases words t1 (v / 2 ^ 12 % 512) _ e1 in
    record {
      t1 = t1;
      page = page;
      route = record { t3 = t3; t2 = t2; first = l3; second = l2; third = l1 };
      leaf = l0;
      result = cc e0;
    }
