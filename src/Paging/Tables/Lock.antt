-- ===== src/Paging/Tables/Lock.antt =====
-- What a page that is locked costs the allocator, and the tables with which the kernel starts.
use os_tk.Base.{
  ℕ, suc, ◌+◌, ◌*◌, ◌/◌, ◌≤◌, ◌<◌, ◌≡◌, refl, ap, true, arith, u64, ltb, ◌==◌, ==-refl,
  if◌then◌else◌, Bool-cases, inl, inr, ltb→lt, ltb→le,
}
use os_tk.Paging.Entry.{present, get_flag}
use os_tk.Paging.Frames.{Frames, lock_page, lock_pages, request_page}
use os_tk.Paging.Frames.Kept.{lock_pages_rounds}
use os_tk.Paging.Frames.Marks.{is_marked, limit, PageEffect-IsMarkedAs, lock_page-PageEffect}
use os_tk.Paging.Frames.Ledger.{
  count, count_same, count_update, IsSound, perform, lock, perform-IsSound,
}
use os_tk.Paging.Tables.{slot, clear_page}
use os_tk.Paging.Tables.Supply.{CanGrant, request_page-IsGranted, get_flag-zero}
use os_tk.Paging.Tables.Tree.{Shape, IsTree}

lock_page-IsSound :
    (base total address : ℕ) (f : Frames)
    → IsSound base total f
    → IsSound base total (lock_page address f)
unfolding perform
lock_page-IsSound base total address f v = perform-IsSound base total (lock address) f v

lock_page-CanGrant :
    (base total n address : ℕ) (f : Frames)
    → CanGrant base total (suc n) f
    → CanGrant base total n (lock_page address f)
lock_page-CanGrant base total n address f c =
    let t = lock_page address f in
    let k = address / 4096 in
    let m = PageEffect-IsMarkedAs (lock_page-PageEffect address f) in
    let same : limit t ≡ limit f = ap (λ z. u64 (z * 8)) m.same_size in
    let one_more : count (limit f) (is_marked t) ≤ count (limit f) (is_marked f) + 1 =
      elim (Bool-cases (ltb k (limit f))) [
        | inl within ↦
            let lt = ltb→lt _ _ within in
            let moved =
              count_update (limit f) k true (is_marked f) (is_marked t) lt
                (λ j. ground (arith, m.bits j, lt)) in
            ground (arith, moved)
        | inr beyond ↦
            let le = ltb→le _ _ beyond in
            let kept =
              count_same (limit f) k (is_marked t k) (is_marked f) (is_marked t) le
                (λ j. ground (arith, m.bits j, le)) in
            omega (arith, kept)
      ] in
    record {
      sound = lock_page-IsSound base total address f c.sound;
      small = rw same c.small;
      spare = rw same (omega (arith, one_more, c.spare));
    }

pub lock_pages-CanGrant :
    (base total address left n : ℕ) (f : Frames)
    → CanGrant base total (left + n) f
    → CanGrant base total n (lock_pages address left f)
lock_pages-CanGrant base total address left n f c =
    lock_pages_rounds (CanGrant base total) (λ n a s. lock_page-CanGrant base total n a s) address
      left n f c

no_entry : {A : Type 0} (w : ℕ) → w ≡ 0 → get_flag w present ≡ true → A
no_entry w z p = absurd (ground (arith, ap (λ v. get_flag v present) z, p, get_flag-zero))

-- The root alone.
abbrev pub only_root : ℕ → Shape
only_root root = record { level = λ t. if t == root then 4 else 0; up = λ t. 0 }

pub empty-IsTree :
    (base total n : ℕ) (f : Frames) (words : ℕ → ℕ)
    → CanGrant base total (suc n) f
    → let (root, frames) = request_page f in
      IsTree
        (only_root root)
        (record { page_table_map4 = root; frames = frames; words = clear_page words root })
empty-IsTree base total n f words c =
    let granted = request_page-IsGranted base total n f c in
    let root = (request_page f).0 in
    let marked : is_marked (request_page f).1 granted.page ≡ true =
      ground (arith, granted.marks.bits granted.page, granted.below, ==-refl granted.page) in
    let is_root : (t : ℕ) → 0 < (only_root root).level t → t ≡ root = λ t h. ground (arith, h) in
    let empty : (t i : ℕ)
        → i < 512
        → 1 < (only_root root).level t
        → clear_page words root (slot t i) ≡ 0 =
      λ t i lt h. ground (arith, lt, h) in
    record {
      root = rw (==-refl root) refl;
      aligned = λ t h. omega (arith, is_root t h, granted.address);
      taken = λ t h.
          let page : t / 4096 ≡ granted.page = omega (arith, is_root t h, granted.address) in
          rw page marked;
      child_level = λ t i lt h p. no_entry (clear_page words root (slot t i)) (empty t i lt h) p;
      child_up = λ t i lt h p. no_entry (clear_page words root (slot t i)) (empty t i lt h) p;
    }
