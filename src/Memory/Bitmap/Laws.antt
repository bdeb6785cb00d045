-- ===== src/Memory/Bitmap/Laws.antt =====
-- What `Bitmap_Get` returns after `Bitmap_Set`.
use os_tk.Base.{
  ℕ, zero, suc, ◌-◌, ◌*◌, ◌/◌, ◌%◌, ◌^◌, ◌≤◌, ◌<◌, ◌≡◌, refl, ap, Bool, true, false, arith, ltb,
  ◌==◌, if◌then◌else◌, u64, not_u8, Bool-cases, le→ltb, lt→ltb, ltb→lt, ==→eq, inl, inr, bit_and,
}
use native.Mathlib.Nat.{one-le-pow, pow-le-pow_right}
use os_tk.Bits.{bit_at, bit_at-le-one, bit_at-bit_and, bit_at-bit_or, bit_at-complement}
use os_tk.Bits.{bit_at-pow, bit_and-pow}
use os_tk.Memory.Bitmap.{Bitmap, bit_indexer, with_bit, store_byte, get, set}

-- The place of a bit within its byte, counted from the lowest.
abbrev place : ℕ → ℕ
place index = 7 - index % 8

indexer_of_lt : (i : ℕ) → i < 8 → (0b10000000 / 2 ^ i) % 2 ^ 8 ≡ 2 ^ (7 - i)
indexer_of_lt zero h = refl
indexer_of_lt (suc zero) h = refl
indexer_of_lt (suc (suc zero)) h = refl
indexer_of_lt (suc (suc (suc zero))) h = refl
indexer_of_lt (suc (suc (suc (suc zero)))) h = refl
indexer_of_lt (suc (suc (suc (suc (suc zero))))) h = refl
indexer_of_lt (suc (suc (suc (suc (suc (suc zero)))))) h = refl
indexer_of_lt (suc (suc (suc (suc (suc (suc (suc zero))))))) h = refl
indexer_of_lt (suc (suc (suc (suc (suc (suc (suc (suc i)))))))) h = absurd (omega arith)

indexer_pow : (index : ℕ) → bit_indexer index ≡ 2 ^ place index
indexer_pow index = indexer_of_lt (index % 8) (omega arith)

ltb-mul-pow : (b e : ℕ) → b ≤ 1 → ltb 0 (b * 2 ^ e) ≡ (b == 1)
ltb-mul-pow zero e h = ground arith
ltb-mul-pow (suc zero) e h = ground (arith, one-le-pow e 2)
ltb-mul-pow (suc (suc b)) e h = absurd (omega arith)

if_true-false : (b : Bool) → (if b then true else false) ≡ b
if_true-false true = refl
if_true-false false = refl

-- `Bitmap_Get` reads one bit of one byte.
get-bit_at :
    (b : Bitmap) (j : ℕ)
    → get b j
      ≡ (if ltb (u64 (b.size * 8)) j then false else bit_at (b.bytes (j / 8)) (place j) == 1)
unfolding get
get-bit_at b j = rw (
  indexer_pow j,
  bit_and-pow,
  if_true-false,
  ltb-mul-pow _ (place j) (bit_at-le-one (b.bytes (j / 8)) (place j)),
)

pow_place-lt : (e : ℕ) → e ≤ 7 → 2 ^ e < 2 ^ 8
pow_place-lt e h = omega (arith, pow-le-pow_right {n = 2} (omega arith) h)

bit_at-with_bit :
    (value : Bool) (e byte k : ℕ)
    → e ≤ 7
    → k ≤ 7
    → bit_at (with_bit value (2 ^ e) byte) k
      ≡ (if e == k then (if value then 1 else 0) else bit_at byte k)
bit_at-with_bit true e byte k he hk = ground (
  arith,
  bit_at-bit_or (bit_and byte (not_u8 (2 ^ e))) (2 ^ e) k,
  bit_at-bit_and byte (not_u8 (2 ^ e)) k,
  bit_at-complement 8 (2 ^ e) k (pow_place-lt e he) (omega arith),
  bit_at-pow e k,
  bit_at-le-one byte k,
)
bit_at-with_bit false e byte k he hk = ground (
  arith,
  bit_at-bit_and byte (not_u8 (2 ^ e)) k,
  bit_at-complement 8 (2 ^ e) k (pow_place-lt e he) (omega arith),
  bit_at-pow e k,
  bit_at-le-one byte k,
)

-- An index that passes the check is in range: `size * 8` itself passes too.
abbrev pub InRange : Bitmap → ℕ → Type 0
InRange b index = index ≤ u64 (b.size * 8)

set-InRange :
    (b : Bitmap) (i : ℕ) (v : Bool)
    → InRange b i
    → set b i v ≡ (true, store_byte b (i / 8) (with_bit v (2 ^ place i) (b.bytes (i / 8))))
unfolding set
set-InRange b i v h = rw (le→ltb (u64 (b.size * 8)) i h, indexer_pow i)

-- An index beyond the range is refused: the bitmap stays, and the bit reads as clear.
pub set_out_of_range :
    (b : Bitmap) (i : ℕ) (v : Bool) → u64 (b.size * 8) < i → set b i v ≡ (false, b)
unfolding set
set_out_of_range b i v h = rw (lt→ltb (u64 (b.size * 8)) i h)

pub get_out_of_range : (b : Bitmap) (i : ℕ) → u64 (b.size * 8) < i → get b i ≡ false
unfolding get
get_out_of_range b i h = rw (lt→ltb (u64 (b.size * 8)) i h)

stored_bit :
    (b : Bitmap) (i j : ℕ) (v : Bool)
    → (bit_at
          ((store_byte b (i / 8) (with_bit v (2 ^ place i) (b.bytes (i / 8)))).bytes (j / 8))
          (place j)
        == 1)
      ≡ (if i == j then v else bit_at (b.bytes (j / 8)) (place j) == 1)
stored_bit b i j v = elim (Bool-cases (i / 8 == j / 8)) [
  | inl same ↦ rw same (
      ground (
        arith,
        bit_at-with_bit v (place i) (b.bytes (i / 8)) (place j),
        ap (λ t. bit_at (b.bytes t) (place j)) (==→eq (i / 8) (j / 8) same),
      ))
  | inr other ↦ rw other (ground arith)
]

-- After a write at an index that passes the check, `Bitmap_Get` returns the written bit at that
-- index and the old bit at every other one.
pub get-set :
    (b : Bitmap) (i j : ℕ) (v : Bool)
    → InRange b i
    → get (set b i v).1 j ≡ (if i == j then v else get b j)
get-set b i j v h = elim (Bool-cases (ltb (u64 (b.size * 8)) j)) [
  | inl beyond ↦
      rw (set-InRange b i v h, get-bit_at, get-bit_at b j, beyond)
        (ground (arith, ltb→lt (u64 (b.size * 8)) j beyond))
  | inr within ↦ rw (set-InRange b i v h, get-bit_at, get-bit_at b j, within) (stored_bit b i j v)
]

pub set-done : (b : Bitmap) (i : ℕ) (v : Bool) → InRange b i → (set b i v).0 ≡ true
set-done b i v h = rw (set-InRange b i v h)

pub size-set : (b : Bitmap) (i : ℕ) (v : Bool) → (set b i v).1.size ≡ b.size
unfolding set
size-set b i v = ground arith

pub buffer-set : (b : Bitmap) (i : ℕ) (v : Bool) → (set b i v).1.buffer ≡ b.buffer
unfolding set
buffer-set b i v = ground arith
