-- ===== src/Memory/Bitmap.antt =====
-- kernel/src/Memory/Bitmap.c. `bytes i` is the byte at `buffer + i`. The code checks an index
-- against the size and no access against the buffer, so a byte is there for every index.
pub mod Laws
use os_tk.Base.{
  ℕ, ◌-◌, ◌*◌, ◌/◌, ◌%◌, ◌^◌, Bool, true, false, bit_and, bit_or, ltb, ◌==◌, if◌then◌else◌, u8, u64,
  not_u8,
}

pub record Bitmap : Type 0 where
  pub buffer : ℕ
  pub size : ℕ
  pub bytes : ℕ → ℕ

-- `bitmap->buffer[i] = v`
abbrev pub store_byte : Bitmap → ℕ → ℕ → Bitmap
store_byte b i v = record b { bytes = λ j. if i == j then v else b.bytes j }

-- `0b10000000 >> bitIndex`, as a `uint8_t`
abbrev pub bit_indexer : ℕ → ℕ
bit_indexer index = u8 (0b10000000 / 2 ^ (index % 8))

unfoldable pub get : Bitmap → ℕ → Bool
get b index =
    if ltb (u64 (b.size * 8)) index
    then false
    else if ltb 0 (bit_and (b.bytes (index / 8)) (bit_indexer index))
    then true
    else false

abbrev pub with_bit : Bool → ℕ → ℕ → ℕ
with_bit value indexer byte =
    let cleared = bit_and byte (not_u8 indexer) in if value then bit_or cleared indexer else cleared

-- The result of `Bitmap_Set`, and the bitmap after it.
unfoldable pub set : Bitmap → ℕ → Bool → Bool × Bitmap
set b index value =
    if ltb (u64 (b.size * 8)) index
    then (false, b)
    else (true, store_byte b (index / 8) (with_bit value (bit_indexer index) (b.bytes (index / 8))))
