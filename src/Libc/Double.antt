-- ===== src/Libc/Double.antt =====
-- The floating point of the processor, as an interface: a `double` and a `float` are bit patterns,
-- and the operations are parameters.
use os_tk.Base.{ℕ, Bool}

pub record Doubles : Type 0 where
  -- `(double)i` of an `int`, and of an unsigned 64-bit word.
  pub of_int : ℕ → ℕ
  pub of_u64 : ℕ → ℕ
  pub add : ℕ → ℕ → ℕ
  pub sub : ℕ → ℕ → ℕ
  pub mul : ℕ → ℕ → ℕ
  pub over : ℕ → ℕ → ℕ
  -- `a < b`
  pub less : ℕ → ℕ → Bool
  -- `(float)d`
  pub to_float : ℕ → ℕ
