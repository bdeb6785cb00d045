-- ===== src/Drivers/Pit/Sleep.antt =====
-- `PIT_SleepSeconds` wakes up.
use os_tk.Base.{ℕ, ◌+◌, ◌<◌, ◌≤◌, ◌≡◌, ltb}
use os_tk.Libc.Double.{Doubles}
use os_tk.Drivers.Pit.{pit_get_frequency}

-- The doubles that the clock passes through on the way to `end_time`: `position` puts them in the
-- order in which `<` has them, and to add the period to one that is below the end moves it up by
-- `step` at least, as IEEE 754 has it where the period is not lost in the rounding.
pub record IsClock (doubles : Doubles) (position : ℕ → ℕ) (end_time period step : ℕ) : Type 0 where
  pub ordered : (a b : ℕ) → doubles.less a b ≡ ltb (position a) (position b)
  pub moves :
      (time : ℕ)
      → position time < position end_time
      → position time + step ≤ position (doubles.add time period)

-- `1 / (double)PIT_GetFrequency()`
abbrev pub period_of : Doubles → (divisor : ℕ) → ℕ
period_of doubles divisor =
    doubles.over (doubles.of_int 1) (doubles.of_u64 (pit_get_frequency divisor))
