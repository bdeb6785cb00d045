-- ===== src/Drivers/Pit.antt =====
-- kernel/src/Drivers/PIT.c. Times are doubles, and their arithmetic is a parameter. A wait sees the
-- ticks to come.
pub mod Sleep
use os_tk.Base.{ℕ, zero, suc, Option, none, some, ◌/◌, ◌^◌, ltb, if◌then◌else◌, bit_and, u8, u16}
use os_tk.Libc.Double.{Doubles}
use os_tk.Drivers.Ports.{Trace, outportb, io_wait}

abbrev base_freq : ℕ
base_freq = 1193182

-- `PIT_SetDivisor`: the static `Divisor` and the ports after it.
pub set_divisor : ℕ → Trace → ℕ × Trace
set_divisor divisor t =
    let raised = if ltb divisor 100 then 100 else divisor in
    let low = outportb 0x40 (u8 (bit_and raised 0x00FF)) t in
    (raised, outportb 0x40 (u8 (bit_and raised 0xFF00 / 2 ^ 8)) (io_wait low))

-- `PIT_SetFrequency`, for a frequency that is not 0; the argument of `PIT_SetDivisor` has 16 bits.
pub set_frequency : ℕ → Trace → ℕ × Trace
set_frequency frequency t = set_divisor (u16 (base_freq / frequency)) t

-- `PIT_GetFrequency`
abbrev pub pit_get_frequency : ℕ → ℕ
pit_get_frequency divisor = base_freq / divisor

-- `PIT_Tick`: the static `TimeSinceBoot` after it.
pub tick : Doubles → (divisor time_since_boot : ℕ) → ℕ
tick doubles divisor time_since_boot =
    doubles.add time_since_boot
      (doubles.over (doubles.of_int 1) (doubles.of_u64 (pit_get_frequency divisor)))

-- The loop of `PIT_SleepSeconds`, over the ticks to come: the ticks left and `TimeSinceBoot`, or
-- `none` if it still waits after the last of them.
pub sleep_loop : Doubles → (divisor end_time : ℕ) → (ticks time_since_boot : ℕ) → Option (ℕ × ℕ)
sleep_loop doubles divisor end_time zero time_since_boot =
    if doubles.less time_since_boot end_time then none else some (0, time_since_boot)
sleep_loop doubles divisor end_time (suc ticks) time_since_boot =
    let rest = sleep_loop doubles divisor end_time ticks (tick doubles divisor time_since_boot) in
    if doubles.less time_since_boot end_time then rest else some (suc ticks, time_since_boot)

-- `PIT_SleepSeconds`
pub sleep_seconds : Doubles → (divisor seconds : ℕ) → (ticks time_since_boot : ℕ) → Option (ℕ × ℕ)
sleep_seconds doubles divisor seconds ticks time_since_boot =
    sleep_loop doubles divisor (doubles.add time_since_boot seconds) ticks time_since_boot

-- `PIT_SleepMillis`
pub sleep_millis : Doubles → (divisor millis : ℕ) → (ticks time_since_boot : ℕ) → Option (ℕ × ℕ)
sleep_millis doubles divisor millis ticks time_since_boot =
    sleep_seconds doubles divisor (doubles.over (doubles.of_u64 millis) (doubles.of_int 1000)) ticks
      time_since_boot
