-- ===== src/Drivers/Ports.antt =====
-- kernel/src/Core/IO.c: the ports. An access is an event, the last one first; what a port answers
-- is a parameter.
use os_tk.Base.{ℕ, List, ◌∷◌}

pub data Event : Type 0 where
  out : (bits port value : ℕ) → Event
  input : (bits port value : ℕ) → Event

abbrev pub Trace : Type 0
Trace = List Event

abbrev pub outportb : ℕ → ℕ → Trace → Trace
outportb port value t = out 8 port value ∷ t

abbrev pub outportw : ℕ → ℕ → Trace → Trace
outportw port value t = out 16 port value ∷ t

abbrev pub outportl : ℕ → ℕ → Trace → Trace
outportl port value t = out 32 port value ∷ t

-- The value read, and the trace after the read. `answer` is what the device puts on the bus.
abbrev pub inportb : (answer : ℕ → Trace → ℕ) → ℕ → Trace → ℕ × Trace
inportb answer port t = (answer port t, input 8 port (answer port t) ∷ t)

abbrev pub inportw : (answer : ℕ → Trace → ℕ) → ℕ → Trace → ℕ × Trace
inportw answer port t = (answer port t, input 16 port (answer port t) ∷ t)

abbrev pub inportl : (answer : ℕ → Trace → ℕ) → ℕ → Trace → ℕ × Trace
inportl answer port t = (answer port t, input 32 port (answer port t) ∷ t)

abbrev pub io_wait : Trace → Trace
io_wait t = out 8 0x80 0 ∷ t
