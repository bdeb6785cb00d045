-- ===== src/Drivers/Pic.antt =====
-- kernel/src/Drivers/PIC.c, and the two interrupt handlers of kernel/src/Core/Interrupts.c that
-- return.
use os_tk.Base.{ℕ}
use os_tk.Libc.Double.{Doubles}
use os_tk.Drivers.Pit.{tick}
use os_tk.Drivers.Ports.{Trace, outportb, inportb, io_wait}
use os_tk.Drivers.Console.{Console}
use os_tk.Drivers.Keyboard.{KeyboardState, keyboard_handler}

-- `RemapPIC`
pub remap_pic : (answer : ℕ → Trace → ℕ) → Trace → Trace
remap_pic answer t0 =
    let (a1, t1) = inportb answer 0x21 t0 in
    let (a2, t2) = inportb answer 0xA1 (io_wait t1) in
    let t3 = io_wait (outportb 0x20 0x11 (io_wait t2)) in
    let t4 = io_wait (outportb 0xA0 0x11 t3) in
    let t5 = io_wait (outportb 0x21 0x20 t4) in
    let t6 = io_wait (outportb 0xA1 0x28 t5) in
    let t7 = io_wait (outportb 0x21 4 t6) in
    let t8 = io_wait (outportb 0xA1 2 t7) in
    let t9 = io_wait (outportb 0x21 0x01 t8) in
    let t10 = io_wait (outportb 0xA1 0x01 t9) in outportb 0xA1 a2 (io_wait (outportb 0x21 a1 t10))

-- `PIC_EndSlave` and `PIC_EndMaster`
pub end_slave : Trace → Trace
end_slave t = outportb 0x20 0x20 (outportb 0xA0 0x20 t)

pub end_master : Trace → Trace
end_master t = outportb 0x20 0x20 t

-- `KeyboardInterrupt_Handler`
pub keyboard_interrupt :
    (answer : ℕ → Trace → ℕ)
    → (outside : ℕ) → (KeyboardState × Console) × Trace
    → (KeyboardState × Console) × Trace
keyboard_interrupt answer outside (s, t) =
    let (scan_code, t1) = inportb answer 0x60 t in
    (keyboard_handler outside scan_code s, end_master t1)

-- `PITInterrupt_Handler`
pub pit_interrupt : Doubles → (divisor : ℕ) → ℕ × Trace → ℕ × Trace
pit_interrupt doubles divisor (time_since_boot, t) =
    (tick doubles divisor time_since_boot, end_master t)
