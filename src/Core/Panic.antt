-- ===== src/Core/Panic.antt =====
-- kernel/src/Core/Panic.c, and the handlers of kernel/src/Core/Interrupts.c that panic. A string
-- literal lies at an address that the build chooses.
use os_tk.Base.{ℕ, Option, none, some, List, codes, get_or, [], ◌∷◌}
use os_tk.Drivers.Display.{Display, clear_color, render_text}

-- `Panic`, up to its endless loop. The fuel is above the length of the three texts.
pub panic : (fuel : ℕ) → (literal : List ℕ → ℕ) → (panic_message : ℕ) → Display → Option Display
panic fuel literal panic_message s =
    elim (render_text fuel (literal (codes "==== KERNEL PANIC ====")) 0 0
      (clear_color 0xFF0000 s)) [
        | none ↦ none
        | some s1 ↦ elim (render_text fuel (literal (codes "ERR: ")) 0 1 s1) [
          | none ↦ none
          | some s2 ↦ render_text fuel panic_message 5 1 s2
        ]
      ]

-- The messages of the handlers, in the order of their entries; 0x11 has none.
abbrev pub panic_messages : List (List ℕ)
panic_messages =
    codes "Division by zero detected"
    ∷ codes "Debug detected"
    ∷ codes "Non maskable interrupt detected"
    ∷ codes "Breakpoint detected"
    ∷ codes "Detected overflow"
    ∷ codes "Out of bound exception detected"
    ∷ codes "Invalid OpCode"
    ∷ codes "No coprocessor found"
    ∷ codes "Double Fault detected"
    ∷ codes "Coprocessor segment overrun"
    ∷ codes "Bad TSS detected"
    ∷ codes "Segment not present"
    ∷ codes "Stack fault detected"
    ∷ codes "General Protection Fault detected"
    ∷ codes "Page fault detected"
    ∷ codes "Unknown Interrupt"
    ∷ codes "Coprocessor Fault decteted"
    ∷ []
    ∷ codes "Alignment check failed"
    ∷ codes "Machine check failed"
    ∷ []

-- The handler of an exception.
pub panic_handler : (fuel : ℕ) → (literal : List ℕ → ℕ) → (entry : ℕ) → Display → Option Display
panic_handler fuel literal entry s = panic fuel literal (literal (get_or panic_messages entry [])) s
