-- ===== src/Libc/Stdio/Input.antt =====
-- `scanf` and `fscanf` of lib/libc/src/stdio.c, which read a line into a block of the heap.
use os_tk.Base.{ℕ, ◌*◌, ◌-◌, ◌^◌, u32, Option, none, some, List}
use os_tk.Memory.Heap.{Heap}
use os_tk.Libc.Bytes.{Bytes}
use os_tk.Libc.Memory.{malloc, free}
use os_tk.Drivers.Display.{get_width, get_height}
use os_tk.Libc.Stdio.{Stream, stdin, stdout, stderr, other, World, fgets}
use os_tk.Libc.Double.{Doubles}
use os_tk.Libc.Stdio.Scan.{sscanf}

-- `fscanf`: the result, and the heap, the bytes and the world after it. The arguments behind the
-- format are not passed on: `found` is what `sscanf` finds in their place.
pub fscanf :
    Doubles
    → (tries fuel rounds : ℕ) → Stream
    → (format : ℕ) → (found : List ℕ) → Heap
    → Bytes
    → World
    → Option (ℕ × Heap × Bytes × World)
fscanf doubles tries fuel rounds stdin format found h m w =
    let display = w.console.display in
    let size = u32 (get_height display * get_width display) in
    elim (malloc tries fuel size h) [
      | none ↦ none
      | some (buffer, h1) ↦ elim (fgets fuel buffer size stdin m w) [
        | none ↦ none
        | some (m1, w1) ↦ elim (sscanf doubles fuel rounds buffer format found m1) [
          | none ↦ none
          | some (ret, m2) ↦ some (u32 ret, free buffer h1, m2, w1)
        ]
      ]
    ]
fscanf doubles tries fuel rounds stdout format found h m w = some (2 ^ 32 - 1, h, m, w)
fscanf doubles tries fuel rounds stderr format found h m w = some (2 ^ 32 - 1, h, m, w)
fscanf doubles tries fuel rounds other format found h m w = some (2 ^ 32 - 1, h, m, w)

abbrev pub scanf :
    Doubles
    → (tries fuel rounds : ℕ) → (format : ℕ) → (found : List ℕ) → Heap
    → Bytes
    → World
    → Option (ℕ × Heap × Bytes × World)
scanf doubles tries fuel rounds format found h m w =
    fscanf doubles tries fuel rounds stdin format found h m w
