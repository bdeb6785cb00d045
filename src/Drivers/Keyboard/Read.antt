-- ===== src/Drivers/Keyboard/Read.antt =====
-- `KeyboardReadChar`, which waits while interrupts hand over scan codes. No interrupt comes between
-- the end of the wait and the return.
use os_tk.Base.{
  ℕ, ◌<◌, ◌≡◌, refl, Bool, true, false, ◌||◌, ◌==◌, ltb, if◌then◌else◌, List, [], ◌∷◌, ◌++◌, Option,
  none, some, arith, ◌∙◌, ap,
}
use os_tk.Drivers.Console.{Console}
use os_tk.Drivers.Keyboard.Shift.{handle_all}
use os_tk.Drivers.Keyboard.{
  KeyboardState, keyboard_translator, on_press, keyboard_handler, begin_read,
}

-- The wait, over the scan codes to come: the character, the codes left, and the state. `none` means
-- that it still waits after the last code.
unfoldable pub wait_read :
    (outside : ℕ)
    → List ℕ
    → KeyboardState × Console
    → Option (ℕ × List ℕ × (KeyboardState × Console))
wait_read outside [] (k, c) = if k.is_read then none else some (k.buffer, [], (k, c))
wait_read outside (d ∷ ds) (k, c) =
    let rest = wait_read outside ds (keyboard_handler outside d (k, c)) in
    if k.is_read then rest else some (k.buffer, d ∷ ds, (k, c))

-- `KeyboardReadChar`
unfoldable pub keyboard_read_char :
    (outside : ℕ)
    → List ℕ
    → KeyboardState × Console
    → Option (ℕ × List ℕ × (KeyboardState × Console))
keyboard_read_char outside codes (k, c) = wait_read outside codes (begin_read k, c)

-- A code that gives no character: a shift key, a release, or a key without one.
abbrev pub is_silent : (outside : ℕ) → KeyboardState → ℕ → Bool
is_silent outside k d =
    (d == 0x2A)
    || (d == 0x36)
    || ltb 0x7F d
    || (keyboard_translator outside d (k.is_left_shift || k.is_right_shift) == 0)

-- The state after codes that give no character.
abbrev pub AllSilent : (outside : ℕ) → List ℕ → KeyboardState × Console → Type 0
AllSilent outside [] s = Unit {0}
AllSilent outside (d ∷ ds) s =
    (is_silent outside s.0 d ≡ true)
    × (d < 256)
    × AllSilent outside ds (keyboard_handler outside d s)

silent_step :
    (outside d : ℕ) (s : KeyboardState × Console)
    → s.0.is_read ≡ true
    → is_silent outside s.0 d ≡ true
    → d < 256
    → (keyboard_handler outside d s).0.is_read ≡ true
unfolding keyboard_handler on_press
silent_step outside d s waiting silent byte = ground arith

press_step :
    (outside d : ℕ) (s : KeyboardState × Console)
    → s.0.is_read ≡ true
    → is_silent outside s.0 d ≡ false
    → let t = keyboard_handler outside d s in
      (t.0.is_read ≡ false)
      × (t.0.buffer ≡ keyboard_translator outside d (s.0.is_left_shift || s.0.is_right_shift))
unfolding keyboard_handler on_press
press_step outside d s waiting loud = ground arith

wait_ended :
    (outside : ℕ) (codes : List ℕ) (s : KeyboardState × Console)
    → s.0.is_read ≡ false
    → wait_read outside codes s ≡ some (s.0.buffer, codes, s)
unfolding wait_read
wait_ended outside [] s ended = rw ended refl
wait_ended outside (d ∷ ds) s ended = rw ended refl

wait_longer :
    (outside d : ℕ) (ds : List ℕ) (s : KeyboardState × Console)
    → s.0.is_read ≡ true
    → wait_read outside (d ∷ ds) s ≡ wait_read outside ds (keyboard_handler outside d s)
unfolding wait_read
wait_longer outside d ds s waiting =
    ap
      (λ (v : Bool).
        if v
        then wait_read outside ds (keyboard_handler outside d s)
        else some (s.0.buffer, d ∷ ds, s))
      waiting

wait_read-press :
    (outside : ℕ) (ds : List ℕ) (d : ℕ) (rest : List ℕ) (s : KeyboardState × Console)
    → s.0.is_read ≡ true
    → AllSilent outside ds s
    → is_silent outside (handle_all outside ds s).0 d ≡ false
    → let u = handle_all outside ds s in
      (t : KeyboardState × Console) × (wait_read outside (ds ++ d ∷ rest) s
        ≡ some (keyboard_translator outside d (u.0.is_left_shift || u.0.is_right_shift), rest, t))
      × (t.0.is_read ≡ false)
unfolding handle_all
wait_read-press outside [] d rest s waiting silent loud =
    let t = keyboard_handler outside d s in
    let (ended, character) = press_step outside d s waiting loud in
    (
      t,
      wait_longer outside d rest s waiting
          ∙ wait_ended outside rest t ended
          ∙ ap (λ (b : ℕ). some (b, rest, t)) character,
      ended,
    )
wait_read-press outside (e ∷ ds) d rest s waiting silent loud =
    let (t, done, ended) =
      wait_read-press outside ds d rest (keyboard_handler outside e s)
        (silent_step outside e s waiting silent.0 silent.1) silent.2 loud in
    (t, wait_longer outside e (ds ++ d ∷ rest) s waiting ∙ done, ended)

-- A read returns, as soon as a key with a character is pressed, with that key's character; until
-- then only keys without a character have come, and the codes behind the key are left.
pub keyboard_read_char-press :
    (outside : ℕ) (ds : List ℕ) (d : ℕ) (rest : List ℕ) (k : KeyboardState) (c : Console)
    → AllSilent outside ds (begin_read k, c)
    → is_silent outside (handle_all outside ds (begin_read k, c)).0 d ≡ false
    → let u = handle_all outside ds (begin_read k, c) in
      (t : KeyboardState × Console) × (keyboard_read_char outside (ds ++ d ∷ rest) (k, c)
        ≡ some (keyboard_translator outside d (u.0.is_left_shift || u.0.is_right_shift), rest, t))
      × (t.0.is_read ≡ false)
unfolding keyboard_read_char
keyboard_read_char-press outside ds d rest k c silent loud =
    wait_read-press outside ds d rest (begin_read k, c) refl silent loud
