-- ===== src/Drivers/Keyboard/Shift.antt =====
-- The shift keys, and the characters of a shifted key.
use os_tk.Base.{
  ℕ, ◌+◌, ◌<◌, ◌≡◌, refl, Bool, true, false, ◌==◌, if◌then◌else◌, List, [], ◌∷◌, arith, every_below,
  every_below_at, ==→eq,
}
use os_tk.Libc.Ctype.{islower, isupper}
use os_tk.Drivers.Console.{Console}
use os_tk.Drivers.Keyboard.{KeyboardState, keyboard_translator, on_press, keyboard_handler}

-- The interrupts of a sequence of scan codes.
unfoldable pub handle_all :
    (outside : ℕ) → List ℕ → KeyboardState × Console → KeyboardState × Console
handle_all outside [] s = s
handle_all outside (c ∷ cs) s = handle_all outside cs (keyboard_handler outside c s)

-- Whether a key is held after the codes, given whether it was before.
abbrev pub held : (press release : ℕ) → List ℕ → Bool → Bool
held press release [] before = before
held press release (c ∷ cs) before =
    held press release cs (if c == press then true else if c == release then false else before)

-- The two shift flags follow the last press or release of their own key, whatever else is typed
-- in between and whether a read waits or not.
pub handle_all-held :
    (outside : ℕ) (cs : List ℕ) (s : KeyboardState × Console)
    → ((handle_all outside cs s).0.is_left_shift ≡ held 0x2A 0xAA cs s.0.is_left_shift)
      × ((handle_all outside cs s).0.is_right_shift ≡ held 0x36 0xB6 cs s.0.is_right_shift)
unfolding handle_all keyboard_handler on_press
handle_all-held outside [] s = (refl, refl)
handle_all-held outside (c ∷ cs) s =
    let rest = handle_all-held outside cs (keyboard_handler outside c s) in
    (ground (arith, rest.0), ground (arith, rest.1))

-- With a shift key a key gives a capital letter exactly if it gives a small letter without one,
-- and then it is that letter's capital.
pub keyboard_translator-upper :
    (outside scan_code : ℕ)
    → scan_code < 58
    → let small = keyboard_translator outside scan_code false in
      let capital = keyboard_translator outside scan_code true in
      (isupper capital ≡ islower small)
      × ((if islower small == 1 then capital + 32 else small) ≡ small)
unfolding keyboard_translator islower isupper every_below
keyboard_translator-upper outside scan_code h =
    let code = λ (k : ℕ). islower (keyboard_translator outside k false) in
    (
      ==→eq _ _ (
          every_below_at 58 (λ k. isupper (keyboard_translator outside k true) == code k) scan_code
            refl h),
      ==→eq _ _ (
          every_below_at 58
            (λ k.
              (if code k == 1
                then keyboard_translator outside k true + 32
                else keyboard_translator outside k false)
              == keyboard_translator outside k false)
            scan_code refl h),
    )
