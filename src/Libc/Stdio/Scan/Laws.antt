-- ===== src/Libc/Stdio/Scan/Laws.antt =====
-- `sscanf` with one conversion.
use os_tk.Base.{
  ℕ, suc, ◌+◌, ◌-◌, ◌^◌, ◌<◌, ◌≤◌, ◌≡◌, ◌≢◌, ◌⊎◌, inl, inr, refl, ap, ◌∙◌, true, false, ◌||◌, ◌==◌,
  none, some, List, Option, ◌∷◌, length, arith, if◌then◌else◌, ne→==, Bool-cases,
}
use os_tk.Libc.Bytes.{Bytes, null, char_int, IsString}
use os_tk.Libc.Ctype.{isspace, isdigit}
use os_tk.Libc.Double.{Doubles}
use os_tk.Libc.Stdlib.Decimal.{decimal, AreDigits}
use os_tk.Libc.Stdlib.Number.{clamped, strtol-clamped}
use os_tk.Libc.Stdio.Scan.{
  Scan, Round, exit, again, stuck, store_bytes, consume_space, store_number, convert, scan_value,
  scan_letter, scan_length, scan_width, scan_round, scan_loop, sscanf,
}

-- The state in which the loop starts.
abbrev start : (buffer format : ℕ) → List ℕ → Bytes → Scan
start buffer format args m = record {
  args_set = 0;
  buffer_pointer = buffer;
  format_pointer = format;
  max_width = 0;
  args = args;
  m = m;
}

module _ (doubles : Doubles) (fuel buffer format : ℕ) (args : List ℕ) (m : Bytes) where
  -- The first round at a conversion that has neither a star, a width nor a length.
  round-letter :
      (f : ℕ)
      → m format ≡ 37
      → m (format + 1) ≡ f
      → (f == 42) ≡ false
      → (isdigit (char_int f) == 0) ≡ true
      → ((f == 104) || (f == 108)) ≡ false
      → (f == 110) ≡ false
      → scan_round doubles fuel buffer (start buffer format args m) ≡ (
          if m buffer == 0
          then exit (start buffer (format + 1) args m)
          else scan_value doubles fuel buffer false 0 (start buffer (format + 1) args m))
  unfolding scan_round scan_width scan_length scan_letter isspace
  round-letter f percent letter star digit h_or_l n =
      rw (scan_round, scan_width, scan_length, scan_letter, percent, letter, star, digit, h_or_l, n)
        refl

  abbrev result : Option Scan → Option (ℕ × Bytes)
  result none = none
  result (some s) = some (s.args_set, s.m)

  abbrev go : ℕ → Round → Option Scan
  go rounds (exit t) = some t
  go rounds (again t) = scan_loop doubles fuel buffer rounds t
  go rounds stuck = none

  sscanf-round :
      (rounds : ℕ)
      → buffer ≢ null
      → format ≢ null
      → m format ≡ 37
      → sscanf doubles fuel (suc rounds) buffer format args m
        ≡ result (go rounds (scan_round doubles fuel buffer (start buffer format args m)))
  unfolding sscanf scan_loop
  sscanf-round rounds b f percent =
      let here : (buffer == 0) ≡ false = ne→== buffer 0 b in
      let there : (format == 0) ≡ false = ne→== format 0 f in rw (here, there, percent) refl

  stops :
      (f : ℕ)
      → m format ≡ 37
      → m (format + 1) ≡ f
      → (f == 42) ≡ false
      → (isdigit (char_int f) == 0) ≡ true
      → ((f == 104) || (f == 108)) ≡ false
      → (f == 110) ≡ false
      → ((f == 99) || (f == 115)) ≡ true
      → scan_round doubles fuel buffer (start buffer format args m)
        ≡ exit (start buffer (format + 1) args m)
  unfolding scan_value
  stops f percent letter star digit h_or_l n text =
      round-letter f percent letter star digit h_or_l n
      ∙ elim (Bool-cases (m buffer == 0)) [ inl e ↦ rw e refl | inr e ↦ rw (e, letter, text) refl ]

  -- A `%s` or `%c` without a width, with which the format starts, makes `sscanf` return 0 and store
  -- nothing, whatever the buffer and the arguments. The two pointers are not NULL.
  pub sscanf-no_width :
      (rounds : ℕ)
      → buffer ≢ null
      → format ≢ null
      → m format ≡ 37
      → (m (format + 1) ≡ 115) ⊎ (m (format + 1) ≡ 99)
      → sscanf doubles fuel (suc rounds) buffer format args m ≡ some (0, m)
  unfolding isdigit
  sscanf-no_width rounds b f percent letter =
      sscanf-round rounds b f percent
      ∙ ap (λ r. result (go rounds r))
          (elim letter [
            | inl e ↦ stops 115 percent e refl refl refl refl refl
            | inr e ↦ stops 99 percent e refl refl refl refl refl
          ])

-- Four bytes that do not lie at `j`.
store_bytes-apart : (m : Bytes) (q v j : ℕ) → (j < q) ⊎ (q + 4 ≤ j) → store_bytes 4 m q v j ≡ m j
store_bytes-apart m q v j out =
    let a : (q == j) ≡ false = ground arith in
    let b : (q + 1 == j) ≡ false = ground arith in
    let c : (q + 1 + 1 == j) ≡ false = ground arith in
    let d : (q + 1 + 1 + 1 == j) ≡ false = ground arith in rw (d, c, b, a) refl

module _ (doubles : Doubles) (fuel buffer format q : ℕ) (args : List ℕ) (m : Bytes) (x : ℕ)
    (xs : List ℕ) (s : IsString m buffer (x ∷ xs)) (d : AreDigits (x ∷ xs))
    (enough : length xs < fuel) where
  abbrev value : ℕ
  value = clamped (2 ^ 63 - 1) (decimal 0 (x ∷ xs))

  abbrev scanned : Scan
  scanned = record {
    args_set = 1;
    buffer_pointer = buffer + suc (length xs);
    format_pointer = format + 1 + 1;
    max_width = 0;
    args = args;
    m = store_bytes 4 m q value;
  }

  consume_space-digit : consume_space (suc fuel) m buffer ≡ some buffer
  unfolding consume_space isspace
  consume_space-digit =
      let plain : char_int x ≡ x = ground (arith, d.0, d.1) in
      let solid : (x == 32) ≡ false = ground (arith, d.0, d.1) in rw (s.0, plain, solid) refl

  value-scanned :
      m (format + 1) ≡ 100
      → q ≢ null
      → scan_value doubles (suc fuel) buffer false 0 (start buffer (format + 1) (q ∷ args) m)
        ≡ again scanned
  unfolding scan_value store_number
  value-scanned letter given =
      let t = start buffer (format + 1) (q ∷ args) m in
      let nonnull : (q == 0) ≡ false = ne→== q 0 given in
      let moved : (buffer == buffer + suc (length xs)) ≡ false =
        ne→== _ _ (λ e. omega (arith, e)) in
      let read = (strtol-clamped fuel m buffer x xs s d enough).0 in
      let stored : store_number false 4 (value, buffer + suc (length xs)) t ≡ again scanned =
        rw (nonnull, moved) refl in
      rw (scan_value, letter, consume_space-digit, letter)
        (ap (λ o. convert false 4 o t) read ∙ stored)

  -- `sscanf` of a string of digits with the format `%d` returns 1 and stores the number, clamped to
  -- 2 ^ 63 - 1 and then to its low 32 bits, at the pointer passed. The pointers are not NULL, and the
  -- four bytes stored do not cover the format's end. A fuel above one more than the number of digits
  -- behind the first is enough, and two rounds.
  pub sscanf-decimal :
      (rounds : ℕ)
      → buffer ≢ null
      → format ≢ null
      → q ≢ null
      → m format ≡ 37
      → m (format + 1) ≡ 100
      → m (format + 1 + 1) ≡ 0
      → (format + 1 + 1 < q) ⊎ (q + 4 ≤ format + 1 + 1)
      → sscanf doubles (suc fuel) (suc (suc rounds)) buffer format (q ∷ args) m
        ≡ some (1, store_bytes 4 m q value)
  unfolding scan_loop isdigit
  sscanf-decimal rounds b f given percent letter end out =
      let letters = q ∷ args in
      let full : (m buffer == 0) ≡ false = ground (arith, s.0, d.0) in
      let first : scan_round doubles (suc fuel) buffer (start buffer format letters m)
          ≡ again scanned =
        round-letter doubles (suc fuel) buffer format letters m 100 percent letter refl refl refl
          refl
        ∙ rw full (value-scanned letter given) in
      let over : store_bytes 4 m q value (format + 1 + 1) ≡ 0 =
        store_bytes-apart m q value (format + 1 + 1) out ∙ end in
      let last : go doubles (suc fuel) buffer format letters m (suc rounds) (again scanned)
          ≡ some scanned =
        rw over refl in
      sscanf-round doubles (suc fuel) buffer format letters m (suc rounds) b f percent
      ∙ ap
          (λ r.
            result doubles (suc fuel) buffer format letters m
              (go doubles (suc fuel) buffer format letters m (suc rounds) r))
          first
      ∙ ap (result doubles (suc fuel) buffer format letters m) last
