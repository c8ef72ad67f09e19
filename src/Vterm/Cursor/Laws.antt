-- ===== src/Vterm/Cursor/Laws.antt =====
-- vterm.c: what vt_get_cursor_pos makes of a terminal's answer.
use mathlib.Core.List.{map}
use rosco_cli.Prelude.{
  ℕ, zero, suc, ◌+◌, ◌-◌, ◌<◌, ◌≤◌, ◌≡◌, ◌≢◌, refl, List, [], ◌∷◌, ◌++◌, arith, length, some, All,
  false, pos, signed32, ◌∙◌, subst, sym, ap,
}
use rosco_cli.Memory.{Mem, IsStr, Apart, SameOutside, poke, poke_self, poke_ne}
use rosco_cli.Cstdlib.Str.{memset, memcpy}
use rosco_cli.Cstdlib.Str.Copy.{memcpy-copies, memset-fills, memset-frame}
use rosco_cli.Cstdlib.Stdlib.{
  digit_char, atoi, strtol, skip_spaces, take_sign, take_prefix, strtol_loop, digit_value, finish,
}
use rosco_cli.Cstdlib.Stdlib.Digits.{from_digits}
use rosco_cli.Cstdlib.Stdlib.Parse.{held}
use rosco_cli.Cstdlib.Stdlib.RoundTrip.{atoi-text}
use rosco_cli.Vterm.{ascii_esc, calloc}
use rosco_cli.Vterm.Build.{calloc-frame}
use rosco_cli.Vterm.Cursor.{read_row, read_column, cursor_pos, vt_get_cursor_pos, ascii_zero}

-- the characters, one behind the other
put : Mem → ℕ → List ℕ → Mem
put m a [] = m
put m a (c ∷ s) = put (poke m a c) (a + 1) s

put-frame : (m : Mem) (a : ℕ) (s : List ℕ) → SameOutside m (put m a s) a (length s)
unfolding put
put-frame m a [] x out = refl
put-frame m a (c ∷ s) x out =
    put-frame (poke m a c) (a + 1) s x (omega arith) ∙ poke_ne m a c x (omega arith)

put-IsStr :
    (m : Mem) (a : ℕ) (s : List ℕ)
    → All (λ c. c ≢ 0) s
    → m (a + length s) ≡ 0
    → IsStr (put m a s) a s
unfolding put
put-IsStr m a [] h z = ground arith
put-IsStr m a (c ∷ s) (ne, h) z = (
  put-frame (poke m a c) (a + 1) s a (omega arith) ∙ poke_self m a c,
  ne,
  put-IsStr (poke m a c) (a + 1) s h
      (poke_ne m a c (a + 1 + length s) (omega arith) ∙ subst (λ k. m k ≡ 0) (omega arith) z),
)

-- a character that ends neither number
abbrev Plain : ℕ → Type 0
Plain c = (c ≢ b';') × (c ≢ b'R') × (c ≢ 0)

read_row-put :
    (m : Mem) (y x n i ic : ℕ) (s input : List ℕ)
    → All Plain s
    → length s < n
    → read_row m y x n i ic (s ++ b';' ∷ input)
      ≡ some (record { memory = put m (y + i) s; in_char = b';'; input = input })
unfolding read_row put
read_row-put m y x zero i ic s input h lt = absurd (omega arith)
read_row-put m y x (suc n) i ic [] input h lt = refl
read_row-put m y x (suc n) i ic (c ∷ s) input ((a, b, z), h) lt =
    let e : y + (i + 1) ≡ y + i + 1 = omega arith in
    let r = read_row-put (poke m (y + i) c) y x n (i + 1) c s input h (omega arith) in
    ground (arith, r)

read_column-put :
    (m : Mem) (x n i ic : ℕ) (s input : List ℕ)
    → All Plain s
    → ic ≢ b'R'
    → length s < n
    → read_column m x n i ic (s ++ b'R' ∷ input)
      ≡ some (record { memory = put m (x + i) s; in_char = b'R'; input = input })
unfolding read_column put
read_column-put m x zero i ic s input h ne lt = absurd (omega arith)
read_column-put m x (suc n) i ic [] input h ne lt = ground arith
read_column-put m x (suc n) i ic (c ∷ s) input ((a, b, z), h) ne lt =
    let e : x + (i + 1) ≡ x + i + 1 = omega arith in
    let r = read_column-put (poke m (x + i) c) x n (i + 1) c s input h b (omega arith) in
    ground (arith, r)

digits-Plain : (ds : List ℕ) → All (λ d. d < 10) ds → All Plain (map digit_char ds)
unfolding digit_char
digits-Plain [] h = tt
digits-Plain (d ∷ ds) (small, h) = ((ground arith, ground arith, ground arith), digits-Plain ds h)

Plain-nonzero : (s : List ℕ) → All Plain s → All (λ c. c ≢ 0) s
Plain-nonzero [] h = tt
Plain-nonzero (c ∷ s) ((a, b, z), h) = (z, Plain-nonzero s h)

length-digits : (ds : List ℕ) → length (map digit_char ds) ≡ length ds
length-digits [] = refl
length-digits (d ∷ ds) = ap suc (length-digits ds)

-- a number of one to nine digits
abbrev pub Digits : List ℕ → Type 0
Digits ds = All (λ d. d < 10) ds × (0 < length ds) × (length ds ≤ 9)

-- atoi reads the digits that were put into a block of zeros.
atoi-put :
    (f : ℕ) (m : Mem) (p : ℕ) (ds : List ℕ)
    → Digits ds
    → ((x : ℕ) → p ≤ x → x < p + 10 → m x ≡ 0)
    → 33 < f
    → atoi f (put m p (map digit_char ds)) p ≡ some (held false (from_digits 10 0 ds))
atoi-put f m p ds (small, some_digit, short) clear lt =
    let n = length-digits ds in
    let text =
      put-IsStr m p (map digit_char ds) (Plain-nonzero (map digit_char ds) (digits-Plain ds small))
        (clear (p + length (map digit_char ds)) (omega arith) (omega arith)) in
    atoi-text f (put m p (map digit_char ds)) p false ds text small some_digit (omega arith) lt

cleared : (m : Mem) (b : ℕ) (x : ℕ) → b ≤ x → x < b + 10 → calloc m b 10 x ≡ 0
unfolding calloc
cleared m b x lo hi = memset-fills m b 0 10 x lo hi

-- An answer ESC [ row ; column R of decimal numbers of one to nine digits is the position (column, row), and the characters behind it are left. The two buffers share no byte.
pub vt_get_cursor_pos-answer :
    (f : ℕ) (m : Mem) (x y : ℕ) (rows columns input : List ℕ)
    → Digits rows
    → Digits columns
    → Apart x 10 y 10
    → 33 < f
    → (m' : Mem) × (vt_get_cursor_pos f m x y (
          ascii_esc
          ∷ b'['
          ∷ (map digit_char rows ++ b';' ∷ (map digit_char columns ++ b'R' ∷ input)))
        ≡ some (
          m',
          some (record {
            x = held false (from_digits 10 0 columns);
            y = held false (from_digits 10 0 rows);
          }),
          input,
        ))
unfolding vt_get_cursor_pos cursor_pos memset
vt_get_cursor_pos-answer f m x y rows columns input hr hc apart lt =
    let m0 = calloc m x 10 in
    let m1 = calloc m0 y 10 in
    let r = map digit_char rows in
    let c = map digit_char columns in
    let tail = c ++ b'R' ∷ input in
    let m2 = put m1 (y + 0) r in
    let m3 = (memset m2 y 0 10).0 in
    let nr = length-digits rows in
    let nc = length-digits columns in
    let row = read_row-put m1 y x 10 0 0 r tail (digits-Plain rows hr.0) (omega arith) in
    let at : y + 0 ≡ y = omega arith in
    let y_pos : atoi f m2 y ≡ some (held false (from_digits 10 0 rows)) =
      subst (λ a. atoi f (put m1 a r) y ≡ some (held false (from_digits 10 0 rows))) (sym at)
        (atoi-put f m1 y rows hr (cleared m0 y) lt) in
    let clear : (k : ℕ) → x ≤ k → k < x + 10 → m3 k ≡ 0 = λ k lo hi.
      memset-frame m2 y 0 10 k (omega arith)
      ∙ put-frame m1 (y + 0) r k (omega arith)
      ∙ calloc-frame m0 y 10 k (omega arith)
      ∙ cleared m x k lo hi in
    let first : m3 x ≡ 0 = clear x (omega arith) (omega arith) in
    let column =
      read_column-put m3 x 10 0 b';' c input (digits-Plain columns hc.0) (λ e. absurd (omega arith))
        (omega arith) in
    let at' : x + 0 ≡ x = omega arith in
    let x_pos : atoi f (put m3 (x + 0) c) x ≡ some (held false (from_digits 10 0 columns)) =
      subst (λ a. atoi f (put m3 a c) x ≡ some (held false (from_digits 10 0 columns))) (sym at')
        (atoi-put f m3 x columns hc clear lt) in
    ((memset (put m3 (x + 0) c) x 0 10).0, rw (row, y_pos, first, column, x_pos))

-- the buffers after a first number that R ends
abbrev only_x : Mem → (x y : ℕ) → Mem
only_x m x y = poke (memset (memcpy m y x 10).0 x 0 10).0 x ascii_zero

read_row-only :
    (m : Mem) (y x n i ic : ℕ) (s input : List ℕ)
    → All Plain s
    → length s < n
    → read_row m y x n i ic (s ++ b'R' ∷ input)
      ≡ some (record { memory = only_x (put m (y + i) s) x y; in_char = b'R'; input = input })
unfolding read_row put
read_row-only m y x zero i ic s input h lt = absurd (omega arith)
read_row-only m y x (suc n) i ic [] input h lt = refl
read_row-only m y x (suc n) i ic (c ∷ s) input ((a, b, z), h) lt =
    let e : y + (i + 1) ≡ y + i + 1 = omega arith in
    let r = read_row-only (poke m (y + i) c) y x n (i + 1) c s input h (omega arith) in
    ground (arith, r)

atoi-null : (f : ℕ) (m : Mem) (p : ℕ) → m p ≡ 0 → 0 < f → atoi f m p ≡ some (pos 0)
unfolding atoi strtol take_sign take_prefix strtol_loop digit_value finish signed32
atoi-null zero m p z lt = absurd (omega arith)
atoi-null (suc f) m p z lt =
    let start : skip_spaces (suc f) m p ≡ some (0, p + 1) =
      unfold skip_spaces in ground (arith, z) in
    rw start

-- An answer ESC [ number R, which gives one number of at most nine characters, is taken as the position (0, 0): the number is overwritten.
pub vt_get_cursor_pos-one_number :
    (f : ℕ) (m : Mem) (x y : ℕ) (s input : List ℕ)
    → All Plain s
    → length s ≤ 9
    → Apart x 10 y 10
    → 33 < f
    → (m' : Mem) × (vt_get_cursor_pos f m x y (ascii_esc ∷ b'[' ∷ (s ++ b'R' ∷ input))
        ≡ some (m', some (record { x = pos 0; y = pos 0 }), input))
unfolding vt_get_cursor_pos cursor_pos memset digit_char
vt_get_cursor_pos-one_number f m x y s input h short apart lt =
    let m0 = calloc m x 10 in
    let m1 = calloc m0 y 10 in
    let m2 = put m1 (y + 0) s in
    let c1 = (memcpy m2 y x 10).0 in
    let c2 = (memset c1 x 0 10).0 in
    let c3 = poke c2 x ascii_zero in
    let m3 = (memset c3 y 0 10).0 in
    let row = read_row-only m1 y x 10 0 0 s input h (omega arith) in
    let copied : m2 x ≡ 0 =
      put-frame m1 (y + 0) s x (omega arith)
      ∙ calloc-frame m0 y 10 x (omega arith)
      ∙ cleared m x x (omega arith) (omega arith) in
    let source : x + (y - y) ≡ x = omega arith in
    let null : c3 y ≡ 0 =
      poke_ne c2 x ascii_zero y (omega arith)
      ∙ memset-frame c1 x 0 10 y (omega arith)
      ∙ memcpy-copies m2 y x 10 (omega arith) y (omega arith) (omega arith)
      ∙ subst (λ a. m2 a ≡ 0) (sym source) copied in
    let y_pos = atoi-null f c3 y null (omega arith) in
    let first : m3 x ≡ ascii_zero =
      memset-frame c3 y 0 10 x (omega arith) ∙ poke_self c2 x ascii_zero in
    let after : m3 (x + 1) ≡ 0 =
      memset-frame c3 y 0 10 (x + 1) (omega arith)
      ∙ poke_ne c2 x ascii_zero (x + 1) (omega arith)
      ∙ memset-fills c1 x 0 10 (x + 1) (omega arith) (omega arith) in
    let x_pos : atoi f m3 x ≡ some (pos 0) =
      atoi-text f m3 x false (0 ∷ []) (first, (omega arith), after) (omega arith, tt) (omega arith)
        (omega arith) lt in
    ((memset m3 x 0 10).0, rw (row, y_pos, first, x_pos))
