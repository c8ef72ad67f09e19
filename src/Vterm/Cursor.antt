-- ===== src/Vterm/Cursor.antt =====
-- vterm.c: asking the terminal where the cursor is. The answer is the list of the characters that the
-- terminal has sent; mcReadchar waits when it is empty, and the result is `none` then.
-- The two buffers of vt_get_cursor_pos lie at `x_str` and `y_str`, for ten bytes each.
pub mod Laws
use rosco_cli.Prelude.{
  ℕ, zero, suc, ◌+◌, ◌-◌, ◌*◌, ◌%◌, List, [], ◌∷◌, ◌++◌, Option, none, some, ◌==◌, if◌then◌else◌,
  ◌>>=◌, codes, ℤ, pos, negsuc, ◌&&◌, not, u32_mod,
}
use rosco_cli.Memory.{Mem, poke}
use rosco_cli.Cstdlib.Str.{memcpy, memset}
use rosco_cli.Cstdlib.Stdlib.{atoi, itoa}
use rosco_cli.Vterm.{ascii_esc, escape, calloc, Image, vt_move_cursor_xy, nines}

abbrev pub ascii_zero : ℕ
ascii_zero = 0x30

abbrev pub input_buff_len : ℕ
input_buff_len = 10

pub record Vec2 : Type 0 where
  pub x : ℤ
  pub y : ℤ

-- memory, the last character read, and the characters that are left
pub record Reading : Type 0 where
  pub memory : Mem
  pub in_char : ℕ
  pub input : List ℕ

-- the first loop; `n` is the room that is left
unfoldable pub read_row : Mem → (y_str x_str n index in_char : ℕ) → List ℕ → Option Reading
read_row m y_str x_str zero index in_char input =
    some (record { memory = m; in_char = in_char; input = input })
read_row m y_str x_str (suc n) index in_char [] = none
read_row m y_str x_str (suc n) index in_char (c ∷ input) =
    let rest = read_row (poke m (y_str + index) c) y_str x_str n (index + 1) c input in
    let only_x = (memset (memcpy m y_str x_str input_buff_len).0 x_str 0 input_buff_len).0 in
    if c == b';'
    then some (record { memory = m; in_char = c; input = input })
    else if c == b'R'
    then some (record { memory = poke only_x x_str ascii_zero; in_char = c; input = input })
    else rest

-- the second loop
unfoldable pub read_column : Mem → (x_str n index in_char : ℕ) → List ℕ → Option Reading
read_column m x_str zero index in_char input =
    some (record { memory = m; in_char = in_char; input = input })
read_column m x_str (suc n) index in_char [] =
    if in_char == b'R' then some (record { memory = m; in_char = in_char; input = [] }) else none
read_column m x_str (suc n) index in_char (c ∷ input) =
    let rest = read_column (poke m (x_str + index) c) x_str n (index + 1) c input in
    if in_char == b'R'
    then some (record { memory = m; in_char = in_char; input = c ∷ input })
    else if c == b'R'
    then some (record { memory = m; in_char = c; input = input })
    else rest

-- what vt_get_cursor_pos sends, whatever it reads then
abbrev pub cursor_request : List ℕ
cursor_request = escape (codes "[6n")

unfoldable pub cursor_pos : ℕ → Mem → (x_str y_str : ℕ) → List ℕ → Option (Mem × Vec2 × List ℕ)
cursor_pos f m x_str y_str input = do
  row ← read_row (calloc (calloc m x_str 10) y_str 10) y_str x_str input_buff_len 0 0 input
  y_pos ← atoi f row.memory y_str
  let m' = (memset row.memory y_str 0 input_buff_len).0
  column ←
      if m' x_str == ascii_zero
      then some (record { memory = m'; in_char = row.in_char; input = row.input })
      else read_column m' x_str input_buff_len 0 row.in_char row.input
  x_pos ← atoi f column.memory x_str
  some (
    (memset column.memory x_str 0 input_buff_len).0,
    record { x = x_pos; y = y_pos },
    column.input,
  )

-- the memory, the position (`none` is NULL) and the characters that are left
unfoldable pub vt_get_cursor_pos :
    ℕ → Mem → (x_str y_str : ℕ) → List ℕ → Option (Mem × Option Vec2 × List ℕ)
vt_get_cursor_pos f m x_str y_str [] = none
vt_get_cursor_pos f m x_str y_str (esc ∷ []) = if esc == ascii_esc then none else some (m, none, [])
vt_get_cursor_pos f m x_str y_str (esc ∷ c ∷ input) =
    let found = do (m', p, rest) ← cursor_pos f m x_str y_str input; some (m', some p, rest)
    in if esc == ascii_esc
      then (if c == b'[' then found else some (m, none, input))
      else some (m, none, c ∷ input)

-- the addresses that calloc returned
pub record Blocks : Type 0 where
  pub old_x : ℕ
  pub old_y : ℕ
  pub x_str : ℕ
  pub y_str : ℕ
  pub command : ℕ

-- the argument of itoa, a word
abbrev pub word_of : ℤ → ℕ
word_of (pos n) = n % u32_mod
word_of (negsuc n) = u32_mod - 1 - n % u32_mod

-- Memory, the new position, what was sent and the characters that are left. A first answer that is NULL
-- is dereferenced in the source; the result is `none` then.
unfoldable pub vt_get_screen_size :
    ℕ → Mem → Image → Blocks → List ℕ → Option (Mem × Option Vec2 × List ℕ × List ℕ)
vt_get_screen_size f m image at input = do
  (m1, old, input1) ←
      vt_get_cursor_pos f (calloc (calloc m at.old_x 10) at.old_y 10) at.x_str at.y_str input
  (m2, far_move) ← vt_move_cursor_xy f m1 at.command image (image nines) (image nines)
  (m3, new_pos, input2) ← vt_get_cursor_pos f m2 at.x_str at.y_str input1
  old_pos ← old
  let m4 = (itoa m3 (word_of old_pos.x) at.old_x (pos 10)).0
  let m5 = (itoa m4 (word_of old_pos.y) at.old_y (pos 10)).0
  (m6, back_move) ← vt_move_cursor_xy f m5 at.command image at.old_x at.old_y
  some (m6, new_pos, cursor_request ++ (far_move ++ (cursor_request ++ back_move)), input2)

-- `for (i = 0; i < num_spaces; i++) { mcPrintchar(c); }`
abbrev pub repeat : ℕ → ℕ → List ℕ
repeat zero c = []
repeat (suc n) c = c ∷ repeat n c

-- the number of rounds for the product of the two sizes, an `int`
abbrev pub num_spaces : (x y : ℤ) → ℕ
num_spaces (pos a) (pos b) = a * b
num_spaces (pos a) (negsuc b) = 0
num_spaces (negsuc a) (pos b) = 0
num_spaces (negsuc a) (negsuc b) = suc a * suc b

-- Sizes whose product does not fit an `int` are not modelled: the loop runs `num_spaces` times.
unfoldable pub vt_fill_screen :
    ℕ → Mem → Image → Blocks → (c : ℕ) → List ℕ → Option (Mem × List ℕ × List ℕ)
vt_fill_screen f m image at c input = do
  (m', size, sent, rest) ← vt_get_screen_size f m image at input
  screen_size ← size
  some (m', sent ++ (b'\r' ∷ b'\n' ∷ repeat (num_spaces screen_size.x screen_size.y) c), rest)
