-- ===== src/Vterm.antt =====
-- vterm.c: terminal control sequences, sent byte by byte. What is sent is a list of bytes.
-- `b` is the address that calloc returned, `image` says where the linker put each string literal, and the
-- arguments are pointers to text. free has no effect on what is sent.
pub mod Build
pub mod Commands
pub mod Colours
pub mod Cursor
use rosco_cli.Prelude.{
  ℕ, zero, suc, ◌+◌, ◌*◌, List, [], ◌∷◌, ◌++◌, Option, none, some, ◌==◌, if◌then◌else◌, ◌>>=◌,
  codes,
}
use rosco_cli.Memory.{Mem, poke}
use rosco_cli.Cstdlib.Str.{strncat, strlen, memset}

abbrev pub ascii_esc : ℕ
ascii_esc = 0x1B

-- the string literals of vterm.c that are joined to others, and the "999" of vt_get_screen_size
pub data Literal : Type 0 where
  bracket letter_a letter_b letter_c letter_d letter_f letter_m semicolon : Literal
  fg_256 bg_256 next_bg_256 fg_rgb bg_rgb next_bg_rgb nines : Literal

unfoldable pub text_of : Literal → List ℕ
text_of bracket = codes "["
text_of letter_a = codes "A"
text_of letter_b = codes "B"
text_of letter_c = codes "C"
text_of letter_d = codes "D"
text_of letter_f = codes "f"
text_of letter_m = codes "m"
text_of semicolon = codes ";"
text_of fg_256 = codes "[38;5;"
text_of bg_256 = codes "[48;5;"
text_of next_bg_256 = codes ";48;5;"
text_of fg_rgb = codes "[38;2;"
text_of bg_rgb = codes "[48;2;"
text_of next_bg_rgb = codes ";48;2;"
text_of nines = codes "999"

abbrev pub Image : Type 0
Image = Literal → ℕ

-- the loop of vt_nsend
unfoldable pub nsend_loop : Mem → (seq len : ℕ) → List ℕ
nsend_loop m seq zero = []
nsend_loop m seq (suc n) =
    let rest = nsend_loop m (seq + 1) n in if m seq == 0 then [] else m seq ∷ rest

unfoldable pub vt_nsend : Mem → (seq len : ℕ) → List ℕ
vt_nsend m seq len = ascii_esc ∷ nsend_loop m seq len

unfoldable pub vt_send : ℕ → Mem → ℕ → Option (List ℕ)
vt_send f m seq = do len ← strlen f m seq; some (vt_nsend m seq len)

-- strncat (cursor_command, p, n) for each (p, n) in turn
unfoldable pub build : ℕ → Mem → ℕ → List (ℕ × ℕ) → Option Mem
build f m b [] = some m
build f m b ((p, n) ∷ parts) = do r ← strncat f m b p n; build f r.0 b parts

-- calloc (1, cap)
unfoldable pub calloc : Mem → (b cap : ℕ) → Mem
calloc m b cap = (memset m b 0 cap).0

-- the common shape of the commands: the memory that is left and the bytes that are sent
unfoldable pub compose : ℕ → Mem → (b cap : ℕ) → List (ℕ × ℕ) → Option (Mem × List ℕ)
compose f m b cap parts = do m' ← build f (calloc m b cap) b parts; some (m', vt_nsend m' b cap)

-- the same, with `command[0] = '['` in place of the first strncat
unfoldable pub compose_bracket : ℕ → Mem → (b cap : ℕ) → List (ℕ × ℕ) → Option (Mem × List ℕ)
compose_bracket f m b cap parts = do
  m' ← build f (poke (calloc m b cap) b b'[') b parts
  some (m', vt_nsend m' b cap)

-- What every command takes: fuel, memory, the address from calloc and the literals.
module _ (f : ℕ) (m : Mem) (b : ℕ) (image : Image) where
  unfoldable pub vt_move_cursor_up : ℕ → Option (Mem × List ℕ)
  vt_move_cursor_up units =
      compose f m b 10 ((image bracket, 2) ∷ (units, 8) ∷ (image letter_a, 2) ∷ [])

  unfoldable pub vt_move_cursor_down : ℕ → Option (Mem × List ℕ)
  vt_move_cursor_down units =
      compose f m b 10 ((image bracket, 2) ∷ (units, 8) ∷ (image letter_b, 2) ∷ [])

  unfoldable pub vt_move_cursor_left : ℕ → Option (Mem × List ℕ)
  vt_move_cursor_left units =
      compose f m b 10 ((image bracket, 2) ∷ (units, 8) ∷ (image letter_c, 2) ∷ [])

  unfoldable pub vt_move_cursor_right : ℕ → Option (Mem × List ℕ)
  vt_move_cursor_right units =
      compose f m b 10 ((image bracket, 2) ∷ (units, 8) ∷ (image letter_d, 2) ∷ [])

  unfoldable pub vt_move_cursor_xy : (x y : ℕ) → Option (Mem × List ℕ)
  vt_move_cursor_xy x y =
      compose f m b 20
        ((image bracket, 2) ∷ (y, 8) ∷ (image semicolon, 2) ∷ (x, 8) ∷ (image letter_f, 2) ∷ [])

  unfoldable pub vt_setcolor_4bit_fg : ℕ → Option (Mem × List ℕ)
  vt_setcolor_4bit_fg fg_code = compose_bracket f m b 6 ((fg_code, 5) ∷ (image letter_m, 2) ∷ [])

  unfoldable pub vt_setcolor_4bit_bg : ℕ → Option (Mem × List ℕ)
  vt_setcolor_4bit_bg bg_code = compose_bracket f m b 6 ((bg_code, 5) ∷ (image letter_m, 2) ∷ [])

  unfoldable pub vt_setcolor_4bit : (fg_code bg_code : ℕ) → Option (Mem × List ℕ)
  vt_setcolor_4bit fg_code bg_code =
      compose_bracket f m b 10
        ((fg_code, 5) ∷ (image semicolon, 2) ∷ (bg_code, 4) ∷ (image letter_m, 2) ∷ [])

  unfoldable pub vt_setcolor_8bit_fg : ℕ → Option (Mem × List ℕ)
  vt_setcolor_8bit_fg fg_code =
      compose f m b 12 ((image fg_256, 7) ∷ (fg_code, 4) ∷ (image letter_m, 2) ∷ [])

  unfoldable pub vt_setcolor_8bit_bg : ℕ → Option (Mem × List ℕ)
  vt_setcolor_8bit_bg bg_code =
      compose f m b 12 ((image bg_256, 7) ∷ (bg_code, 4) ∷ (image letter_m, 2) ∷ [])

  unfoldable pub vt_setcolor_8bit : (fg_code bg_code : ℕ) → Option (Mem × List ℕ)
  vt_setcolor_8bit fg_code bg_code = compose f m b 20 (
      (image fg_256, 7)
      ∷ (fg_code, 4)
      ∷ (image next_bg_256, 7)
      ∷ (bg_code, 4)
      ∷ (image letter_m, 2)
      ∷ [])

  unfoldable pub vt_setcolor_tru_fg : (red green blue : ℕ) → Option (Mem × List ℕ)
  vt_setcolor_tru_fg red green blue = compose f m b 18 (
      (image fg_rgb, 7)
      ∷ (red, 4)
      ∷ (image semicolon, 2)
      ∷ (green, 4)
      ∷ (image semicolon, 2)
      ∷ (blue, 4)
      ∷ (image letter_m, 2)
      ∷ [])

  unfoldable pub vt_setcolor_tru_bg : (red green blue : ℕ) → Option (Mem × List ℕ)
  vt_setcolor_tru_bg red green blue = compose f m b 18 (
      (image bg_rgb, 7)
      ∷ (red, 4)
      ∷ (image semicolon, 2)
      ∷ (green, 4)
      ∷ (image semicolon, 2)
      ∷ (blue, 4)
      ∷ (image letter_m, 2)
      ∷ [])

  unfoldable pub vt_setcolor_tru : (r_fg r_bg g_fg g_bg b_fg b_bg : ℕ) → Option (Mem × List ℕ)
  vt_setcolor_tru r_fg r_bg g_fg g_bg b_fg b_bg = compose f m b 40 (
      (image fg_rgb, 7)
      ∷ (r_fg, 4)
      ∷ (image semicolon, 2)
      ∷ (g_fg, 4)
      ∷ (image semicolon, 2)
      ∷ (b_fg, 4)
      ∷ (image next_bg_rgb, 7)
      ∷ (r_bg, 4)
      ∷ (image semicolon, 2)
      ∷ (g_bg, 4)
      ∷ (image semicolon, 2)
      ∷ (b_bg, 4)
      ∷ (image letter_m, 2)
      ∷ [])

-- `vt_nsend ("…", 3)` of a literal of three characters, and the single characters
abbrev pub escape : List ℕ → List ℕ
escape s = ascii_esc ∷ s

unfoldable pub vt_scroll_up : List ℕ
vt_scroll_up = ascii_esc ∷ b'D' ∷ []

unfoldable pub vt_scroll_down : List ℕ
vt_scroll_down = ascii_esc ∷ b'M' ∷ []

unfoldable pub vt_clear_line : List ℕ
vt_clear_line = escape (codes "[2K")

unfoldable pub vt_clear_screen : List ℕ
vt_clear_screen = escape (codes "[2J")

unfoldable pub vt_bold_text : List ℕ
vt_bold_text = escape (codes "[1m")

unfoldable pub vt_underline_text : List ℕ
vt_underline_text = escape (codes "[4m")

unfoldable pub vt_invert_colors : List ℕ
vt_invert_colors = escape (codes "[7m")

unfoldable pub vt_blink_text : List ℕ
vt_blink_text = escape (codes "[5m")

unfoldable pub vt_reset_text_attributes : List ℕ
vt_reset_text_attributes = escape (codes "[0m")

unfoldable pub vt_backspace : List ℕ
vt_backspace = escape (codes "[1D") ++ (b' ' ∷ escape (codes "[1D"))

unfoldable pub vt_clear_space : List ℕ
vt_clear_space = b' ' ∷ escape (codes "[1D")

unfoldable pub vt_bell : List ℕ
vt_bell = 7 ∷ []
