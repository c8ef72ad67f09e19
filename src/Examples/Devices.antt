-- ===== src/Examples/Devices.antt =====
-- vterm.c, kinit.c, basicio.c, fgets.c, sst.c and sdcard.c at concrete inputs.
use mathlib.Core.List.{map}
use rosco_cli.Prelude.{
  inr, ℕ, ◌+◌, ◌*◌, ◌^◌, ◌<◌, ◌≡◌, refl, arith, codes, List, [], ◌∷◌, ◌++◌, Bool, true, false,
  Option, none, some, reverse, take, if◌then◌else◌, ltb, leb, ◌&&◌, ◌==◌, ◌-◌, pos, ap, sym, ◌∙◌,
}
use rosco_cli.Memory.{Mem, nth}
use rosco_cli.Cstdlib.Stdlib.{digit_char}
use rosco_cli.Cstdlib.Stdlib.Digits.{from_digits}
use rosco_cli.Cstdlib.Stdlib.Parse.{held}
use rosco_cli.Vterm.{Literal, ascii_esc}
use rosco_cli.Vterm.Cursor.{vt_get_cursor_pos}
use rosco_cli.Vterm.Cursor.Laws.{vt_get_cursor_pos-answer, vt_get_cursor_pos-one_number}
use rosco_cli.Kinit.{cxa_finalize}
use rosco_cli.Kinit.Laws.{register_all, due, cxa_finalize-reverse}
use rosco_cli.Basicio.{readline}
use rosco_cli.Basicio.Readline.{Agree, edit, readline-edit}
use rosco_cli.Flash.{Bus, sst_write_byte, sst_sector_erase, sst_chip_erase}
use rosco_cli.Flash.Laws.{cycles, program_cycles, erase_cycles, sst_operations-cycles}
use rosco_cli.Sdcard.{fat_media_read, sd_get_size}
use rosco_cli.Sdcard.Laws.{
  Sectors, Reads, fat_media_read-Sectors, register, capacity, sd_get_size-capacity,
}

-- where the literals lie
abbrev image : Literal → ℕ
image Literal.bracket = 1000
image Literal.letter_a = 1010
image Literal.letter_b = 1020
image Literal.letter_c = 1030
image Literal.letter_d = 1040
image Literal.letter_f = 1050
image Literal.letter_m = 1060
image Literal.semicolon = 1070
image Literal.fg_256 = 1080
image Literal.bg_256 = 1090
image Literal.next_bg_256 = 1100
image Literal.fg_rgb = 1110
image Literal.bg_rgb = 1120
image Literal.next_bg_rgb = 1130
image Literal.nines = 1140

-- all the literals at distances of ten, each with null bytes behind it, and the text 255 at 1150
abbrev padded : List ℕ → List ℕ
padded s = take 10 (s ++ 0 ∷ 0 ∷ 0 ∷ 0 ∷ 0 ∷ 0 ∷ 0 ∷ 0 ∷ 0 ∷ 0 ∷ [])

abbrev memory_bytes : List ℕ
memory_bytes =
    padded (codes "[")
    ++ (padded (codes "A")
        ++ (padded (codes "B")
            ++ (padded (codes "C")
                ++ (padded (codes "D")
                    ++ (padded (codes "f")
                        ++ (padded (codes "m")
                            ++ (padded (codes ";")
                                ++ (padded (codes "[38;5;")
                                    ++ (padded (codes "[48;5;")
                                        ++ (padded (codes ";48;5;")
                                            ++ (padded (codes "[38;2;")
                                                ++ (padded (codes "[48;2;")
                                                    ++ (padded (codes ";48;2;")
                                                        ++ (padded (codes "999")
                                                            ++ padded (codes "255")))))))))))))))

abbrev memory : Mem
memory x = if ltb x 1000 then 0 else nth memory_bytes (x - 1000)

vt_get_cursor_pos-answer_example :
    (m' : Mem) × (vt_get_cursor_pos 40 memory 100 120 (
        ascii_esc
        ∷ b'['
        ∷ (map digit_char (2 ∷ 4 ∷ []) ++ b';' ∷ (map digit_char (8 ∷ 0 ∷ []) ++ b'R' ∷ codes "x")))
      ≡ some (
        m',
        some (record {
          x = held false (from_digits 10 0 (8 ∷ 0 ∷ []));
          y = held false (from_digits 10 0 (2 ∷ 4 ∷ []));
        }),
        codes "x",
      ))
vt_get_cursor_pos-answer_example =
    vt_get_cursor_pos-answer 40 memory 100 120 (2 ∷ 4 ∷ []) (8 ∷ 0 ∷ []) (codes "x") (omega arith)
      (omega arith) (omega arith) (omega arith)

vt_get_cursor_pos-one_number_example :
    (m' : Mem) × (vt_get_cursor_pos 40 memory 100 120
        (ascii_esc ∷ b'[' ∷ (codes "24" ++ b'R' ∷ codes "x"))
      ≡ some (m', some (record { x = pos 0; y = pos 0 }), codes "x"))
vt_get_cursor_pos-one_number_example =
    vt_get_cursor_pos-one_number 40 memory 100 120 (codes "24") (codes "x") (omega arith)
      (omega arith) (omega arith) (omega arith)

abbrev exits : List (ℕ × ℕ × ℕ)
exits = (0x2000, 1, 7) ∷ (0x2010, 2, 8) ∷ (0x2020, 3, 7) ∷ []

cxa_finalize-reverse_example :
    ((cxa_finalize (register_all [] exits) 7).1 ≡ reverse (due 7 exits))
    × ((cxa_finalize (cxa_finalize (register_all [] exits) 7).0 7).1 ≡ [])
cxa_finalize-reverse_example = cxa_finalize-reverse exits 7 (omega arith)

abbrev keys : List ℕ
keys = b'a' ∷ b'x' ∷ 0x7F ∷ 0x0A ∷ b'b' ∷ 0x0D ∷ b'c' ∷ []

readline-edit_example : Agree memory 100 9 (edit 9 [] keys) (readline memory 100 9 keys)
readline-edit_example = readline-edit memory 100 9 keys (omega arith) (omega arith)

abbrev bus : Bus
bus = record { writes = []; reads = 0x40 ∷ 0 ∷ 0x40 ∷ 0x40 ∷ 0x55 ∷ [] }

sst_operations-cycles_example :
    (sst_write_byte (7 * 2 ^ 20) 0x123 0x5A bus
      ≡ some (
        record { writes = cycles (7 * 2 ^ 20) (program_cycles 0x123 0x5A) []; reads = 0x55 ∷ [] },
        true,
      ))
    × (sst_sector_erase (7 * 2 ^ 20) 3 bus
        ≡ some (
          record {
            writes = cycles (7 * 2 ^ 20) (erase_cycles (3 * 0x1000) 0x30) [];
            reads = 0x55 ∷ [];
          },
          true,
        ))
    × (sst_chip_erase (7 * 2 ^ 20) bus
        ≡ some (
          record { writes = cycles (7 * 2 ^ 20) (erase_cycles 0x5555 0x10) []; reads = 0x55 ∷ [] },
          true,
        ))
sst_operations-cycles_example =
    sst_operations-cycles 7 bus 0x123 0x5A 3 (0x55 ∷ []) (omega arith) (omega arith)
      (0x40, 0 ∷ 0x40 ∷ [], 0x40, refl, (omega arith, (omega arith, tt)), refl)

-- a card of version 2 with C_SIZE 0x1234
abbrev csd : ℕ → ℕ
csd x = if x == 0 then 64 else if x == 8 then 0x12 else if x == 9 then 0x34 else 0

csd_bytes : (i : ℕ) → csd i < 256
csd_bytes i = ground arith

sd_get_size-capacity_example :
    (s : ℕ) × (sd_get_size (some csd) ≡ some s) × (s * 512 ≡ capacity (register 16 csd))
sd_get_size-capacity_example = sd_get_size-capacity csd csd_bytes (inr (refl, (omega arith)))

-- a driver that fills a block with its number, and one that writes nothing
abbrev read_block : Bool → ℕ → ℕ → Mem → Option Mem
read_block d block buffer m =
    some (λ x. if leb buffer x && ltb x (buffer + 512) then block else m x)

abbrev write_block : Bool → ℕ → ℕ → Mem → Bool × Bool
write_block d block buffer m = (d, true)

abbrev byte : Option Mem → ℕ → ℕ
byte none x = 0
byte (some m) x = m x

read_block-Reads : Reads read_block true (λ block j. block)
read_block-Reads block buffer m m' e =
    let at = λ (x : ℕ). ap (λ o. byte o x) e in
    ((λ j h. sym (at (buffer + j)) ∙ ground arith), (λ x out. sym (at x) ∙ ground arith))

fat_media_read-Sectors_example :
    Sectors
      (λ block j. block)
      5
      100
      2
      memory
      (fat_media_read read_block write_block true 5 100 2 memory).0
unfolding fat_media_read
fat_media_read-Sectors_example =
    fat_media_read-Sectors read_block write_block true (λ block j. block) read_block-Reads 5 100 2
      memory (omega arith) refl
