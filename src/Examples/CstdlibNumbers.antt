-- ===== src/Examples/CstdlibNumbers.antt =====
-- stdlib.c on concrete numbers.
use rosco_cli.Prelude.{
  ◌+◌, ◌≡◌, refl, [], ◌∷◌, arith, length, codes, pos, negsuc, some, true, suc, signed32,
}
use rosco_cli.Memory.{Mem, two_texts, poke}
use rosco_cli.Cstdlib.Stdlib.{
  digit_value, strtol, itoa, atoi, skip_spaces, take_sign, take_prefix, strtol_loop, finish,
  accumulate, utoa_write, utoa_digits, swap_loop, digit_char,
}
use rosco_cli.Cstdlib.Stdlib.Digits.{from_digits}
use rosco_cli.Cstdlib.Stdlib.Fold.{Stops}
use rosco_cli.Cstdlib.Stdlib.Parse.{held, is_minus, sign_text, strtol_numeral}
use rosco_cli.Cstdlib.Stdlib.RoundTrip.{atoi-itoa}

abbrev blank : Mem
blank x = 0

abbrev number : Mem
number = two_texts 100 (codes "  -42;") 200 []

atoi-itoa_example :
    atoi 40 (itoa blank 0xffff_ffd6 100 (pos 10)).0 100 ≡ some (signed32 0xffff_ffd6)
atoi-itoa_example = atoi-itoa 40 blank 0xffff_ffd6 100 (omega arith) (omega arith)

itoa_run : atoi 40 (itoa blank 0xffff_ffd6 100 (pos 10)).0 100 ≡ some (negsuc 41)
unfolding atoi strtol itoa skip_spaces take_sign take_prefix strtol_loop finish accumulate
    digit_value utoa_write utoa_digits swap_loop digit_char poke
itoa_run = refl

semicolon-Stops : Stops 10 b';'
unfolding digit_value
semicolon-Stops d h = ground arith

four : digit_value b'4' ≡ some 4
unfolding digit_value
four = refl

two : digit_value b'2' ≡ some 2
unfolding digit_value
two = refl

strtol_numeral_example :
    strtol 9 number 100 (pos 10)
    ≡ some (
      held (is_minus (some true)) (from_digits 10 0 (4 ∷ 2 ∷ [])),
      100 + 2 + length (sign_text (some true)) + suc (length (codes "2")),
    )
strtol_numeral_example =
    strtol_numeral 9 number 100 10 2 (some true) b'4' 4 (b'2' ∷ []) (2 ∷ []) (omega arith)
      (omega arith) (omega arith) (omega arith) (omega arith) (omega arith)
      (four, omega arith, (two, omega arith, tt)) semicolon-Stops (omega arith) (omega arith)
