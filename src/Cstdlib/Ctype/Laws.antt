-- ===== src/Cstdlib/Ctype/Laws.antt =====
-- ctype.c: the classes against their ranges, and the case conversions.
use rosco_cli.Prelude.{ℤ, pos, Bool, true, if◌then◌else◌, ℕ, ◌≡◌, arith, ◌+◌, ◌<◌}
use rosco_cli.Cstdlib.Ctype.{
  in_range, isupper, isalpha, isdigit, ispunct, isprint, iscntrl, tolower, toupper,
}

-- The printable characters are exactly those from space to tilde.
pub isprint_range : (c : ℤ) → isprint c ≡ in_range c b' ' b'~'
unfolding isprint
isprint_range c = ground arith

abbrev pub b2n : Bool → ℕ
b2n b = if b then 1 else 0

-- Of the seven-bit characters each is in exactly one of: control characters, the space, letters, digits, punctuation.
pub classes_partition :
    (c : ℕ)
    → c < 128
    → b2n (iscntrl (pos c))
        + b2n (in_range (pos c) b' ' b' ')
        + b2n (isalpha (pos c))
        + b2n (isdigit (pos c))
        + b2n (ispunct (pos c))
      ≡ 1
unfolding iscntrl isalpha isdigit ispunct
classes_partition c h = ground arith

-- tolower and toupper undo each other on letters
pub toupper-tolower : (c : ℤ) → isupper c ≡ true → toupper (tolower c) ≡ c
unfolding toupper tolower
toupper-tolower c h = ground arith
