-- ===== src/Cstdlib/Ctype.antt =====
-- ctype.c: the tests and case conversions on an `int`, which may be any integer.
pub mod Laws
use rosco_cli.Prelude.{ℤ, pos, negsuc, leb_ℤ, ◌+ℤ◌, ◌-ℤ◌, Bool, ◌&&◌, ◌||◌, if◌then◌else◌, ℕ}

-- c >= lo && c <= hi
abbrev pub in_range : ℤ → ℕ → ℕ → Bool
in_range c lo hi = leb_ℤ (pos lo) c && leb_ℤ c (pos hi)

abbrev pub is_char : ℤ → ℕ → Bool
is_char c k = in_range c k k

unfoldable pub islower : ℤ → Bool
islower c = in_range c b'a' b'z'

unfoldable pub isupper : ℤ → Bool
isupper c = in_range c b'A' b'Z'

unfoldable pub isalpha : ℤ → Bool
unfolding islower isupper
isalpha c = islower c || isupper c

unfoldable pub isdigit : ℤ → Bool
isdigit c = in_range c b'0' b'9'

unfoldable pub isalnum : ℤ → Bool
unfolding isalpha isdigit
isalnum c = isalpha c || isdigit c

unfoldable pub isxdigit : ℤ → Bool
unfolding isdigit
isxdigit c = isdigit c || in_range c b'a' b'f' || in_range c b'A' b'F'

unfoldable pub iscntrl : ℤ → Bool
iscntrl c = in_range c 0x00 0x1F || is_char c 0x7F

unfoldable pub ispunct : ℤ → Bool
ispunct c =
    in_range c b'!' b'/' || in_range c b':' b'@' || in_range c b'[' b'`' || in_range c b'{' b'~'

unfoldable pub isgraph : ℤ → Bool
unfolding isalnum ispunct
isgraph c = isalnum c || ispunct c

unfoldable pub isspace : ℤ → Bool
isspace c =
    is_char c b' '
    || is_char c 0x0C
    || is_char c 0x0A
    || is_char c 0x0D
    || is_char c 0x09
    || is_char c 0x0B

unfoldable pub isblank : ℤ → Bool
isblank c = is_char c b' ' || is_char c 0x09

unfoldable pub isprint : ℤ → Bool
unfolding isgraph
isprint c = isgraph c || is_char c b' '

unfoldable pub tolower : ℤ → ℤ
unfolding isupper ◌+ℤ◌
tolower c = if isupper c then c +ℤ pos 32 else c

unfoldable pub toupper : ℤ → ℤ
unfolding islower ◌-ℤ◌
toupper c = if islower c then c -ℤ pos 32 else c
