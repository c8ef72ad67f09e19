-- ===== src/Cstdlib/Stdlib.antt =====
-- stdlib.c: the generator of random numbers, and numbers from and to text. An `int` or `unsigned` value
-- is its 32-bit pattern, a base is any integer. Only seven-bit characters are told apart here, so the characters that strtol reads are taken as bytes.
pub mod Digits
pub mod Print
pub mod Fold
pub mod Parse
pub mod RoundTrip
use rosco_cli.Prelude.{
  ℕ, zero, suc, ◌+◌, ◌-◌, ◌*◌, ◌/◌, ◌%◌, Bool, true, false, ◌&&◌, ◌||◌, Option, none, some, ◌==◌,
  ltb, leb, if◌then◌else◌, ◌>>=◌, ℤ, pos, negsuc, signed32, u32_mod,
}
use rosco_cli.Memory.{Mem, poke}

abbrev pub rand_max : ℕ
rand_max = 0x7fff_ffff

-- the new `rand_seed`, and the result
unfoldable pub srand : ℕ → ℕ → ℕ
srand rand_seed seed = seed

unfoldable pub rand : ℕ → ℕ × ℕ
rand rand_seed =
    let next = (rand_seed * 1_103_515_245 + 12_345) % u32_mod in (next, next % 0x8000_0000)

-- what a character counts for as a digit, in the largest base
unfoldable pub digit_value : ℕ → Option ℕ
digit_value c =
    if leb b'0' c && leb c b'9'
    then some (c - b'0')
    else if leb b'A' c && leb c b'Z'
    then some (c - (b'A' - 10))
    else if leb b'a' c && leb c b'z'
    then some (c - (b'a' - 10))
    else none

-- `any` of strtol: 0, 1 and -1
pub data Progress : Type 0 where
  nothing digits overflow : Progress

abbrev pub overflowed : Progress → Bool
overflowed overflow = true
overflowed _ = false

pub record Scan : Type 0 where
  pub acc : ℕ
  pub any : Progress
  -- behind the character that ended the scan
  pub s : ℕ

-- one digit below the base is read into `acc` and `any`
unfoldable pub accumulate : (base cutoff cutlim acc : ℕ) → Progress → ℕ → ℕ × Progress
accumulate base cutoff cutlim acc any d =
    if overflowed any || ltb cutoff acc || (acc == cutoff && ltb cutlim d)
    then (acc, overflow)
    else ((acc * base % u32_mod + d) % u32_mod, digits)

-- `for (acc = 0, any = 0;; c = *s++)`, with `c` read already
unfoldable pub strtol_loop : ℕ → Mem → (base cutoff cutlim c s acc : ℕ) → Progress → Option Scan
strtol_loop zero m base cutoff cutlim c s acc any = none
strtol_loop (suc f) m base cutoff cutlim c s acc any =
    let stop = some (record { acc = acc; any = any; s = s }) in
    elim (digit_value c) [
      | none ↦ stop
      | some d ↦
          let (acc', any') = accumulate base cutoff cutlim acc any d in
          let rest = strtol_loop f m base cutoff cutlim (m s) (s + 1) acc' any' in
          if leb base d then stop else rest
    ]

-- `do { c = *s++; } while (c == ' ');` gives the character and the pointer behind it
unfoldable pub skip_spaces : ℕ → Mem → ℕ → Option (ℕ × ℕ)
skip_spaces zero m s = none
skip_spaces (suc f) m s =
    let rest = skip_spaces f m (s + 1) in if m s == b' ' then rest else some (m s, s + 1)

-- the sign: whether it is a minus, the next character and the pointer behind that
unfoldable pub take_sign : Mem → ℕ × ℕ → Bool × ℕ × ℕ
take_sign m (c, s) =
    if c == b'-'
    then (true, m s, s + 1)
    else if c == b'+'
    then (false, m s, s + 1)
    else (false, c, s)

-- the prefix 0x: the character, the pointer and the base that follow
unfoldable pub take_prefix : Mem → (c s base : ℕ) → ℕ × ℕ × ℕ
take_prefix m c s base =
    if (base == 0 || base == 16) && (c == b'0' && (m s == b'x' || m s == b'X'))
    then (m (s + 1), s + 2, 16)
    else if base == 0
    then (c, s, if c == b'0' then 8 else 10)
    else (c, s, base)

unfoldable pub finish : Bool → Scan → ℤ × ℕ
unfolding signed32
finish neg r =
    let acc =
      if overflowed r.any
      then if neg then 0x8000_0000 else 0x7fff_ffff
      else if neg
      then (u32_mod - r.acc) % u32_mod
      else r.acc in
    (signed32 acc, r.s - 1)

-- the result, and what is stored through `ptr`
unfoldable pub strtol : ℕ → Mem → ℕ → ℤ → Option (ℤ × ℕ)
strtol f m s (negsuc n) = some (pos 0, s)
strtol f m s (pos base) = if base == 1 || ltb 36 base then some (pos 0, s) else do
  start ← skip_spaces f m s
  let (neg, c, s1) = take_sign m start
  let (c', s2, b) = take_prefix m c s1 base
  let limit = if neg then 0x8000_0000 else 0x7fff_ffff
  r ← strtol_loop f m b (limit / b) (limit % b) c' s2 0 nothing
  some (finish neg r)

unfoldable pub atol : ℕ → Mem → ℕ → Option ℤ
atol f m s = do r ← strtol f m s (pos 10); some r.0

-- `(int)` of a `long` is the same integer
unfoldable pub atoi : ℕ → Mem → ℕ → Option ℤ
atoi f m s = do r ← strtol f m s (pos 10); some r.0

-- `digits[i]`
unfoldable pub digit_char : ℕ → ℕ
digit_char i = if ltb i 10 then b'0' + i else b'a' + (i - 10)

-- a base that is supported
abbrev pub radix : ℤ → Option ℕ
radix (negsuc n) = none
radix (pos b) = if ltb b 2 || ltb 36 b then none else some b

-- the `do` loop: digits from the lowest on; 32 rounds are enough for 32 bits
unfoldable pub utoa_digits : ℕ → Mem → (str i value base : ℕ) → Mem × ℕ
utoa_digits zero m str i value base = (m, i)
utoa_digits (suc f) m str i value base =
    let m' = poke m (str + i) (digit_char (value % base)) in
    let rest = utoa_digits f m' str (i + 1) (value / base) base in
    if value / base == 0 then (m', i + 1) else rest

-- `for (…; j < i; j++, i--)` with its swap
unfoldable pub swap_loop : ℕ → Mem → (str j i : ℕ) → Mem
swap_loop zero m str j i = m
swap_loop (suc f) m str j i =
    let m' = poke (poke m (str + j) (m (str + i))) (str + i) (m (str + j)) in
    let rest = swap_loop f m' str (j + 1) (i - 1) in if ltb j i then rest else m

unfoldable pub utoa_write : Mem → (value str base : ℕ) → Mem
utoa_write m value str base =
    let (m', i) = utoa_digits 32 m str 0 value base in
    swap_loop 32 (poke m' (str + i) 0) str 0 (i - 1)

-- the memory, and the pointer that is returned
unfoldable pub utoa : Mem → (value str : ℕ) → ℤ → Mem × Option ℕ
utoa m value str base = elim (radix base) [
  | none ↦ (poke m str 0, none)
  | some b ↦ (utoa_write m value str b, some str)
]

unfoldable pub itoa : Mem → (value str : ℕ) → ℤ → Mem × Option ℕ
itoa m value str base = elim (radix base) [
  | none ↦ (poke m str 0, none)
  | some b ↦
      if b == 10 && leb 0x8000_0000 value
      then (utoa_write (poke m str b'-') ((u32_mod - value) % u32_mod) (str + 1) b, some str)
      else (utoa_write m value str b, some str)
]
