-- ===== src/Basicio/Print.antt =====
-- basicio.c and fgets.c: hexadecimal output, and a line with its line feed.
use rosco_cli.Prelude.{
  ℕ, zero, suc, ◌+◌, ◌*◌, ◌/◌, ◌%◌, ◌^◌, ◌<◌, ◌≤◌, ◌≡◌, refl, List, [], ◌∷◌, true, length, arith,
  Option, none, some, ◌∙◌, bit_and, subst, low_nibble, nibble,
}
use rosco_cli.Memory.{Mem, poke, poke_self, poke_ne, SameOutside}
use rosco_cli.Basicio.{
  Call, print, Read, readline, fgets, digit_text, print_digit, printuint, printushort, printuchar,
}
use rosco_cli.Basicio.Readline.{Typed, edit, erase, Agree, readline-edit, Typed-frame}
use rosco_cli.Cstdlib.Stdlib.Digits.{from_digits}

-- A return ends a line only when another character would have fitted.
edit-room :
    (size : ℕ) (line input s rest : List ℕ)
    → edit size line input ≡ some (true, s, rest)
    → length s + 1 < size
edit-room size line [] s rest e = ground arith
edit-room size line (c ∷ input) s rest e = ground (
  arith,
  edit-room size (erase line) input s rest,
  edit-room size line input s rest,
  edit-room size (c ∷ line) input s rest,
)

-- What fgets leaves of a line that is not empty: its characters and a line feed, closed by a null byte.
pub record Line (m : Mem) (buf n : ℕ) (line rest : List ℕ) (r : Read) : Type 0 where
  pub typed : Typed r.memory buf (b'\n' ∷ line)
  pub null : r.memory (buf + length line + 1) ≡ 0
  pub result : r.result ≡ buf
  pub input : r.input ≡ rest
  pub frame : SameOutside m r.memory buf n

-- A line of one character or more that return ends is given by fgets with a line feed behind it, within the `n` bytes of the buffer.
pub fgets-Line :
    (m : Mem) (buf n : ℕ) (c : ℕ) (line input rest : List ℕ)
    → n ≤ 256
    → edit n [] input ≡ some (true, c ∷ line, rest)
    → (r : Read) × (fgets m buf n input ≡ some r) × Line m buf n (c ∷ line) rest r
fgets-Line m buf n c line input rest room e =
    let fits = edit-room n [] input (c ∷ line) rest e in
    let agree : Agree m buf n (some (true, c ∷ line, rest)) (readline m buf n input) =
      subst (λ t. Agree m buf n t (readline m buf n input)) e
        (readline-edit m buf n input (omega arith) room) in
    go (readline m buf n input) fits refl agree
  where
    go :
        (r : Option Read)
        → length (c ∷ line) + 1 < n
        → readline m buf n input ≡ r
        → Agree m buf n (some (true, c ∷ line, rest)) r
        → (s : Read) × (fgets m buf n input ≡ some s) × Line m buf n (c ∷ line) rest s
    go none fits run h = elim h [ ]
    go (some r) fits run h =
        let len = length (c ∷ line) in
        let m1 = poke r.memory (buf + len) b'\n' in
        let m2 = poke m1 (buf + len + 1) 0 in
        (
          record { memory = m2; result = buf; calls = r.calls; input = r.input },
          unfold fgets in rw (run, h.result) (ground (arith, fits)),
          record {
            typed = (
              poke_ne m1 (buf + len + 1) 0 (buf + len) (omega arith)
                  ∙ poke_self r.memory (buf + len) b'\n',
              Typed-frame r.memory m2 buf (c ∷ line) h.typed (λ x lo hi.
                  poke_ne m1 (buf + len + 1) 0 x (omega arith)
                  ∙ poke_ne r.memory (buf + len) b'\n' x (omega arith)),
            );
            null = poke_self m1 (buf + len + 1) 0;
            result = refl;
            input = h.rest;
            frame = λ x out.
                poke_ne m1 (buf + len + 1) 0 x (omega arith)
                ∙ poke_ne r.memory (buf + len) b'\n' x (omega arith)
                ∙ h.frame x out;
          },
        )

-- the `k` hexadecimal digits of a number, the highest first
abbrev pub hex_digits : ℕ → ℕ → List ℕ
hex_digits zero v = []
hex_digits (suc k) v = (v / 2 ^ (4 * k) % 16) ∷ hex_digits k v

abbrev pub digit_calls : List ℕ → List Call
digit_calls [] = []
digit_calls (d ∷ ds) = print (digit_text d ∷ []) ∷ digit_calls ds

print_digit-nibble :
    (k v : ℕ)
    → print_digit (bit_and v (15 * 2 ^ k) / 2 ^ k) ≡ print (digit_text (v / 2 ^ k % 16) ∷ [])
unfolding print_digit
print_digit-nibble k v =
    let once : bit_and (v / 2 ^ k % 16) 0xF ≡ v / 2 ^ k % 16 =
      low_nibble (v / 2 ^ k % 16) ∙ omega arith in
    rw (nibble k v, once)

print_digit-low : (v : ℕ) → print_digit (bit_and v 0xF) ≡ print (digit_text (v / 2 ^ 0 % 16) ∷ [])
unfolding print_digit
print_digit-low v =
    let twice : bit_and (bit_and v 0xF) 0xF ≡ v / 2 ^ 0 % 16 =
      omega (arith, low_nibble (bit_and v 0xF), low_nibble v) in
    rw twice

word : (v : ℕ) → printuint v ≡ digit_calls (hex_digits 8 v)
unfolding printuint
word v =
    let p4 = print_digit-nibble 4 v in
    let p8 = print_digit-nibble 8 v in
    let p12 = print_digit-nibble 12 v in
    let p16 = print_digit-nibble 16 v in
    let p20 = print_digit-nibble 20 v in
    let p24 = print_digit-nibble 24 v in
    let p28 = print_digit-nibble 28 v in rw (p28, p24, p20, p16, p12, p8, p4, print_digit-low v)

half : (v : ℕ) → printushort v ≡ digit_calls (hex_digits 4 v)
unfolding printushort
half v =
    let p4 = print_digit-nibble 4 v in
    let p8 = print_digit-nibble 8 v in
    let p12 = print_digit-nibble 12 v in rw (p12, p8, p4, print_digit-low v)

low_byte : (v : ℕ) → printuchar v ≡ digit_calls (hex_digits 2 v)
unfolding printuchar
low_byte v = let p4 = print_digit-nibble 4 v in rw (p4, print_digit-low v)

value8 : (v : ℕ) → v < 2 ^ 32 → from_digits 16 0 (hex_digits 8 v) ≡ v
value8 v h = omega arith

value4 : (v : ℕ) → v < 2 ^ 16 → from_digits 16 0 (hex_digits 4 v) ≡ v
value4 v h = omega arith

value2 : (v : ℕ) → v < 2 ^ 8 → from_digits 16 0 (hex_digits 2 v) ≡ v
value2 v h = omega arith

-- printuint, printushort and printuchar print one upper-case hexadecimal digit after the other, eight, four and two of them, whose value is the argument: a word, its low half and its low byte.
pub printuint-hex_digits :
    (v : ℕ)
    → v < 2 ^ 32
    → (printuint v ≡ digit_calls (hex_digits 8 v))
      × (from_digits 16 0 (hex_digits 8 v) ≡ v)
      × (printushort (v % 2 ^ 16) ≡ digit_calls (hex_digits 4 (v % 2 ^ 16)))
      × (from_digits 16 0 (hex_digits 4 (v % 2 ^ 16)) ≡ v % 2 ^ 16)
      × (printuchar (v % 2 ^ 8) ≡ digit_calls (hex_digits 2 (v % 2 ^ 8)))
      × (from_digits 16 0 (hex_digits 2 (v % 2 ^ 8)) ≡ v % 2 ^ 8)
printuint-hex_digits v h = (
  word v,
  value8 v h,
  half (v % 2 ^ 16),
  value4 (v % 2 ^ 16) (omega arith),
  low_byte (v % 2 ^ 8),
  value2 (v % 2 ^ 8) (omega arith),
)
