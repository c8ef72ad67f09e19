-- ===== src/Gdb/Hex.antt =====
-- m68k-stub.c: hex, mem2hex, hex2mem and hexToInt. Characters are bytes; a byte of 0x80 or more is a negative
-- `char`, and is no digit either way.
pub mod Laws
use rosco_cli.Prelude.{
  ℕ, zero, suc, ◌+◌, ◌-◌, ◌*◌, ◌/◌, ◌%◌, Bool, true, false, ◌&&◌, Option, none, some, ◌==◌, leb,
  ltb, if◌then◌else◌, ℤ, pos, negsuc, u32_mod,
}
use rosco_cli.Memory.{Mem, poke}

-- `hexchars[i]`
unfoldable pub hexchar : ℕ → ℕ
hexchar i = if ltb i 10 then b'0' + i else b'a' + (i - 10)

unfoldable pub hex : ℕ → ℤ
hex ch =
    if leb b'a' ch && leb ch b'f'
    then pos (ch - b'a' + 10)
    else if leb b'0' ch && leb ch b'9'
    then pos (ch - b'0')
    else if leb b'A' ch && leb ch b'F'
    then pos (ch - b'A' + 10)
    else negsuc 0

-- the low byte of an `int`
abbrev pub low_byte : ℤ → ℕ
low_byte (pos n) = n % 256
low_byte (negsuc n) = 255 - n % 256

-- `x = hex(hi) << 4; x += hex(lo);` in an unsigned char
unfoldable pub hex_byte : ℕ → ℕ → ℕ
unfolding hex
hex_byte hi lo = (low_byte (hex hi) * 16 % 256 + low_byte (hex lo)) % 256

-- `count` bytes at `mem` of `src` are written in hex to `buf` of `dst`, with a null byte behind
unfoldable pub mem2hex : (src : Mem) (mem : ℕ) (dst : Mem) (buf count : ℕ) → Mem × ℕ
mem2hex src mem dst buf zero = (poke dst buf 0, buf)
mem2hex src mem dst buf (suc n) =
    let ch = src mem in
    mem2hex src (mem + 1) (poke (poke dst buf (hexchar (ch / 16))) (buf + 1) (hexchar (ch % 16)))
      (buf + 2) n

-- the other way round
unfoldable pub hex2mem : (src : Mem) (buf : ℕ) (dst : Mem) (mem count : ℕ) → Mem × ℕ
hex2mem src buf dst mem zero = (dst, mem)
hex2mem src buf dst mem (suc n) =
    hex2mem src (buf + 2) (poke dst mem (hex_byte (src buf) (src (buf + 1)))) (mem + 1) n

-- what hexToInt leaves: how many characters it took, the value and where it stopped
pub record Number : Type 0 where
  pub num_chars : ℕ
  pub value : ℕ
  pub ptr : ℕ

-- The value is shifted out of its four low bits before the digit is put there, so `|` is a sum.
unfoldable pub hex_to_int_loop : ℕ → Mem → (ptr num_chars value : ℕ) → Option Number
hex_to_int_loop zero m ptr num_chars value = none
hex_to_int_loop (suc f) m ptr num_chars value =
    let stop = some (record { num_chars = num_chars; value = value; ptr = ptr }) in
    elim (hex (m ptr)) [
      | negsuc _ ↦ stop
      | pos d ↦
          let rest = hex_to_int_loop f m (ptr + 1) (num_chars + 1) (value * 16 % u32_mod + d) in
          if m ptr == 0 then stop else rest
    ]

unfoldable pub hex_to_int : ℕ → Mem → ℕ → Option Number
hex_to_int f m ptr = hex_to_int_loop f m ptr 0 0
