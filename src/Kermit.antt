-- ===== src/Kermit.antt =====
-- src/kermit.rs: the sender of the Kermit file transfer protocol. Its packets, its quoting and the
-- parameters that the receiver sends. A byte is a number below 256; `u8` arithmetic wraps.
pub mod Port
pub mod Transfer
pub mod Packets
pub mod Quoting
pub mod Ambiguity
pub mod Chunks
pub mod Body
pub mod Retries
pub mod Delivery
pub mod Session
pub mod Recovery
pub mod Willing
pub mod Success
use rosco_cli.Prelude.{
  ℕ, zero, suc, ◌+◌, ◌-◌, ◌*◌, ◌/◌, ◌%◌, ◌^◌, min, bit_and, bit_xor, Bool, true, false, not, ◌&&◌,
  ◌||◌, Option, none, some, ◌==◌, ltb, leb, if◌then◌else◌, List, [], ◌∷◌, ◌++◌, length, get_elem?,
  u32_mod,
}

abbrev pub soh : ℕ
soh = 1

pub record Params : Type 0 where
  pub maxl : ℕ
  pub eol : ℕ
  pub qctl : ℕ
  pub qbin : Option ℕ
  pub chkt : ℕ
  pub npad : ℕ
  pub padc : ℕ

pub record RxPacket : Type 0 where
  pub seq : ℕ
  pub ptype : ℕ
  pub content : List ℕ

unfoldable pub tochar : ℕ → ℕ
tochar byte = (byte + 32) % 256

-- wrapping_sub
unfoldable pub unchar : ℕ → ℕ
unchar byte = (byte + 256 - 32) % 256

unfoldable pub ctl : ℕ → ℕ
ctl byte = bit_xor byte 0x40

-- b'2' and b'3'
abbrev pub two_characters : ℕ
two_characters = 0x32

abbrev pub crc_check : ℕ
crc_check = 0x33

unfoldable pub check_len : (chkt : ℕ) → ℕ
check_len chkt = if chkt == two_characters then 2 else if chkt == crc_check then 3 else 1

-- one half of the body of the loop
unfoldable pub crc_nibble : (crc nibble : ℕ) → ℕ
crc_nibble crc nibble =
    let q = bit_and (bit_xor crc nibble) 0x0F in bit_xor (crc / 2 ^ 4) (q * 0x1081 % 0x1_0000)

unfoldable pub crc_loop : (crc : ℕ) → List ℕ → ℕ
crc_loop crc [] = crc
crc_loop crc (byte ∷ bytes) = crc_loop (crc_nibble (crc_nibble crc byte) (byte / 2 ^ 4)) bytes

unfoldable pub crc16_kermit : List ℕ → ℕ
crc16_kermit bytes = crc_loop 0 bytes

-- `iter().map(u32::from).sum()`
unfoldable pub sum_u32 : List ℕ → ℕ
sum_u32 [] = 0
sum_u32 (b ∷ bs) = (b + sum_u32 bs) % u32_mod

-- the characters of the three block checks
unfoldable pub check_characters : (chkt sum crc : ℕ) → List ℕ
check_characters chkt sum crc =
    let value = bit_and sum 0x0FFF in
    let low = bit_and sum 0xFF in
    if chkt == two_characters
    then tochar (bit_and (value / 2 ^ 6) 0x3F) ∷ tochar (bit_and value 0x3F) ∷ []
    else if chkt == crc_check
    then tochar (bit_and (crc / 2 ^ 12) 0x0F)
      ∷ tochar (bit_and (crc / 2 ^ 6) 0x3F)
      ∷ tochar (bit_and crc 0x3F)
      ∷ []
    else tochar (bit_and (low + bit_and low 0xC0 / 2 ^ 6) 0x3F) ∷ []

unfoldable pub repeat_n : ℕ → ℕ → List ℕ
repeat_n byte zero = []
repeat_n byte (suc n) = byte ∷ repeat_n byte n

unfoldable pub build_packet : (seq ptype : ℕ) → List ℕ → Params → List ℕ
build_packet seq ptype content params =
    let clen = check_len params.chkt in
    let len_char = tochar ((length content + clen + 2) % 256) in
    let seq_char = tochar (seq % 64) in
    let sum = (len_char + seq_char + ptype + sum_u32 content) % u32_mod in
    let crc = crc16_kermit (len_char ∷ seq_char ∷ ptype ∷ content) in
    repeat_n params.padc params.npad
    ++ (soh ∷ len_char ∷ seq_char ∷ ptype ∷ content
        ++ check_characters params.chkt sum crc
        ++ params.eol ∷ [])

-- whether a byte is the character that quotes the eighth bit
unfoldable pub is_qbin : Option ℕ → ℕ → Bool
is_qbin none byte = false
is_qbin (some q) byte = q == byte

-- the last part of encode_byte
unfoldable pub encode_current : (current : ℕ) → Params → List ℕ
encode_current current params =
    let low = bit_and current 0x7F in
    if ltb low 0x20 || low == 0x7F
    then params.qctl ∷ ctl current ∷ []
    else if low == params.qctl || is_qbin params.qbin low
    then params.qctl ∷ current ∷ []
    else current ∷ []

-- what encode_byte appends to the output; the second clause is `qbin.is_some()`
unfoldable pub encode_with : Option ℕ → (byte : ℕ) → Params → List ℕ
encode_with none byte params = encode_current byte params
encode_with (some q) byte params =
    if not (bit_and byte 0x80 == 0)
    then q ∷ encode_current (bit_and byte 0x7F) params
    else encode_current byte params

unfoldable pub encode_byte : (output : List ℕ) (byte : ℕ) → Params → List ℕ
encode_byte output byte params = output ++ encode_with params.qbin byte params

unfoldable pub unwrap_or : Option ℕ → ℕ → ℕ
unwrap_or none d = d
unwrap_or (some a) d = a

-- Option.map and Option.filter, as parse_params uses them
unfoldable pub map_or_none : (ℕ → ℕ) → (ℕ → Bool) → Option ℕ → Option ℕ
map_or_none f keep none = none
map_or_none f keep (some a) = if keep (f a) then some (f a) else none

-- `byte != b'Y' && byte != b'N' && byte != b' ' && (33..=126).contains(&byte)`
unfoldable pub quotes : ℕ → Bool
quotes byte =
    not (byte == 0x59) && not (byte == 0x4E) && not (byte == 0x20) && (leb 33 byte && leb byte 126)

unfoldable pub parse_params : List ℕ → Params
parse_params content = record {
  maxl = min (unwrap_or (map_or_none unchar (λ n. ltb 0 n) (get_elem? content 0)) 80) 94;
  npad = unwrap_or (map_or_none unchar (λ n. true) (get_elem? content 2)) 0;
  padc = unwrap_or (map_or_none ctl (λ n. true) (get_elem? content 3)) 0;
  eol = unwrap_or (map_or_none unchar (λ n. not (n == 0)) (get_elem? content 4)) 0x0D;
  qctl = 0x23;
  qbin = map_or_none (λ n. n) quotes (get_elem? content 6);
  chkt =
      unwrap_or
        (map_or_none (λ n. n) (λ n. n == 0x31 || n == 0x32 || n == 0x33) (get_elem? content 7))
        0x31;
}
