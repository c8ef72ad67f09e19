-- ===== src/Ihex/Loader.antt =====
-- An Intel HEX loader, as a description of what src/ihex.rs is to send, and a record read back by it.
use rosco_cli.Prelude.{
  ℕ, ◌+◌, ◌-◌, ◌*◌, ◌/◌, ◌%◌, ◌<◌, ◌≡◌, refl, sym, ap, ◌∙◌, arith, true, ◌&&◌, Option, none, some,
  ◌==◌, leb, if◌then◌else◌, ◌>>=◌, List, [], ◌∷◌, ◌++◌, length, take, All, append_assoc, append-nil,
  All-append, length-append, ==_refl,
}
use rosco_cli.Ihex.{hex_digit, hex2, hex4, push_bytes, fold_u8, checksum, record_line}

abbrev pub hex_value : ℕ → Option ℕ
hex_value c =
    if leb 0x30 c && leb c 0x39
    then some (c - 0x30)
    else if leb 0x41 c && leb c 0x46
    then some (c - 0x37)
    else none

-- the bytes that pairs of digits stand for
abbrev pub from_hex : List ℕ → Option (List ℕ)
from_hex [] = some []
from_hex (h ∷ []) = none
from_hex (h ∷ l ∷ cs) = do
  a ← hex_value h
  b ← hex_value l
  bs ← from_hex cs
  some ((a * 16 + b) ∷ bs)

abbrev pub total : List ℕ → ℕ
total [] = 0
total (b ∷ bs) = b + total bs

pub record Loaded : Type 0 where
  pub address : ℕ
  pub kind : ℕ
  pub content : List ℕ

-- A sound record: all bytes, the checksum included, add up to 0 modulo 256, and there are as many as the
-- first one says.
abbrev fields : List ℕ → Option Loaded
fields (n ∷ high ∷ low ∷ kind ∷ tail) =
    if total (n ∷ high ∷ low ∷ kind ∷ tail) % 256 == 0 && length tail == n + 1
    then some (record { address = high * 256 + low; kind = kind; content = take n tail })
    else none
fields [] = none
fields (n ∷ []) = none
fields (n ∷ high ∷ []) = none
fields (n ∷ high ∷ low ∷ []) = none

abbrev pub load_record : List ℕ → Option Loaded
load_record [] = none
load_record (c ∷ cs) = if c == 0x3A then (from_hex cs >>= fields) else none

-- pairs of digits for all the bytes
abbrev pairs : List ℕ → List ℕ
pairs [] = []
pairs (b ∷ bs) = hex2 b ++ pairs bs

hex_value-hex_digit : (d : ℕ) → d < 16 → hex_value (hex_digit d) ≡ some d
unfolding hex_digit
hex_value-hex_digit d lt = ground arith

from_hex-pairs : (bs : List ℕ) → All (λ b. b < 256) bs → from_hex (pairs bs) ≡ some bs
unfolding hex2
from_hex-pairs [] h = refl
from_hex-pairs (b ∷ bs) (lt, h) =
    let whole : b / 16 * 16 + b % 16 ≡ b = omega arith in
    rw (hex_value-hex_digit (b / 16) (omega arith))
      (rw (hex_value-hex_digit (b % 16) (omega arith)) (rw (from_hex-pairs bs h) (rw whole refl)))

pairs-append : (xs ys : List ℕ) → pairs (xs ++ ys) ≡ pairs xs ++ pairs ys
pairs-append [] ys = refl
pairs-append (x ∷ xs) ys =
    ap (λ t. hex2 x ++ t) (pairs-append xs ys) ∙ sym (append_assoc (hex2 x) (pairs xs) (pairs ys))

push_bytes-pairs : (line bs : List ℕ) → push_bytes line bs ≡ line ++ pairs bs
unfolding push_bytes
push_bytes-pairs line [] = sym (append-nil line)
push_bytes-pairs line (b ∷ bs) =
    push_bytes-pairs (line ++ hex2 b) bs ∙ append_assoc line (hex2 b) (pairs bs)

fold_u8-total : (sum : ℕ) (bs : List ℕ) → fold_u8 sum bs % 256 ≡ (sum + total bs) % 256
unfolding fold_u8
fold_u8-total sum [] = omega arith
fold_u8-total sum (b ∷ bs) = omega (arith, fold_u8-total ((sum + b) % 256) bs)

-- all the bytes of a record
abbrev record_bytes : (address kind : ℕ) → List ℕ → List ℕ
record_bytes address kind bytes =
    length bytes
    ∷ address / 256
    ∷ address % 256
    ∷ kind
    ∷ (bytes ++ (256 - checksum address kind bytes) % 256 ∷ [])

record_line-pairs :
    (address kind : ℕ) (bytes : List ℕ)
    → address < 0x1_0000
    → record_line address kind bytes ≡ 0x3A ∷ pairs (record_bytes address kind bytes)
unfolding record_line hex4 hex2
record_line-pairs address kind bytes lt =
    let ck = (256 - checksum address kind bytes) % 256 in
    let line = 0x3A ∷ hex2 (length bytes) ++ hex4 address ++ hex2 kind in
    let e1 : address / 4096 ≡ address / 256 / 16 = omega arith in
    let e2 : address / 16 % 16 ≡ address % 256 / 16 = omega arith in
    let e3 : address % 16 ≡ address % 256 % 16 = omega arith in
    rw (push_bytes-pairs line bytes)
      (rw (pairs-append bytes (ck ∷ [])) (rw e1 (rw e2 (rw e3 refl))))

total-append : (xs ys : List ℕ) → total (xs ++ ys) ≡ total xs + total ys
total-append [] ys = omega arith
total-append (x ∷ xs) ys = omega (arith, total-append xs ys)

-- The bytes of a record add up to 0.
total-record_bytes :
    (address kind : ℕ) (bytes : List ℕ)
    → address < 0x1_0000
    → total (record_bytes address kind bytes) % 256 ≡ 0
unfolding checksum
total-record_bytes address kind bytes lt = omega (
  arith,
  fold_u8-total 0 bytes,
  total-append bytes ((256 - checksum address kind bytes) % 256 ∷ []),
)

take-prefix : (xs ys : List ℕ) → take (length xs) (xs ++ ys) ≡ xs
take-prefix [] ys = refl
take-prefix (x ∷ xs) ys = ap (λ t. x ∷ t) (take-prefix xs ys)

-- A loader accepts a record that the code made and gets its address, its kind and its data back.
pub load_record-record_line :
    (address kind : ℕ) (bytes : List ℕ)
    → address < 0x1_0000
    → kind < 256
    → length bytes < 256
    → All (λ b. b < 256) bytes
    → load_record (record_line address kind bytes)
      ≡ some (record { address = address; kind = kind; content = bytes })
load_record-record_line address kind bytes lt k n small =
    let ck = (256 - checksum address kind bytes) % 256 in
    let all = record_bytes address kind bytes in
    let all_small : All (λ b. b < 256) all = (
      n,
      (
        omega arith,
        (omega arith, (k, All-append (λ b. b < 256) bytes (ck ∷ []) small (omega arith, tt))),
      ),
    ) in
    let sum : (total all % 256 == 0) ≡ true = rw (total-record_bytes address kind bytes lt) refl in
    let size : (length (bytes ++ ck ∷ []) == length bytes + 1) ≡ true =
      rw (length-append bytes (ck ∷ [])) (==_refl (length bytes + 1)) in
    let whole : address / 256 * 256 + address % 256 ≡ address = omega arith in
    rw (record_line-pairs address kind bytes lt) (
      rw (from_hex-pairs all all_small)
        (rw sum (rw size (rw (take-prefix bytes (ck ∷ [])) (rw whole refl)))))
