-- ===== src/Kermit/Port.antt =====
-- src/kermit.rs: reading from the serial port.
use rosco_cli.Prelude.{
  ℕ, zero, suc, ◌+◌, ◌-◌, ◌%◌, Bool, true, false, ◌&&◌, ◌==◌, ltb, if◌then◌else◌, List, [], ◌∷◌,
  length, take, drop, u32_mod,
}
use rosco_cli.Kermit.{soh, RxPacket, unchar, check_len, sum_u32, crc16_kermit, check_characters}

-- What one round of the loop in read_byte meets. `cancelled`: the flag, which stays set; `late`: the
-- deadline has passed; `quiet`: the port had nothing or timed out; `failed`: another error of the port.
-- Behind the end of a list the port stays quiet until each deadline has passed.
pub data Event : Type 0 where
  cancelled : Event
  late : Event
  quiet : Event
  failed : Event
  byte : ℕ → Event

pub data Error : Type 0 where
  transfer_cancelled : Error
  timed_out : Error
  could_not_read : Error
  could_not_write : Error
  too_small : Error
  check_mismatch : Error
  no_response : Error
  unexpected_reply : Error
  remote_error : List ℕ → Error
  exhausted : Error → Error
  name_too_long : ℕ → Error
  -- not an error of the code: the fuel of the loop over the data ran out
  stuck : Error

pub data Result {ℓ} (A : Type ℓ) : Type ℓ where
  ok : A → Result A
  err : Error → Result A

-- a computation that reads from the port
abbrev pub Reader {ℓ} : Type ℓ → Type ℓ
Reader A = List Event → Result A × List Event

abbrev pub pure {ℓ} : {A : Type ℓ} → A → Reader A
pure a es = (ok a, es)

abbrev pub fail {ℓ} : {A : Type ℓ} → Error → Reader A
fail e es = (err e, es)

unfoldable pub continue {ℓ κ} :
    {A : Type ℓ} {B : Type κ} → Result A × List Event → (A → Reader B) → Result B × List Event
continue (ok a, es) f = f a es
continue (err e, es) f = (err e, es)

-- the operator `?`
infixl 5 ◌>>=◌
abbrev pub ◌>>=◌ {ℓ κ} : {A : Type ℓ} {B : Type κ} → Reader A → (A → Reader B) → Reader B
(r >>= f) es = continue (r es) f

unfoldable pub read_byte : Reader ℕ
read_byte [] = (err timed_out, [])
read_byte (cancelled ∷ es) = (err transfer_cancelled, cancelled ∷ es)
read_byte (late ∷ es) = (err timed_out, es)
read_byte (quiet ∷ es) = read_byte es
read_byte (failed ∷ es) = (err could_not_read, es)
read_byte (byte b ∷ es) = (ok b, es)

-- `while read_byte(..)? != SOH {}`
unfoldable pub skip_to_soh : Reader (Unit {0})
skip_to_soh [] = (err timed_out, [])
skip_to_soh (cancelled ∷ es) = (err transfer_cancelled, cancelled ∷ es)
skip_to_soh (late ∷ es) = (err timed_out, es)
skip_to_soh (quiet ∷ es) = skip_to_soh es
skip_to_soh (failed ∷ es) = (err could_not_read, es)
skip_to_soh (byte b ∷ es) = let rest = skip_to_soh es in if b == soh then (ok tt, es) else rest

-- `while rest.len() < count`
unfoldable pub read_many : (count : ℕ) → Reader (List ℕ)
read_many zero = pure []
read_many (suc n) = do b ← read_byte; bs ← read_many n; pure (b ∷ bs)

unfoldable pub bytes_eq : List ℕ → List ℕ → Bool
bytes_eq [] [] = true
bytes_eq [] (y ∷ ys) = false
bytes_eq (x ∷ xs) [] = false
bytes_eq (x ∷ xs) (y ∷ ys) = x == y && bytes_eq xs ys

-- `body[0]`, `body[1]` and `body[2..]`; there are two bytes at least
unfoldable pub packet_of : List ℕ → RxPacket
packet_of [] = record { seq = 0; ptype = 0; content = [] }
packet_of (s ∷ []) = record { seq = unchar s; ptype = 0; content = [] }
packet_of (s ∷ t ∷ content) = record { seq = unchar s; ptype = t; content = content }

-- the block check over the length and what was read after it
unfoldable pub check_rest : (chkt len_char : ℕ) (rest : List ℕ) → Reader RxPacket
check_rest chkt len_char rest =
    let clen = check_len chkt in
    let body = take (length rest - clen) rest in
    let received_check = drop (length rest - clen) rest in
    let sum = (len_char + sum_u32 body) % u32_mod in
    let crc = crc16_kermit (len_char ∷ body) in
    if bytes_eq received_check (check_characters chkt sum crc)
    then pure (packet_of body)
    else fail check_mismatch

-- what follows the length
unfoldable pub read_rest : (chkt len_char : ℕ) → Reader RxPacket
read_rest chkt len_char =
    if ltb (unchar len_char) (2 + check_len chkt)
    then fail too_small
    else read_many (unchar len_char) >>= check_rest chkt len_char

unfoldable pub read_packet : (chkt : ℕ) → Reader RxPacket
read_packet chkt = do start ← skip_to_soh; len_char ← read_byte; read_rest chkt len_char
