-- ===== src/Gdb/Packet.antt =====
-- m68k-stub.c: getpacket and putpacket. What arrives on the line is a list of bytes, and so is what is sent;
-- `none` means that the stub waits for a byte that has not come.
pub mod Receive
pub mod Send
use rosco_cli.Prelude.{
  ℕ, zero, suc, ◌+◌, ◌-◌, ◌*◌, ◌/◌, ◌%◌, List, [], ◌∷◌, ◌++◌, Option, none, some, ◌==◌,
  if◌then◌else◌, ◌>>=◌,
}
use rosco_cli.Memory.{Mem, poke}
use rosco_cli.Gdb.Hex.{hexchar, hex, low_byte}

abbrev pub bufmax : ℕ
bufmax = 400

-- Where getpacket stands when it reads a byte.
pub data Mode : Type 0 where
  -- `while ((ch = getDebugChar()) != '$')`
  hunt : Mode
  -- between the start character and `#`: checksum and count
  body : ℕ → ℕ → Mode
  -- before the first digit of the checksum
  check_high : ℕ → Mode
  -- before the second digit: checksum and `xmitcsum`
  check_low : ℕ → ℕ → Mode

-- What a byte leads to: the new state of the loop, or the pointer that is returned.
pub data Step : Type 0 where
  continue : Mode → Mem → List ℕ → Step
  accept : Mem → ℕ → List ℕ → Step

-- the replies to a packet whose checksum is right
unfoldable pub acknowledge : Mem → List ℕ → Step
acknowledge buffer sent =
    if buffer 2 == b':'
    then accept buffer 3 (sent ++ b'+' ∷ buffer 0 ∷ buffer 1 ∷ [])
    else accept buffer 0 (sent ++ b'+' ∷ [])

unfoldable pub receive_byte : Mode → Mem → List ℕ → ℕ → Step
receive_byte hunt buffer sent ch = continue (if ch == b'$' then body 0 0 else hunt) buffer sent
receive_byte (body checksum count) buffer sent ch =
    if ch == b'$'
    then continue (body 0 0) buffer sent
    else if ch == b'#'
    then continue (check_high checksum) (poke buffer count 0) sent
    else if count + 1 == bufmax - 1
    then continue hunt (poke (poke buffer count ch) (count + 1) 0) sent
    else continue (body ((checksum + ch) % 256) (count + 1)) (poke buffer count ch) sent
receive_byte (check_high checksum) buffer sent ch =
    continue (check_low checksum (low_byte (hex ch) * 16 % 256)) buffer sent
receive_byte (check_low checksum xmitcsum) buffer sent ch =
    if checksum == (xmitcsum + low_byte (hex ch)) % 256
    then acknowledge buffer sent
    else continue hunt buffer (sent ++ b'-' ∷ [])

pub record Packet : Type 0 where
  pub buffer : Mem
  pub ptr : ℕ
  pub sent : List ℕ
  -- bytes that have come and were not read
  pub rest : List ℕ

unfoldable pub receive : Mode → Mem → List ℕ → List ℕ → Option Packet
receive mode buffer sent [] = none
receive mode buffer sent (ch ∷ input) = elim (receive_byte mode buffer sent ch) [
  | continue mode' buffer' sent' ↦ receive mode' buffer' sent' input
  | accept buffer' ptr sent' ↦
      some (record { buffer = buffer'; ptr = ptr; sent = sent'; rest = input })
]

unfoldable pub getpacket : Mem → List ℕ → Option Packet
getpacket buffer input = receive hunt buffer [] input

-- `while ((ch = buffer[count])) …`: the bytes sent and the checksum
unfoldable pub send_loop : ℕ → Mem → (count checksum : ℕ) → Option (List ℕ × ℕ)
send_loop zero buffer count checksum = none
send_loop (suc f) buffer count checksum =
    let ch = buffer count in
    let rest = send_loop f buffer (count + 1) ((checksum + ch) % 256) in
    if ch == 0 then some ([], checksum) else do r ← rest; some (ch ∷ r.0, r.1)

-- one round of putpacket, up to its read
unfoldable pub send_frame : ℕ → Mem → ℕ → Option (List ℕ)
send_frame f buffer p = do
  r ← send_loop f buffer p 0
  some (b'$' ∷ (r.0 ++ b'#' ∷ hexchar (r.1 / 16) ∷ hexchar (r.1 % 16) ∷ []))

-- `do … while (getDebugChar() != '+')`: what is sent, and what is left to read
unfoldable pub send_until : List ℕ → List ℕ → Option (List ℕ × List ℕ)
send_until frame [] = none
send_until frame (ch ∷ input) =
    let rest = send_until frame input in
    if ch == b'+' then some (frame, input) else do r ← rest; some (frame ++ r.0, r.1)

unfoldable pub putpacket : ℕ → Mem → ℕ → List ℕ → Option (List ℕ × List ℕ)
putpacket f buffer p input = do frame ← send_frame f buffer p; send_until frame input
