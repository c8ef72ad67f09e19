-- ===== src/Gdb/Command.antt =====
-- m68k-stub.c: handle_exception, the commands of the debugger one by one. `faults` says at which
-- addresses a read or write ends in a bus error.
pub mod Laws
pub mod Exchange
use rosco_cli.Prelude.{
  ℕ, zero, suc, ◌+◌, ◌-◌, ◌*◌, ◌/◌, ◌%◌, Bool, true, false, ◌||◌, ◌&&◌, not, List, [], ◌∷◌, ◌++◌,
  Option, none, some, ◌==◌, ltb, if◌then◌else◌, ◌>>=◌, u32_mod, codes,
}
use rosco_cli.Memory.{Mem, poke, store}
use rosco_cli.Gdb.Hex.{hexchar, mem2hex, hex2mem, Number, hex_to_int}
use rosco_cli.Gdb.Packet.{Packet, getpacket, putpacket, bufmax}
use rosco_cli.Gdb.Signal.{compute_signal}
use rosco_cli.Gdb.State.{
  Stub, Handler, catch_exception, handle_buserror, exception_handler, numregbytes,
}
use rosco_cli.Gdb.Frames.{Layout, Hook, resume}

-- more than any reply has characters, since a count of bytes is below 2^31
abbrev pub text_fuel : ℕ
text_fuel = 0x2_0000_0000

-- an `int` as a count of rounds: a negative one makes none
abbrev pub rounds : ℕ → ℕ
rounds n = if ltb n 0x8000_0000 then n else 0

-- how many bytes from `addr` on, at most `n`, are touched before a bus error
unfoldable pub reachable : (ℕ → Bool) → (addr n : ℕ) → ℕ
reachable faults addr zero = 0
reachable faults addr (suc n) =
    let rest = reachable faults (addr + 1) n in if faults addr then 0 else suc rest

-- strcpy(remcomOutBuffer, text), and the assignments that do the same
abbrev pub reply : List ℕ → Stub → Stub
reply text s = record s { out_buffer = store s.out_buffer 0 text }

-- `%x,%x` at `ptr`: the address, the length and the pointer behind
unfoldable pub parse_range : Mem → ℕ → Option (ℕ × ℕ × ℕ)
parse_range m ptr = do
  a ← hex_to_int bufmax m ptr
  if a.num_chars == 0 || not (m a.ptr == b',') then none else do
    n ← hex_to_int bufmax m (a.ptr + 1)
    if n.num_chars == 0 then none else some (a.value, n.value, n.ptr)

-- what mem2hex has written when a bus error ends it: the digits of `n` bytes, and no null byte behind them
abbrev pub interrupted : (src : Mem) (mem : ℕ) (dst : Mem) (buf n : ℕ) → Mem
interrupted src mem dst buf n = poke (mem2hex src mem dst buf n).0 (buf + 2 * n) (dst (buf + 2 * n))

-- `m` behind its setjmp: a bus error leads to E03
unfoldable pub read_range : (ℕ → Bool) → Option (ℕ × ℕ × ℕ) → Stub → Stub
read_range faults none s = reply (codes "E01") s
read_range faults (some (addr, len, end)) s =
    let n = reachable faults addr (rounds len) in
    let part = interrupted s.memory addr s.out_buffer 0 n in
    if n == rounds len
    then record s { out_buffer = (mem2hex s.memory addr s.out_buffer 0 (rounds len)).0 }
    else reply (codes "E03") (exception_handler 2 catch_exception (record s { out_buffer = part }))

unfoldable pub read_memory : (ℕ → Bool) → ℕ → Stub → Stub
read_memory faults ptr s =
    exception_handler 2 catch_exception
      (read_range faults (parse_range s.in_buffer ptr) (exception_handler 2 handle_buserror s))

-- `M` behind its setjmp: what was written before a bus error stays
unfoldable pub write_range : (ℕ → Bool) → Option (ℕ × ℕ × ℕ) → Stub → Stub
write_range faults none s = reply (codes "E02") s
write_range faults (some (addr, len, end)) s =
    let n = reachable faults addr (rounds len) in
    let written = (hex2mem s.in_buffer (end + 1) s.memory addr n).0 in
    if not (s.in_buffer end == b':')
    then reply (codes "E02") s
    else if n == rounds len
    then reply (codes "OK") (record s { memory = written })
    else reply (codes "E03") (exception_handler 2 catch_exception (record s { memory = written }))

unfoldable pub write_memory : (ℕ → Bool) → ℕ → Stub → Stub
write_memory faults ptr s =
    exception_handler 2 catch_exception
      (write_range faults (parse_range s.in_buffer ptr) (exception_handler 2 handle_buserror s))

-- How a command ends: with a reply, with the program running again (in supervisor mode or not), with
-- an abort, or, `stuck`, out of fuel.
pub data Outcome : Type 0 where
  answer : Stub → Outcome
  running : Stub → Bool → Outcome
  killed : Stub → Outcome
  stuck : Outcome

abbrev signal_text : ℕ → List ℕ
signal_text sigval = b'S' ∷ hexchar (sigval / 16) ∷ hexchar (sigval % 16) ∷ []

unfoldable pub go_on : ℕ → Layout → Hook → Bool → ℕ → Stub → Outcome
go_on f l hook stepping ptr s =
    let addr : Option ℕ = elim (hex_to_int bufmax s.in_buffer ptr) [
      | none ↦ none
      | some a ↦ if a.num_chars == 0 then none else some a.value
    ] in
    elim (resume f l hook stepping addr s) [ none ↦ stuck | some (s', super) ↦ running s' super ]

-- the `switch` on the first character of the packet, with `ptr` behind it
unfoldable pub command : ℕ → Layout → Hook → (ℕ → Bool) → ℕ → ℕ → ℕ → Stub → Outcome
command f l hook faults sigval thec ptr s =
    if thec == b'?'
    then answer (reply (signal_text sigval) s)
    else if thec == b'd'
    then answer (record s { remote_debug = not s.remote_debug })
    else if thec == b'g'
    then answer (record s { out_buffer = (mem2hex s.registers 0 s.out_buffer 0 numregbytes).0 })
    else if thec == b'G'
    then answer (
        reply (codes "OK")
          (record s { registers = (hex2mem s.in_buffer ptr s.registers 0 numregbytes).0 }))
    else if thec == b'm'
    then answer (read_memory faults ptr s)
    else if thec == b'M'
    then answer (write_memory faults ptr s)
    else if thec == b's'
    then go_on f l hook true ptr s
    else if thec == b'c'
    then go_on f l hook false ptr s
    else if thec == b'k'
    then killed s
    else answer s

-- The line: what has been sent, and what is still to come.
pub record Line : Type 0 where
  pub sent : List ℕ
  pub input : List ℕ

-- the reply to the request, and the next round; any other outcome ends the loop
unfoldable pub finish_round :
    (Stub → Line → Option (Outcome × Line)) → Line → Outcome → Option (Outcome × Line)
finish_round next line (answer s) = do
  r ← putpacket text_fuel s.out_buffer 0 line.input
  next s (record { sent = line.sent ++ r.0; input = r.1 })
finish_round next line (running s super) = some (running s super, line)
finish_round next line (killed s) = some (killed s, line)
finish_round next line stuck = some (stuck, line)

-- the state behind getpacket, whose reply buffer was emptied before
abbrev pub received : Packet → Stub → Stub
received p s = record (reply [] s) { in_buffer = p.buffer }

-- `while (1 == 1)`, for at most `f` packets; `none` while the stub waits for a byte or when the fuel is out
unfoldable pub serve : ℕ → Layout → Hook → (ℕ → Bool) → ℕ → Stub → Line → Option (Outcome × Line)
serve zero l hook faults sigval s line = none
serve (suc f) l hook faults sigval s line = do
  p ← getpacket s.in_buffer line.input
  finish_round (serve f l hook faults sigval)
      (record { sent = line.sent ++ p.sent; input = p.rest })
      (command f l hook faults sigval (p.buffer p.ptr) (p.ptr + 1) (received p s))

unfoldable pub handle_exception :
    ℕ → Layout → Hook → (ℕ → Bool) → ℕ → Stub → Line → Option (Outcome × Line)
handle_exception f l hook faults vector s line =
    let sigval = compute_signal vector in
    let s1 = reply (signal_text sigval) s in
    do
      r ← putpacket text_fuel s1.out_buffer 0 line.input
      serve f l hook faults sigval s1 (record { sent = line.sent ++ r.0; input = r.1 })
