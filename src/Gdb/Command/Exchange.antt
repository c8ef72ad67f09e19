-- ===== src/Gdb/Command/Exchange.antt =====
-- m68k-stub.c: a whole request and its reply, from the bytes that arrive to the bytes that are sent.
use rosco_cli.Prelude.{
  if◌then◌else◌, ◌==◌, codes, Bool-cases, inl, inr, ℕ, suc, ◌+◌, ◌*◌, ◌<◌, ◌≤◌, ◌≡◌, ◌≢◌, refl,
  List, [], ◌∷◌, ◌++◌, arith, length, Bool, false, some, ◌∙◌, All, All-append, pos, sym,
  length-append,
}
use rosco_cli.Memory.{Mem, Holds, store, store-frame, poke, poke_self}
use rosco_cli.Gdb.Hex.{hex, hexchar}
use rosco_cli.Gdb.Hex.Laws.{SpellsHex, hex_text}
use rosco_cli.Gdb.Packet.{Packet, getpacket, putpacket}
use rosco_cli.Gdb.Packet.Receive.{IsPlain, frame_of, getpacket-frame}
use rosco_cli.Gdb.Packet.Send.{putpacket-resent}
use rosco_cli.Gdb.State.{Stub}
use rosco_cli.Gdb.Frames.{Layout, Hook}
use rosco_cli.Gdb.Command.{
  text_fuel, reachable, write_memory, read_memory, command, answer, Line, received, finish_round,
  serve,
}
use rosco_cli.Gdb.Command.Laws.{WriteResult, write_memory-WriteResult, IsHex, read_memory-hex_text}

-- A character of a request: plain, and no colon.
abbrev IsWord : ℕ → Type 0
IsWord c = IsPlain c × (c ≢ b':')

hex-IsWord : (c d : ℕ) → hex c ≡ pos d → IsWord c
unfolding hex
hex-IsWord c d h = ((ground arith, ground arith, ground arith), ground arith)

SpellsHex-IsWord : (cs ds : List ℕ) → SpellsHex cs ds → All IsWord cs
SpellsHex-IsWord [] [] h = tt
SpellsHex-IsWord [] (d ∷ ds) h = elim h [ ]
SpellsHex-IsWord (c ∷ cs) [] h = elim h [ ]
SpellsHex-IsWord (c ∷ cs) (d ∷ ds) (e, h) = (hex-IsWord c d e, SpellsHex-IsWord cs ds h)

IsWord-IsPlain : (s : List ℕ) → All IsWord s → All IsPlain s
IsWord-IsPlain [] h = tt
IsWord-IsPlain (c ∷ s) (w, h) = (w.0, IsWord-IsPlain s h)

comma-IsWord : IsWord b','
comma-IsWord = ((omega arith, omega arith, omega arith), omega arith)

-- the third byte of a stored text of three characters or more
third-ne_colon :
    (buffer : Mem) (a b c : ℕ) (s : List ℕ) → c ≢ b':' → store buffer 0 (a ∷ b ∷ c ∷ s) 2 ≢ b':'
third-ne_colon buffer a b c s ne e =
    let b3 = poke (poke buffer 0 a) 1 b in
    ne (sym (poke_self b3 2 c) ∙ sym (store-frame (poke b3 2 c) 3 s 2 (omega arith)) ∙ e)

request_third :
    (buffer : Mem) (t : ℕ) (acs tail : List ℕ)
    → 0 < length acs
    → All IsWord acs
    → store buffer 0 (t ∷ (acs ++ b',' ∷ tail)) 2 ≢ b':'
request_third buffer t [] tail some_digit words = absurd (omega arith)
request_third buffer t (c ∷ []) tail some_digit words =
    third-ne_colon buffer t c b',' tail (omega arith)
request_third buffer t (c ∷ d ∷ acs) tail some_digit (w, (w', words)) =
    third-ne_colon buffer t c d (acs ++ b',' ∷ tail) w'.1

length-hex_text : (bs : List ℕ) → length (hex_text bs) ≡ 2 * length bs
length-hex_text [] = omega arith
length-hex_text (b ∷ bs) = omega (arith, length-hex_text bs)

-- one round of the loop, when the packet, the command and the reply are known
serve-round :
    (f : ℕ) (l : Layout) (hook : Hook) (faults : ℕ → Bool) (sigval : ℕ) (s s' : Stub) (line : Line)
    (p : Packet) (out rest : List ℕ)
    → getpacket s.in_buffer line.input ≡ some p
    → command f l hook faults sigval (p.buffer p.ptr) (p.ptr + 1) (received p s) ≡ answer s'
    → putpacket text_fuel s'.out_buffer 0 p.rest ≡ some (out, rest)
    → serve (suc f) l hook faults sigval s line
      ≡ serve f l hook faults sigval s'
          (record { sent = (line.sent ++ p.sent) ++ out; input = rest })
unfolding serve finish_round
serve-round f l hook faults sigval s s' line p out rest got done put = rw (got, done, put)

command-read :
    (f : ℕ) (l : Layout) (hook : Hook) (faults : ℕ → Bool) (sigval thec ptr : ℕ) (s : Stub)
    → thec ≡ b'm'
    → command f l hook faults sigval thec ptr s ≡ answer (read_memory faults ptr s)
unfolding command
command-read f l hook faults sigval thec ptr s e = rw e

-- When the packet for `m` with an address and a length arrives, and then `+`, the stub sends `+` and the packet with the bytes at that address in hex, and waits for the next packet with its memory as before. No byte there faults, and the request and the reply fit their buffers of 400 bytes.
pub serve_read :
    (f : ℕ) (l : Layout) (hook : Hook) (faults : ℕ → Bool) (sigval : ℕ) (s : Stub)
    (sent rest acs ncs bs : List ℕ) (addr : ℕ)
    → IsHex acs addr
    → IsHex ncs (length bs)
    → length (b'm' ∷ (acs ++ b',' ∷ ncs)) ≤ 398
    → length bs < 200
    → Holds s.memory addr bs
    → ((x : ℕ) → addr ≤ x → x < addr + length bs → faults x ≡ false)
    → (s' : Stub) × (s'.memory ≡ s.memory)
      × (serve
            (suc f)
            l
            hook
            faults
            sigval
            s
            (record { sent = sent; input = frame_of (b'm' ∷ (acs ++ b',' ∷ ncs)) ++ b'+' ∷ rest })
          ≡ serve f l hook faults sigval s'
              (record { sent = (sent ++ b'+' ∷ []) ++ frame_of (hex_text bs); input = rest }))
serve_read f l hook faults sigval s sent rest acs ncs bs addr a n fits small held ok =
    let text = b'm' ∷ (acs ++ b',' ∷ ncs) in
    let words = SpellsHex-IsWord acs a.digits a.spelled in
    let plain : All IsPlain text = (
      (omega arith, omega arith, omega arith),
      All-append IsPlain acs (b',' ∷ ncs) (IsWord-IsPlain acs words)
          (comma-IsWord.0, IsWord-IsPlain ncs (SpellsHex-IsWord ncs n.digits n.spelled)),
    ) in
    let (taken, (first, _, body)) =
      getpacket-frame s.in_buffer [] text (b'+' ∷ rest) tt plain fits
        (request_third s.in_buffer b'm' acs ncs a.some_digit words) in
    let p : Packet = record {
      buffer = store s.in_buffer 0 text;
      ptr = 0;
      sent = b'+' ∷ [];
      rest = b'+' ∷ rest;
    } in
    let s1 = received p s in
    let (reply, kept) =
      read_memory-hex_text faults (0 + 1) s1 acs ncs bs addr (length bs) body a n (omega arith) refl
        held ok in
    let s' = read_memory faults (0 + 1) s1 in
    let put =
      putpacket-resent text_fuel s'.out_buffer 0 (hex_text bs) [] rest reply
        (omega (arith, length-hex_text bs)) tt in
    (
      s',
      kept,
      serve-round f l hook faults sigval s s'
          (record { sent = sent; input = frame_of text ++ b'+' ∷ rest }) p (frame_of (hex_text bs))
          rest taken (command-read f l hook faults sigval (p.buffer p.ptr) (0 + 1) s1 first) put,
    )

hex_text-IsPlain : (bs : List ℕ) → All (λ b. b < 256) bs → All IsPlain (hex_text bs)
unfolding hexchar
hex_text-IsPlain [] h = tt
hex_text-IsPlain (b ∷ bs) (hb, h) = (
  (ground arith, ground arith, ground arith),
  ((ground arith, ground arith, ground arith), hex_text-IsPlain bs h),
)

command-write :
    (f : ℕ) (l : Layout) (hook : Hook) (faults : ℕ → Bool) (sigval thec ptr : ℕ) (s : Stub)
    → thec ≡ b'M'
    → command f l hook faults sigval thec ptr s ≡ answer (write_memory faults ptr s)
unfolding command
command-write f l hook faults sigval thec ptr s e = rw e

-- the answer to `M`
abbrev pub verdict : (ℕ → Bool) → ℕ → List ℕ → List ℕ
verdict faults addr bs =
    if reachable faults addr (length bs) == length bs then codes "OK" else codes "E03"

length-verdict :
    (faults : ℕ → Bool) (addr : ℕ) (bs : List ℕ) → length (verdict faults addr bs) < text_fuel
length-verdict faults addr bs = elim (Bool-cases (reachable faults addr (length bs) == length bs)) [
  | inl all ↦ rw all (omega arith)
  | inr part ↦ rw part (omega arith)
]

-- When the packet for `M` with an address, a length and that many bytes in hex arrives, and then `+`, the stub writes the bytes before the first one that faults and no other, and sends `+` and the packet with its answer, OK if none faults and E03 otherwise. The request fits the buffer.
pub serve_write :
    (f : ℕ) (l : Layout) (hook : Hook) (faults : ℕ → Bool) (sigval : ℕ) (s : Stub)
    (sent rest acs ncs bs : List ℕ) (addr : ℕ)
    → IsHex acs addr
    → IsHex ncs (length bs)
    → length (b'M' ∷ (acs ++ b',' ∷ (ncs ++ b':' ∷ hex_text bs))) ≤ 398
    → All (λ b. b < 256) bs
    → (s' : Stub) × WriteResult faults s s' addr bs
      × (serve (suc f) l hook faults sigval s (record {
        sent = sent;
        input = frame_of (b'M' ∷ (acs ++ b',' ∷ (ncs ++ b':' ∷ hex_text bs))) ++ b'+' ∷ rest;
      })
          ≡ serve f l hook faults sigval s' (record {
            sent = (sent ++ b'+' ∷ []) ++ frame_of (verdict faults addr bs);
            input = rest;
          }))
serve_write f l hook faults sigval s sent rest acs ncs bs addr a n fits bytes =
    let tail = ncs ++ b':' ∷ hex_text bs in
    let text = b'M' ∷ (acs ++ b',' ∷ tail) in
    let size1 = length-append acs (b',' ∷ tail) in
    let size2 = length-append ncs (b':' ∷ hex_text bs) in
    let size3 = length-hex_text bs in
    let words = SpellsHex-IsWord acs a.digits a.spelled in
    let colon : IsPlain b':' = (omega arith, omega arith, omega arith) in
    let plain : All IsPlain text = (
      (omega arith, omega arith, omega arith),
      All-append IsPlain acs (b',' ∷ tail) (IsWord-IsPlain acs words) (
        comma-IsWord.0,
        All-append IsPlain ncs (b':' ∷ hex_text bs)
            (IsWord-IsPlain ncs (SpellsHex-IsWord ncs n.digits n.spelled))
            (colon, hex_text-IsPlain bs bytes),
      ),
    ) in
    let (taken, (first, _, body)) =
      getpacket-frame s.in_buffer [] text (b'+' ∷ rest) tt plain fits
        (request_third s.in_buffer b'M' acs tail a.some_digit words) in
    let p : Packet = record {
      buffer = store s.in_buffer 0 text;
      ptr = 0;
      sent = b'+' ∷ [];
      rest = b'+' ∷ rest;
    } in
    let s1 = received p s in
    let s' = write_memory faults (0 + 1) s1 in
    let r =
      write_memory-WriteResult faults (0 + 1) s1 acs ncs bs addr body a n bytes (omega arith) in
    let put =
      putpacket-resent text_fuel s'.out_buffer 0 (verdict faults addr bs) [] rest r.answer
        (length-verdict faults addr bs) tt in
    (
      s',
      record { answer = r.answer; written = r.written; frame = r.frame },
      serve-round f l hook faults sigval s s'
          (record { sent = sent; input = frame_of text ++ b'+' ∷ rest }) p
          (frame_of (verdict faults addr bs)) rest taken
          (command-write f l hook faults sigval (p.buffer p.ptr) (0 + 1) s1 first) put,
    )
