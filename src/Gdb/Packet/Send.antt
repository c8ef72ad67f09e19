-- ===== src/Gdb/Packet/Send.antt =====
-- m68k-stub.c: what putpacket sends, and that getpacket at the other end takes it.
use rosco_cli.Prelude.{
  ℕ, zero, suc, ◌+◌, ◌%◌, ◌<◌, ◌≤◌, ◌≡◌, ◌≢◌, List, [], ◌∷◌, ◌++◌, arith, length, some, All,
  append-nil,
}
use rosco_cli.Memory.{Mem, IsStr, store}
use rosco_cli.Gdb.Packet.{getpacket, send_loop, send_frame, send_until, putpacket}
use rosco_cli.Gdb.Packet.Receive.{sum, IsPlain, frame_of, getpacket-frame}

send_loop-text :
    (f : ℕ) (buffer : Mem) (p k : ℕ) (s : List ℕ)
    → IsStr buffer p s
    → length s < f
    → k < 256
    → send_loop f buffer p k ≡ some (s, (k + sum s) % 256)
unfolding send_loop
send_loop-text zero buffer p k s h lt small = absurd (omega arith)
send_loop-text (suc f) buffer p k [] h lt small = ground arith
send_loop-text (suc f) buffer p k (c ∷ s) (e, ne, h) lt small =
    ground (
      arith,
      send_loop-text f buffer (p + 1) ((k + buffer p) % 256) s h (omega arith) (omega arith),
    )

send_frame-frame_of :
    (f : ℕ) (buffer : Mem) (p : ℕ) (s : List ℕ)
    → IsStr buffer p s
    → length s < f
    → send_frame f buffer p ≡ some (frame_of s)
unfolding send_frame
send_frame-frame_of f buffer p s h lt =
    let e : 0 + sum s ≡ sum s = omega arith in
    rw (send_loop-text f buffer p 0 s h lt (omega arith), e)

-- the frame once for each reply that is no `+`, and once more
abbrev pub resent : List ℕ → List ℕ → List ℕ
resent frame [] = frame
resent frame (c ∷ replies) = frame ++ resent frame replies

send_until-resent :
    (frame replies rest : List ℕ)
    → All (λ c. c ≢ b'+') replies
    → send_until frame (replies ++ b'+' ∷ rest) ≡ some (resent frame replies, rest)
unfolding send_until
send_until-resent frame [] rest h = ground arith
send_until-resent frame (c ∷ replies) rest (ne, h) =
    ground (arith, send_until-resent frame replies rest h)

-- putpacket sends the framed text of its buffer once, and again for each reply before the first `+`; it reads no further. The fuel is above the length of the text.
pub putpacket-resent :
    (f : ℕ) (buffer : Mem) (p : ℕ) (s replies rest : List ℕ)
    → IsStr buffer p s
    → length s < f
    → All (λ c. c ≢ b'+') replies
    → putpacket f buffer p (replies ++ b'+' ∷ rest) ≡ some (resent (frame_of s) replies, rest)
unfolding putpacket
putpacket-resent f buffer p s replies rest h lt no_ack =
    rw (send_frame-frame_of f buffer p s h lt) (send_until-resent (frame_of s) replies rest no_ack)

-- What putpacket sends when it is acknowledged at once is a packet that getpacket takes: the same text in its buffer, and `+` as its reply. The text has at most 398 characters, none of which is `$`, `#` or null, the fuel is above its length, and the receiver's buffer with the text in it has no colon at the third place.
pub getpacket-putpacket :
    (f : ℕ) (buffer : Mem) (p : ℕ) (far : Mem) (s rest : List ℕ)
    → IsStr buffer p s
    → length s < f
    → length s ≤ 398
    → All IsPlain s
    → store far 0 s 2 ≢ b':'
    → (out : List ℕ) × (putpacket f buffer p (b'+' ∷ rest) ≡ some (out, rest))
      × (getpacket far out
          ≡ some (record { buffer = store far 0 s; ptr = 0; sent = b'+' ∷ []; rest = [] }))
      × IsStr (store far 0 s) 0 s
getpacket-putpacket f buffer p far s rest h lt fits plain colon =
    let (taken, text) = getpacket-frame far [] s [] tt plain fits colon in
    (
      frame_of s,
      putpacket-resent f buffer p s [] rest h lt tt,
      rw (append-nil (frame_of s)) at taken,
      text,
    )
