-- ===== src/Gdb/Packet/Receive.antt =====
-- m68k-stub.c: what getpacket makes of a packet, whole or broken.
use rosco_cli.Prelude.{
  ℕ, ◌+◌, ◌/◌, ◌%◌, ◌<◌, ◌≤◌, ◌≡◌, ◌≢◌, refl, List, [], ◌∷◌, ◌++◌, arith, length, some, ◌==◌,
  if◌then◌else◌, ◌∙◌, ap, All, append_assoc,
}
use rosco_cli.Memory.{Mem, poke, IsStr, store, store-IsStr}
use rosco_cli.Gdb.Hex.{hexchar, hex_byte}
use rosco_cli.Gdb.Hex.Laws.{hex_byte-hexchar}
use rosco_cli.Gdb.Packet.{
  hunt, body, check_high, continue, accept, acknowledge, receive_byte, receive, getpacket,
}

-- the sum of the bytes
abbrev pub sum : List ℕ → ℕ
sum [] = 0
sum (c ∷ s) = c + sum s

-- A byte that may stand between `$` and `#`.
abbrev pub IsPlain : ℕ → Type 0
IsPlain c = (c ≢ b'$') × (c ≢ b'#') × (c ≢ 0)

-- the packet `s` with the checksum digits `hi` and `lo`
abbrev pub frame_with : ℕ → ℕ → List ℕ → List ℕ
frame_with hi lo s = b'$' ∷ (s ++ b'#' ∷ hi ∷ lo ∷ [])

abbrev pub frame_of : List ℕ → List ℕ
frame_of s = frame_with (hexchar (sum s % 256 / 16)) (hexchar (sum s % 256 % 16)) s

IsPlain-ne_null : (s : List ℕ) → All IsPlain s → All (λ c. c ≢ 0) s
IsPlain-ne_null [] h = tt
IsPlain-ne_null (c ∷ s) ((d, e, z), h) = (z, IsPlain-ne_null s h)

receive-body :
    (k n : ℕ) (buffer : Mem) (sent s rest : List ℕ)
    → All IsPlain s
    → n + length s ≤ 398
    → k < 256
    → receive (body k n) buffer sent (s ++ b'#' ∷ rest)
      ≡ receive (check_high ((k + sum s) % 256)) (store buffer n s) sent rest
unfolding receive receive_byte
receive-body k n buffer sent [] rest h lt small = ground arith
receive-body k n buffer sent (c ∷ s) rest ((d, e, z), h) lt small =
    let ih =
      receive-body ((k + c) % 256) (n + 1) (poke buffer n c) sent s rest h (omega arith)
        (omega arith) in
    ground (arith, ih)

receive-hunt :
    (buffer : Mem) (sent junk rest : List ℕ)
    → All (λ c. c ≢ b'$') junk
    → receive hunt buffer sent (junk ++ rest) ≡ receive hunt buffer sent rest
unfolding receive receive_byte
receive-hunt buffer sent [] rest h = refl
receive-hunt buffer sent (c ∷ junk) rest (ne, h) =
    ground (arith, receive-hunt buffer sent junk rest h)

-- the test of the two digits
receive-check :
    (k hi lo : ℕ) (buffer : Mem) (sent rest : List ℕ)
    → receive (check_high k) buffer sent (hi ∷ lo ∷ rest) ≡ (
        if k == hex_byte hi lo
        then elim (acknowledge buffer sent) [
          | continue mode' buffer' sent' ↦ receive mode' buffer' sent' rest
          | accept buffer' ptr sent' ↦
              some (record { buffer = buffer'; ptr = ptr; sent = sent'; rest = rest })
        ]
        else receive hunt buffer (sent ++ b'-' ∷ []) rest)
unfolding receive receive_byte hex_byte
receive-check k hi lo buffer sent rest = ground arith

-- Everything up to the checksum of a packet that starts behind junk.
receive_frame :
    (buffer : Mem) (sent junk s rest : List ℕ) (hi lo : ℕ)
    → All (λ c. c ≢ b'$') junk
    → All IsPlain s
    → length s ≤ 398
    → receive hunt buffer sent (junk ++ (frame_with hi lo s ++ rest))
      ≡ receive (check_high (sum s % 256)) (store buffer 0 s) sent (hi ∷ lo ∷ rest)
unfolding receive receive_byte
receive_frame buffer sent junk s rest hi lo hj hs lt =
    receive-hunt buffer sent junk (frame_with hi lo s ++ rest) hj
    ∙ ap (λ l. receive (body 0 0) buffer sent l) (append_assoc s (b'#' ∷ hi ∷ lo ∷ []) rest)
    ∙ receive-body 0 0 buffer sent s (hi ∷ lo ∷ rest) hs (omega arith) (omega arith)
    ∙ ap (λ k. receive (check_high (k % 256)) (store buffer 0 s) sent (hi ∷ lo ∷ rest))
        (zero_plus (sum s))
  where
    zero_plus : (n : ℕ) → 0 + n ≡ n
    zero_plus n = omega arith

-- A packet of at most 398 plain bytes behind junk without a start character is taken with its text in the buffer and answered by `+`, if its checksum is right and the third byte of the buffer then is no colon.
pub getpacket-frame :
    (buffer : Mem) (junk s rest : List ℕ)
    → All (λ c. c ≢ b'$') junk
    → All IsPlain s
    → length s ≤ 398
    → store buffer 0 s 2 ≢ b':'
    → (getpacket buffer (junk ++ (frame_of s ++ rest))
        ≡ some (record { buffer = store buffer 0 s; ptr = 0; sent = b'+' ∷ []; rest = rest }))
      × IsStr (store buffer 0 s) 0 s
unfolding getpacket acknowledge
getpacket-frame buffer junk s rest hj hs lt plain =
    let k = sum s % 256 in
    let digits : hex_byte (hexchar (k / 16)) (hexchar (k % 16)) ≡ k =
      hex_byte-hexchar k (omega arith) in
    (
      receive_frame buffer [] junk s rest (hexchar (k / 16)) (hexchar (k % 16)) hj hs lt
          ∙ receive-check k (hexchar (k / 16)) (hexchar (k % 16)) (store buffer 0 s) [] rest
          ∙ ground arith,
      store-IsStr buffer 0 s (IsPlain-ne_null s hs),
    )

-- A packet of at most 398 characters, none of which is `$`, `#` or null, whose digits do not name its checksum is answered by `-`, and the stub waits for the next start character with the text in its buffer.
pub getpacket_refuses :
    (buffer : Mem) (junk s rest : List ℕ) (hi lo : ℕ)
    → All (λ c. c ≢ b'$') junk
    → All IsPlain s
    → length s ≤ 398
    → hex_byte hi lo ≢ sum s % 256
    → getpacket buffer (junk ++ (frame_with hi lo s ++ rest))
      ≡ receive hunt (store buffer 0 s) (b'-' ∷ []) rest
unfolding getpacket
getpacket_refuses buffer junk s rest hi lo hj hs lt bad =
    receive_frame buffer [] junk s rest hi lo hj hs lt
    ∙ receive-check (sum s % 256) hi lo (store buffer 0 s) [] rest
    ∙ ground arith

-- A packet of one byte is taken for one with a sequence number if an earlier packet left a colon at the third place: the pointer then is behind the packet.
pub getpacket_stale :
    (buffer : Mem) (c : ℕ) (rest : List ℕ)
    → IsPlain c
    → buffer 2 ≡ b':'
    → getpacket buffer (frame_of (c ∷ []) ++ rest)
      ≡ some (record {
        buffer = store buffer 0 (c ∷ []);
        ptr = 3;
        sent = b'+' ∷ c ∷ 0 ∷ [];
        rest = rest;
      })
unfolding getpacket acknowledge poke
getpacket_stale buffer c rest hc colon =
    let s = c ∷ [] in
    let k = sum s % 256 in
    let digits : hex_byte (hexchar (k / 16)) (hexchar (k % 16)) ≡ k =
      hex_byte-hexchar k (omega arith) in
    receive_frame buffer [] [] s rest (hexchar (k / 16)) (hexchar (k % 16)) tt (hc, tt)
      (omega arith)
    ∙ receive-check k (hexchar (k / 16)) (hexchar (k % 16)) (store buffer 0 s) [] rest
    ∙ ground arith
