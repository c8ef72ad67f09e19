-- ===== src/Kermit/Packets.antt =====
-- src/kermit.rs: a packet that build_packet made is read back by read_packet.
use rosco_cli.Prelude.{
  ℕ, zero, suc, ◌+◌, ◌-◌, ◌%◌, ◌<◌, ◌≤◌, ◌≡◌, ◌≢◌, refl, ap, ◌∙◌, arith, true, false, ◌==◌, ltb,
  List, All, [], ◌∷◌, ◌++◌, length, take, drop, length-append, u32_mod,
}
use rosco_cli.Kermit.{
  soh, Params, tochar, unchar, check_len, sum_u32, crc16_kermit, check_characters, repeat_n,
  build_packet,
}
use rosco_cli.Kermit.Port.{
  ◌>>=◌, Event, byte, late, timed_out, ok, err, continue, read_byte, skip_to_soh, read_many,
  bytes_eq, packet_of, check_rest, read_rest, read_packet,
}

-- the bytes arrive one by one, and then `es` happens
abbrev pub arriving : List ℕ → List Event → List Event
arriving [] es = es
arriving (b ∷ bs) es = byte b ∷ arriving bs es

pub arriving-append :
    (xs ys : List ℕ) (es : List Event) → arriving (xs ++ ys) es ≡ arriving xs (arriving ys es)
arriving-append [] ys es = refl
arriving-append (x ∷ xs) ys es = ap (λ t. byte x ∷ t) (arriving-append xs ys es)

unchar-tochar : (n : ℕ) → n < 256 → unchar (tochar n) ≡ n
unfolding unchar tochar
unchar-tochar n lt = omega arith

bytes_eq_refl : (bs : List ℕ) → bytes_eq bs bs ≡ true
unfolding bytes_eq
bytes_eq_refl [] = refl
bytes_eq_refl (b ∷ bs) = ground (arith, bytes_eq_refl bs)

-- Padding is skipped.
skip_to_soh-repeat_n :
    (padc n : ℕ) (es : List Event)
    → padc ≢ soh
    → skip_to_soh (arriving (repeat_n padc n) (byte soh ∷ es)) ≡ (ok tt, es)
unfolding skip_to_soh repeat_n
skip_to_soh-repeat_n padc zero es ne = refl
skip_to_soh-repeat_n padc (suc n) es ne =
    let e : (padc == soh) ≡ false = ground arith in rw e (skip_to_soh-repeat_n padc n es ne)

read_many_exact :
    (bs : List ℕ) (es : List Event) → read_many (length bs) (arriving bs es) ≡ (ok bs, es)
unfolding read_many read_byte continue
read_many_exact [] es = refl
read_many_exact (b ∷ bs) es = rw (read_many_exact bs es) refl

take-length : (xs ys : List ℕ) → take (length xs) (xs ++ ys) ≡ xs
take-length [] ys = refl
take-length (x ∷ xs) ys = ap (λ t. x ∷ t) (take-length xs ys)

drop-length : (xs ys : List ℕ) → drop (length xs) (xs ++ ys) ≡ ys
drop-length [] ys = refl
drop-length (x ∷ xs) ys = drop-length xs ys

length-check_characters :
    (chkt sum crc : ℕ) → length (check_characters chkt sum crc) ≡ check_len chkt
unfolding check_characters check_len
length-check_characters chkt sum crc = ground arith

-- the bytes between the length and the end of the packet are read as they were written
check_rest-written :
    (chkt len_char : ℕ) (body : List ℕ) (es : List Event)
    → check_rest chkt len_char
        (body
          ++ check_characters chkt
              ((len_char + sum_u32 body) % u32_mod)
              (crc16_kermit (len_char ∷ body)))
        es
      ≡ (ok (packet_of body), es)
unfolding check_rest
check_rest-written chkt len_char body es =
    let sum = (len_char + sum_u32 body) % u32_mod in
    let crc = crc16_kermit (len_char ∷ body) in
    let check = check_characters chkt sum crc in
    let size : length (body ++ check) - check_len chkt ≡ length body =
      omega (arith, length-append body check, length-check_characters chkt sum crc) in
    rw size
      (rw (take-length body check) (rw (drop-length body check) (rw (bytes_eq_refl check) refl)))

read_rest-written :
    (chkt len_char sum : ℕ) (body : List ℕ) (es : List Event)
    → sum ≡ (len_char + sum_u32 body) % u32_mod
    → unchar len_char ≡ length body + check_len chkt
    → 2 ≤ length body
    → read_rest chkt len_char
        (arriving (body ++ check_characters chkt sum (crc16_kermit (len_char ∷ body))) es)
      ≡ (ok (packet_of body), es)
unfolding read_rest continue
read_rest-written chkt len_char sum body es e count two =
    let crc = crc16_kermit (len_char ∷ body) in
    let all = body ++ check_characters chkt sum crc in
    let size : unchar len_char ≡ length all = omega (
      arith,
      count,
      length-append body (check_characters chkt sum crc),
      length-check_characters chkt sum crc,
    ) in
    let long : ltb (unchar len_char) (2 + check_len chkt) ≡ false = ground arith in
    rw long
      (rw size (rw (read_many_exact all es) (rw e (check_rest-written chkt len_char body es))))

sum-fields :
    (len_char seq_char ptype : ℕ) (content : List ℕ)
    → (len_char + seq_char + ptype + sum_u32 content) % u32_mod
      ≡ (len_char + sum_u32 (seq_char ∷ ptype ∷ content)) % u32_mod
unfolding sum_u32
sum-fields len_char seq_char ptype content = omega arith

-- What build_packet wrote is read back, whatever block check is in use: the number modulo 64, the type and the data; padding is skipped, and the end-of-line character is left to be read. The padding character is not the start character, and the length fits in one character.
pub read_packet-build_packet :
    (seq ptype : ℕ) (content : List ℕ) (params : Params) (es : List Event)
    → params.padc ≢ soh
    → length content + check_len params.chkt + 2 < 256
    → read_packet params.chkt (arriving (build_packet seq ptype content params) es)
      ≡ (ok (record { seq = seq % 64; ptype = ptype; content = content }), byte params.eol ∷ es)
unfolding read_packet continue build_packet read_byte packet_of
read_packet-build_packet seq ptype content params es ne fits =
    let clen = check_len params.chkt in
    let len_char = tochar ((length content + clen + 2) % 256) in
    let seq_char = tochar (seq % 64) in
    let sum = (len_char + seq_char + ptype + sum_u32 content) % u32_mod in
    let body = seq_char ∷ ptype ∷ content in
    let check = check_characters params.chkt sum (crc16_kermit (len_char ∷ body)) in
    let pad = repeat_n params.padc params.npad in
    let tail = body ++ check ++ params.eol ∷ [] in
    let rest =
      read_rest-written params.chkt len_char sum body (byte params.eol ∷ es)
        (sum-fields len_char seq_char ptype content)
        (unchar-tochar ((length content + clen + 2) % 256) (omega arith) ∙ omega arith)
        (omega arith) in
    let split : arriving tail es ≡ arriving (body ++ check) (byte params.eol ∷ es) =
      arriving-append (body ++ check) (params.eol ∷ []) es in
    rw (arriving-append pad (soh ∷ len_char ∷ tail) es) (
      rw (skip_to_soh-repeat_n params.padc params.npad (arriving (len_char ∷ tail) es) ne)
        (rw split (rest ∙ rw (unchar-tochar (seq % 64) (omega arith)) refl)))

-- A deadline that passes before anything arrives.
pub read_packet-late :
    (chkt : ℕ) (es : List Event) → read_packet chkt (late ∷ es) ≡ (err timed_out, es)
unfolding read_packet continue skip_to_soh
read_packet-late chkt es = refl

-- Bytes that do not begin a packet are skipped.
skip_to_soh-noise :
    (bs : List ℕ) (es : List Event)
    → All (λ b. b ≢ soh) bs
    → skip_to_soh (arriving bs es) ≡ skip_to_soh es
unfolding skip_to_soh
skip_to_soh-noise [] es h = refl
skip_to_soh-noise (b ∷ bs) es (ne, h) =
    let e : (b == soh) ≡ false = ground arith in rw e (skip_to_soh-noise bs es h)

pub read_packet-noise :
    (chkt : ℕ) (bs : List ℕ) (es : List Event)
    → All (λ b. b ≢ soh) bs
    → read_packet chkt (arriving bs es) ≡ read_packet chkt es
unfolding read_packet
read_packet-noise chkt bs es h =
    ap (λ r. continue r (λ start. read_byte >>= read_rest chkt)) (skip_to_soh-noise bs es h)

pub check_len_small : (chkt : ℕ) → check_len chkt ≤ 3
unfolding check_len
check_len_small chkt = ground arith
