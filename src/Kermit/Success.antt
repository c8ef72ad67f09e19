-- ===== src/Kermit/Success.antt =====
-- src/kermit.rs: a whole transfer to a receiver that acknowledges every packet at once.
use rosco_cli.Prelude.{
  ℕ, ◌+◌, ◌-◌, ◌%◌, ◌≤◌, ◌≡◌, refl, sym, ap, ◌∙◌, append_assoc, subst, arith, max, false, ltb, List,
  [], ◌∷◌, ◌++◌, length,
}
use rosco_cli.Kermit.{Params, RxPacket, build_packet, check_len, parse_params}
use rosco_cli.Kermit.Port.{Event, byte, no_response, ok, read_packet}
use rosco_cli.Kermit.Packets.{arriving, read_packet-build_packet, check_len_small}
use rosco_cli.Kermit.Quoting.{encoded}
use rosco_cli.Kermit.Chunks.{encode_name-encoded}
use rosco_cli.Kermit.Recovery.{attempts-recovers, acknowledgement, flagged-acknowledgement}
use rosco_cli.Kermit.Transfer.{
  Port, continue, ack, accept_init, exchange_init, init_packet, report, send_with, send_file,
  encode_name, budget_of,
}
use rosco_cli.Kermit.Body.{four_at_least}
use rosco_cli.Kermit.Willing.{
  data_packets, length-data_packets, Parts, Sound, Noise, prompt, acks, number, packet_count,
  send_data-succeeds,
}

-- the acknowledgements of the name, of `n` packets of data, and of the two packets at the end
abbrev pub answers : Params → (n : ℕ) → List Event → List Event
answers q n es = acknowledgement 1 [] q (
    acks q 2 n
      (acknowledgement (number 2 n) [] q (acknowledgement ((number 2 n + 1) % 64) [] q es)))

-- the packets of a transfer behind the one for the parameters
abbrev pub transfer_packets : Params → (name : List ℕ) → (parts : List (List ℕ)) → List (List ℕ)
transfer_packets p name parts =
    build_packet 1 0x46 (encoded p name) p ∷ []
    ++ data_packets p 2 parts
    ++ build_packet (number 2 (length parts)) 0x5A [] p ∷ []
    ++ build_packet ((number 2 (length parts) + 1) % 64) 0x42 [] p ∷ []

regroup : (a b c d e : List (List ℕ)) → a ++ b ++ c ++ d ++ e ≡ a ++ (b ++ c ++ d ++ e)
regroup a b c d e =
    ap (λ t. t ++ d ++ e) (append_assoc a b c)
    ∙ ap (λ t. t ++ e) (append_assoc a (b ++ c) d)
    ∙ append_assoc a (b ++ c ++ d) e

send_with-succeeds :
    (max_retries : ℕ) (name bytes noise : List ℕ) (p q : Params) (es : List Event) (s : Port)
    → q.chkt ≡ p.chkt
    → Sound q
    → Noise noise
    → length (encoded p name) ≤ budget_of p
    → s.events ≡ arriving noise (answers q (packet_count (length bytes) (budget_of p) p bytes) es)
    → packet_count (length bytes) (budget_of p) p bytes + 3 ≤ s.writes_left
    → (s' : Port) × (parts : List (List ℕ)) × (send_with max_retries name bytes p s ≡ (ok name, s'))
      × Parts (budget_of p) p (packet_count (length bytes) (budget_of p) p bytes) bytes parts
      × (s'.written ≡ s.written ++ transfer_packets p name parts)
unfolding send_with continue report
send_with-succeeds max_retries name bytes noise p q es s chkt sound clean short e works =
    let header = encode_name [] name p in
    let budget = budget_of p in
    let n = packet_count (length bytes) budget p bytes in
    let last = number 2 n in
    let s0 = record s { reported = s.reported ++ 0 ∷ [] } in
    let es3 = acknowledgement ((last + 1) % 64) [] q es in
    let es2 = acknowledgement last [] q es3 in
    let fits : ltb budget (length header) ≡ false =
      rw (encode_name-encoded [] name p) (ground arith) in
    let (s1, run1, a1) =
      prompt max_retries 1 0x46 header p q noise (acks q 2 n es2) s0 e clean chkt sound
        (omega arith) in
    let (s2, parts, run2, cut, a2) =
      send_data-succeeds (length bytes) max_retries (length bytes) budget p q 2 bytes a1.noise es2
        s1 (four_at_least p) (omega arith) chkt sound a1.is_noise a1.events
        (omega (arith, a1.writes_left)) in
    let (s3, run3, a3) =
      prompt max_retries last 0x5A [] p q a2.noise es3 s2 a2.events a2.is_noise chkt sound
        (omega (arith, a1.writes_left, a2.writes_left, length-data_packets p 2 parts, cut.count)) in
    let (s4, run4, a4) =
      prompt max_retries ((last + 1) % 64) 0x42 [] p q a3.noise es s3 a3.events a3.is_noise chkt
        sound
        (omega (
          arith,
          a1.writes_left,
          a2.writes_left,
          a3.writes_left,
          length-data_packets p 2 parts,
          cut.count,
        )) in
    let head = build_packet 1 0x46 (encoded p name) p ∷ [] in
    let body = data_packets p 2 parts in
    let tail : ℕ → List (List ℕ) → List (List ℕ) =
      λ m ws. ws ++ build_packet m 0x5A [] p ∷ [] ++ build_packet ((m + 1) % 64) 0x42 [] p ∷ [] in
    let named : s1.written ≡ s.written ++ head =
      subst (λ h. s1.written ≡ s.written ++ build_packet 1 0x46 h p ∷ [])
        (encode_name-encoded [] name p) a1.written in
    let done : s4.written ≡ tail last (s.written ++ head ++ body) =
      a4.written
      ∙ ap (λ w. w ++ build_packet ((last + 1) % 64) 0x42 [] p ∷ [])
          (a3.written
            ∙ ap (λ w. w ++ build_packet last 0x5A [] p ∷ [])
                (a2.written ∙ ap (λ w. w ++ body) named)) in
    (
      s4,
      parts,
      rw fits (rw run1 (rw run2 (rw run3 (rw run4 refl)))),
      cut,
      subst (λ m. s4.written ≡ tail (number 2 m) (s.written ++ head ++ body)) (sym cut.count) done
          ∙ (let m = number 2 (length parts) in
              regroup s.written head body (build_packet m 0x5A [] p ∷ [])
                (build_packet ((m + 1) % 64) 0x42 [] p ∷ [])),
    )

-- A transfer succeeds when the receiver acknowledges every packet at once: send_file returns the name and has written each packet once, in this order: the one for the parameters, the name, the quoted file in parts that fit the budget with the numbers from 2 on, the end of the file and the end of the transfer. The quoted name fits the budget, the writes succeed, the receiver's parameters take 250 characters at most, it uses the block check that they ask for, and neither its padding nor its end of line is the start character.
pub send_file-succeeds :
    (max_retries : ℕ) (name bytes content : List ℕ) (q0 q : Params) (es : List Event) (s : Port)
    → q0.chkt ≡ 0x31
    → length content ≤ 250
    → Sound q0
    → q.chkt ≡ (parse_params content).chkt
    → Sound q
    → length (encoded (parse_params content) name) ≤ budget_of (parse_params content)
    → s.events
      ≡ acknowledgement 0 content q0 (
          answers q
            (packet_count
              (length bytes)
              (budget_of (parse_params content))
              (parse_params content)
              bytes)
            es)
    → packet_count (length bytes) (budget_of (parse_params content)) (parse_params content) bytes
        + 4
      ≤ s.writes_left
    → (s' : Port) × (parts : List (List ℕ)) × (send_file max_retries name bytes s ≡ (ok name, s'))
      × Parts
          (budget_of (parse_params content))
          (parse_params content)
          (packet_count
            (length bytes)
            (budget_of (parse_params content))
            (parse_params content)
            bytes)
          bytes
          parts
      × (s'.written
          ≡ s.written ++ init_packet ∷ [] ++ transfer_packets (parse_params content) name parts)
unfolding send_file exchange_init continue accept_init check_len
send_file-succeeds max_retries name bytes content q0 q es s one fits sound0 chkt sound short e
      works =
    let p = parse_params content in
    let n = packet_count (length bytes) (budget_of p) p bytes in
    let reply : RxPacket = record { seq = 0; ptype = ack; content = content } in
    let heard = acknowledgement 0 content q0 (answers q n es) in
    let s1 : Port = record {
      events = byte q0.eol ∷ answers q n es;
      writes_left = s.writes_left - 1;
      written = s.written ++ init_packet ∷ [];
      reported = s.reported;
    } in
    let read : read_packet 0x31 heard ≡ (ok reply, byte q0.eol ∷ answers q n es) =
      subst (λ c. read_packet c heard ≡ (ok reply, byte q0.eol ∷ answers q n es)) one
        (read_packet-build_packet 0 ack content q0 (answers q n es) sound0.padc
          (omega (arith, check_len_small q0.chkt))) in
    let run =
      attempts-recovers init_packet 0x31 accept_init reply p 0 (max max_retries 1) no_response heard
        (byte q0.eol ∷ answers q n es) s e (flagged-acknowledgement 0 content q0 (answers q n es))
        read (ground arith) (omega arith) (omega arith) in
    let (s', parts, run', cut, done) =
      send_with-succeeds max_retries name bytes (q0.eol ∷ []) p q es s1 chkt sound (sound0.eol, tt)
        short refl (omega arith) in
    (s', parts, rw run run', cut, done)
