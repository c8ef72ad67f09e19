-- ===== src/Kermit/Willing.antt =====
-- src/kermit.rs: a transfer to a receiver that acknowledges every packet at once.
use rosco_cli.Prelude.{
  ℕ, zero, suc, ◌+◌, ◌-◌, ◌%◌, ◌≤◌, ◌<◌, ◌≡◌, ◌≢◌, refl, sym, ap, subst, append_assoc, append-nil,
  ◌∙◌, arith, max, false, List, [], ◌∷◌, ◌++◌, length, All, ==_refl,
}
use rosco_cli.Kermit.{Params, RxPacket, build_packet, soh}
use rosco_cli.Kermit.Port.{Event, byte, no_response, ok, read_packet}
use rosco_cli.Kermit.Packets.{
  arriving, read_packet-build_packet, read_packet-noise, check_len_small,
}
use rosco_cli.Kermit.Chunks.{joined, fill_chunk-Filled, fill_chunk-progress}
use rosco_cli.Kermit.Quoting.{encoded}
use rosco_cli.Kermit.Recovery.{attempts-recovers, acknowledgement, flagged-acknowledgement}
use rosco_cli.Kermit.Transfer.{
  Port, continue, check_cancel, flagged, ack, accept_ack, send_and_ack, report, fill_chunk,
  send_data,
}

-- bytes that no packet begins with
abbrev pub Noise : List ℕ → Type 0
Noise bs = All (λ b. b ≢ soh) bs

flagged-noise :
    (bs : List ℕ) (seq : ℕ) (content : List ℕ) (q : Params) (es : List Event)
    → flagged (arriving bs (acknowledgement seq content q es)) ≡ false
unfolding flagged
flagged-noise [] seq content q es = flagged-acknowledgement seq content q es
flagged-noise (b ∷ bs) seq content q es = refl

-- What packets leave: they were written once each, and the acknowledgements are read but for the last end.
pub record Acked (s s' : Port) (q : Params) (es : List Event) (packets : List (List ℕ))
    : Type 0 where
  pub noise : List ℕ
  pub is_noise : Noise noise
  pub events : s'.events ≡ arriving noise es
  pub written : s'.written ≡ s.written ++ packets
  pub writes_left : s'.writes_left + length packets ≡ s.writes_left

-- The receiver q answers with sound packets whose end is no start.
pub record Sound (q : Params) : Type 0 where
  pub padc : q.padc ≢ soh
  pub eol : q.eol ≢ soh

pub prompt :
    (max_retries seq ptype : ℕ) (content : List ℕ) (params q : Params) (noise : List ℕ)
    (es : List Event) (s : Port)
    → s.events ≡ arriving noise (acknowledgement seq [] q es)
    → Noise noise
    → q.chkt ≡ params.chkt
    → Sound q
    → 0 < s.writes_left
    → (s' : Port) × (send_and_ack max_retries seq ptype content params s ≡ (ok tt, s'))
      × Acked s s' q es (build_packet seq ptype content params ∷ [])
unfolding send_and_ack accept_ack
prompt max_retries seq ptype content params q noise es s e clean chkt sound works =
    let reply : RxPacket = record { seq = seq % 64; ptype = ack; content = [] } in
    let heard = arriving noise (acknowledgement seq [] q es) in
    let read : read_packet params.chkt heard ≡ (ok reply, byte q.eol ∷ es) =
      read_packet-noise params.chkt noise (acknowledgement seq [] q es) clean
      ∙ subst (λ c. read_packet c (acknowledgement seq [] q es) ≡ (ok reply, byte q.eol ∷ es)) chkt
          (read_packet-build_packet seq ack [] q es sound.padc
            (omega (arith, check_len_small q.chkt))) in
    (
      _,
      attempts-recovers (build_packet seq ptype content params) params.chkt (accept_ack seq) reply
          tt 0 (max max_retries 1) no_response heard (byte q.eol ∷ es) s e
          (flagged-noise noise seq [] q es) read (ground (arith, ==_refl (seq % 64))) (omega arith)
          works,
      record {
        noise = q.eol ∷ [];
        is_noise = (sound.eol, tt);
        events = refl;
        written = refl;
        writes_left = omega arith;
      },
    )

-- `n` acknowledgements with consecutive numbers
abbrev pub acks : Params → (seq n : ℕ) → List Event → List Event
acks q seq zero es = es
acks q seq (suc n) es = acknowledgement seq [] q (acks q ((seq + 1) % 64) n es)

abbrev pub number : (seq n : ℕ) → ℕ
number seq zero = seq
number seq (suc n) = number ((seq + 1) % 64) n

-- the packets of the data, one for each part
abbrev pub data_packets : Params → (seq : ℕ) → (parts : List (List ℕ)) → List (List ℕ)
data_packets p seq [] = []
data_packets p seq (c ∷ cs) =
    build_packet seq 0x44 (encoded p c) p ∷ data_packets p ((seq + 1) % 64) cs

pub length-data_packets :
    (p : Params) (seq : ℕ) (parts : List (List ℕ))
    → length (data_packets p seq parts) ≡ length parts
length-data_packets p seq [] = refl
length-data_packets p seq (c ∷ cs) = ap suc (length-data_packets p ((seq + 1) % 64) cs)

-- `n` parts that make up the bytes and that fit the budget
pub record Parts (budget : ℕ) (p : Params) (n : ℕ) (bytes : List ℕ) (parts : List (List ℕ))
    : Type 0 where
  pub whole : joined parts ≡ bytes
  pub count : length parts ≡ n
  pub fit : All (λ c. length (encoded p c) ≤ budget) parts

-- how many packets the data takes
abbrev pub packet_count : (f budget : ℕ) → Params → List ℕ → ℕ
packet_count f budget p [] = 0
packet_count zero budget p (b ∷ bs) = 0
packet_count (suc f) budget p (b ∷ bs) =
    suc (packet_count f budget p (fill_chunk budget p [] (b ∷ bs)).1)

pub send_data-succeeds :
    (f max_retries total budget : ℕ) (p q : Params) (seq : ℕ) (bytes noise : List ℕ)
    (es : List Event) (s : Port)
    → 4 ≤ budget
    → length bytes ≤ f
    → q.chkt ≡ p.chkt
    → Sound q
    → Noise noise
    → s.events ≡ arriving noise (acks q seq (packet_count f budget p bytes) es)
    → packet_count f budget p bytes ≤ s.writes_left
    → (s' : Port) × (parts : List (List ℕ)) × (send_data f max_retries total budget p seq bytes s
        ≡ (ok (number seq (packet_count f budget p bytes)), s'))
      × Parts budget p (packet_count f budget p bytes) bytes parts
      × Acked s s' q es (data_packets p seq parts)
unfolding send_data continue check_cancel report
send_data-succeeds f max_retries total budget p q seq [] noise es s four le chkt sound clean e
      works =
    (
      s,
      [],
      refl,
      record { whole = refl; count = refl; fit = tt },
      record {
        noise = noise;
        is_noise = clean;
        events = e;
        written = sym (append-nil s.written);
        writes_left = omega arith;
      },
    )
send_data-succeeds zero max_retries total budget p q seq (b ∷ bs) noise es s four le chkt sound
      clean e works =
    absurd (omega arith)
send_data-succeeds (suc f) max_retries total budget p q seq (b ∷ bs) noise es s four le chkt sound
      clean e works =
    let (chunk, rest) = fill_chunk budget p [] (b ∷ bs) in
    let fill = fill_chunk-Filled budget p [] (b ∷ bs) (omega arith) in
    let more = acks q ((seq + 1) % 64) (packet_count f budget p rest) es in
    let live : flagged s.events ≡ false = rw e (flagged-noise noise seq [] q more) in
    let (s1, run, acked) =
      prompt max_retries seq 0x44 chunk p q noise more s e clean chkt sound (omega arith) in
    let s2 = record s1 { reported = s1.reported ++ (total - length rest) ∷ [] } in
    let (s', parts, run', cut, acked') =
      send_data-succeeds f max_retries total budget p q ((seq + 1) % 64) rest acked.noise es s2 four
        (omega (arith, fill_chunk-progress budget p b bs four)) chkt sound acked.is_noise
        acked.events (omega (arith, acked.writes_left)) in
    let first : s1.written ≡ s.written ++ build_packet seq 0x44 (encoded p fill.slice) p ∷ [] =
      subst (λ c. s1.written ≡ s.written ++ build_packet seq 0x44 c p ∷ []) fill.chunk
        acked.written in
    let own = build_packet seq 0x44 (encoded p fill.slice) p in
    let others = data_packets p ((seq + 1) % 64) parts in
    (
      s',
      fill.slice ∷ parts,
      rw live (rw run run'),
      record {
        whole = ap (λ t. fill.slice ++ t) cut.whole ∙ sym fill.split;
        count = ap suc cut.count;
        fit = (subst (λ c. length c ≤ budget) fill.chunk fill.bound, cut.fit);
      },
      record {
        noise = acked'.noise;
        is_noise = acked'.is_noise;
        events = acked'.events;
        written =
            acked'.written ∙ ap (λ w. w ++ others) first ∙ append_assoc s.written (own ∷ []) others;
        writes_left = omega (arith, acked.writes_left, acked'.writes_left);
      },
    )
