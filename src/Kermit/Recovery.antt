-- ===== src/Kermit/Recovery.antt =====
-- src/kermit.rs: a receiver that answers at last gets the packet across.
use rosco_cli.Prelude.{
  ℕ, zero, suc, ◌+◌, ◌-◌, ◌%◌, ◌<◌, ◌≡◌, ◌≢◌, refl, ap₂, subst, ==_refl, ◌∙◌, arith, max, false,
  some, ◌==◌, List, [], ◌∷◌, ◌++◌, Option, length, append_assoc,
}
use rosco_cli.Kermit.{Params, RxPacket, build_packet, repeat_n, soh, check_len}
use rosco_cli.Kermit.Port.{
  Event, late, byte, Error, timed_out, no_response, Result, ok, err, read_packet,
}
use rosco_cli.Kermit.Packets.{arriving, read_packet-late, read_packet-build_packet}
use rosco_cli.Kermit.Retries.{copies}
use rosco_cli.Kermit.Transfer.{
  Port, continue, check_cancel, flagged, write_all, judge, judge_reply, attempts, ack, accept_ack,
  send_and_ack,
}

-- the deadline passes for `k` packets, and then `es` happens
abbrev pub silent : ℕ → List Event → List Event
silent zero es = es
silent (suc k) es = late ∷ silent k es

module _ {A : Type 0} (packet : List ℕ) (chkt : ℕ) (accept : RxPacket → Option A) (reply : RxPacket)
    (a : A) where
  -- one round of the loop, up to the reply
  attempts-step :
      (n : ℕ) (last_error : Error) (s : Port) (x : Result RxPacket) (es : List Event)
      → flagged s.events ≡ false
      → 0 < s.writes_left
      → read_packet chkt s.events ≡ (x, es)
      → attempts packet chkt accept (suc n) last_error s
        ≡ judge accept x (attempts packet chkt accept n) (record {
          events = es;
          writes_left = s.writes_left - 1;
          written = s.written ++ packet ∷ [];
          reported = s.reported;
        })
  unfolding attempts check_cancel write_all continue
  attempts-step n last_error s x es live works run =
      let open_port : (s.writes_left == 0) ≡ false = ground arith in
      rw live (rw open_port (rw run refl))

  -- an acknowledgement after `k` deadlines
  pub attempts-recovers :
      (k left : ℕ) (last_error : Error) (heard after : List Event) (s : Port)
      → s.events ≡ silent k heard
      → flagged heard ≡ false
      → read_packet chkt heard ≡ (ok reply, after)
      → accept reply ≡ some a
      → k < left
      → k < s.writes_left
      → attempts packet chkt accept left last_error s ≡ (
        ok a,
        record {
          events = after;
          writes_left = s.writes_left - suc k;
          written = s.written ++ copies packet (suc k);
          reported = s.reported;
        },
      )
  unfolding judge judge_reply flagged
  attempts-recovers k zero last_error heard after s e live run acc lt works = absurd (omega arith)
  attempts-recovers zero (suc n) last_error heard after s e live run acc lt works =
      attempts-step n last_error s (ok reply) after (rw e live) works (rw e run) ∙ rw acc refl
  attempts-recovers (suc k) (suc n) last_error heard after s e live run acc lt works =
      let es = silent k heard in
      let s1 : Port = record {
        events = es;
        writes_left = s.writes_left - 1;
        written = s.written ++ packet ∷ [];
        reported = s.reported;
      } in
      attempts-step n last_error s (err timed_out) es (rw e refl) (omega arith)
        (rw e (read_packet-late chkt es))
      ∙ attempts-recovers k n timed_out heard after s1 refl live run acc (omega arith) (omega arith)
      ∙ ap₂
          (λ w t.
            (ok a, record { events = after; writes_left = w; written = t; reported = s.reported }))
          (omega arith) (append_assoc s.written (packet ∷ []) (copies packet (suc k)))

-- an acknowledgement that arrives
abbrev pub acknowledgement : (seq : ℕ) → List ℕ → Params → List Event → List Event
acknowledgement seq content q es = arriving (build_packet seq ack content q) es

flagged-padded :
    (c n d : ℕ) (tail : List ℕ) (es : List Event)
    → flagged (arriving (repeat_n c n ++ d ∷ tail) es) ≡ false
unfolding flagged repeat_n
flagged-padded c zero d tail es = refl
flagged-padded c (suc n) d tail es = refl

pub flagged-acknowledgement :
    (seq : ℕ) (content : List ℕ) (q : Params) (es : List Event)
    → flagged (acknowledgement seq content q es) ≡ false
unfolding build_packet
flagged-acknowledgement seq content q es = flagged-padded q.padc q.npad soh _ es

-- A packet gets across if the receiver is silent for less than all the tries and then acknowledges it: send_and_ack succeeds, has written one copy more than there were deadlines, and has read no more than the acknowledgement. The writes succeed, the receiver uses the agreed block check, its padding is not the start character and its data fits a packet.
pub send_and_ack-recovers :
    (max_retries k seq ptype : ℕ) (content answer : List ℕ) (params q : Params) (es : List Event)
    (s : Port)
    → s.events ≡ silent k (acknowledgement seq answer q es)
    → q.chkt ≡ params.chkt
    → q.padc ≢ soh
    → length answer + check_len q.chkt + 2 < 256
    → k < max max_retries 1
    → k < s.writes_left
    → send_and_ack max_retries seq ptype content params s ≡ (
      ok tt,
      record {
        events = byte q.eol ∷ es;
        writes_left = s.writes_left - suc k;
        written = s.written ++ copies (build_packet seq ptype content params) (suc k);
        reported = s.reported;
      },
    )
unfolding send_and_ack accept_ack
send_and_ack-recovers max_retries k seq ptype content answer params q es s e chkt ne fits lt works =
    let reply : RxPacket = record { seq = seq % 64; ptype = ack; content = answer } in
    let read = read_packet-build_packet seq ack answer q es ne fits in
    attempts-recovers (build_packet seq ptype content params) params.chkt (accept_ack seq) reply tt
      k (max max_retries 1) no_response (acknowledgement seq answer q es) (byte q.eol ∷ es) s e
      (flagged-acknowledgement seq answer q es)
      (subst (λ c. read_packet c (acknowledgement seq answer q es) ≡ (ok reply, byte q.eol ∷ es))
        chkt read)
      (ground (arith, ==_refl (seq % 64))) lt works
