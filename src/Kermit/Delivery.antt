-- ===== src/Kermit/Delivery.antt =====
-- src/kermit.rs: what sending the data puts on the port.
use rosco_cli.Prelude.{
  ℕ, zero, suc, ◌+◌, ◌-◌, ◌%◌, ◌≤◌, ◌≡◌, inl, inr, refl, sym, ap, subst, arith, max, List, [], ◌∷◌,
  ◌++◌, Bool-cases, length,
}
use rosco_cli.Kermit.{Params, RxPacket, build_packet}
use rosco_cli.Kermit.Port.{Event, Error, Result, ok, err, read_packet}
use rosco_cli.Kermit.Quoting.{encoded}
use rosco_cli.Kermit.Retries.{copies, after_reads, IsCode, IsAck, Attempted, send_and_ack-Attempted}
use rosco_cli.Kermit.Transfer.{
  Port, Sender, continue, check_cancel, flagged, send_and_ack, report, fill_chunk, send_data,
}
use rosco_cli.Kermit.Chunks.{joined, fill_chunk-Filled, fill_chunk-progress}

-- a place in a transfer: what the port will bring, and what was written to it
pub record Line : Type 0 where
  pub events : List Event
  pub written : List (List ℕ)

abbrev pub line : Port → Line
line s = record { events = s.events; written = s.written }

-- From `l` to `l'` the packet was written, `limit` times at most, and nothing else; what was read last is a reply of type Y with the number `seq` modulo 64.
pub record Acknowledged (limit chkt seq : ℕ) (packet : List ℕ) (l l' : Line) : Type 0 where
  pub again : ℕ
  pub bound : suc again ≤ limit
  pub written : l'.written ≡ l.written ++ copies packet (suc again)
  pub reply : RxPacket
  pub heard : read_packet chkt (after_reads chkt again l.events) ≡ (ok reply, l'.events)
  pub good : IsAck seq reply tt

-- From `l` to `l'` the parts were sent in this order, with the numbers from `seq` on: each was acknowledged before the next, and no data is longer than the budget.
abbrev pub DataSent :
    (limit budget : ℕ) → Params → (seq : ℕ) → (parts : List (List ℕ)) → (l l' : Line) → Type 0
DataSent limit budget p seq [] l l' = l ≡ l'
DataSent limit budget p seq (c ∷ cs) l l' =
    (middle : Line) × Acknowledged limit p.chkt seq (build_packet seq 0x44 (encoded p c) p) l middle
    × (length (encoded p c) ≤ budget)
    × DataSent limit budget p ((seq + 1) % 64) cs middle l'

-- the number behind those of the parts
abbrev pub seq_after : (seq : ℕ) → List (List ℕ) → ℕ
seq_after seq [] = seq
seq_after seq (c ∷ cs) = seq_after ((seq + 1) % 64) cs

-- What sending the data leaves: the whole of it sent, or an error of the code.
abbrev pub DataOutcome :
    (limit budget : ℕ) → Params → (seq : ℕ) → List ℕ → (l l' : Line) → Result ℕ → Type 0
DataOutcome limit budget p seq bytes l l' (ok last) =
    (parts : List (List ℕ)) × (joined parts ≡ bytes)
    × (last ≡ seq_after seq parts)
    × DataSent limit budget p seq parts l l'
DataOutcome limit budget p seq bytes l l' (err e) = IsCode e

DataOutcome-cons :
    (limit budget : ℕ) (p : Params) (seq : ℕ) (part rest : List ℕ) (l middle l' : Line)
    (r : Result ℕ)
    → Acknowledged limit p.chkt seq (build_packet seq 0x44 (encoded p part) p) l middle
    → length (encoded p part) ≤ budget
    → DataOutcome limit budget p ((seq + 1) % 64) rest middle l' r
    → DataOutcome limit budget p seq (part ++ rest) l l' r
DataOutcome-cons limit budget p seq part rest l middle l' (err e) acked le h = h
DataOutcome-cons limit budget p seq part rest l middle l' (ok last) acked le (parts, e, n, sent) =
    (part ∷ parts, ap (λ t. part ++ t) e, n, (middle, acked, le, sent))

-- A step behind another: what holds of both its ends holds of the whole.
pub continue-post {ℓ} :
    {A B : Type 0} (r : Result A × Port) (f : A → Sender B) (Q : Result B × Port → Type ℓ)
    → ((a : A) (s : Port) → r ≡ (ok a, s) → Q (f a s))
    → ((e : Error) (s : Port) → r ≡ (err e, s) → Q (err e, s))
    → Q (continue r f)
unfolding continue
continue-post (ok a, s) f Q h g = h a s refl
continue-post (err e, s) f Q h g = g e s refl

pub send_and_ack-Acknowledged :
    (max_retries seq ptype : ℕ) (content : List ℕ) (p : Params) (s : Port) (a : Unit {0})
    (s1 : Port)
    → send_and_ack max_retries seq ptype content p s ≡ (ok a, s1)
    → Acknowledged
        (max max_retries 1)
        p.chkt
        seq
        (build_packet seq ptype content p)
        (line s)
        (line s1)
send_and_ack-Acknowledged max_retries seq ptype content p s a s1 e =
    let packet = build_packet seq ptype content p in
    let att =
      subst (λ r. Attempted Unit packet p.chkt (IsAck seq) (max max_retries 1) s r) e
        (send_and_ack-Attempted max_retries seq ptype content p s) in
    let (k, count, reply, heard, good) = att.answered in
    record {
      again = k;
      bound = omega (arith, att.bound, count);
      written = subst (λ n. s1.written ≡ s.written ++ copies packet n) count att.written;
      reply = reply;
      heard = heard;
      good = good;
    }

pub send_and_ack-IsCode :
    (max_retries seq ptype : ℕ) (content : List ℕ) (p : Params) (s : Port) (e : Error) (s1 : Port)
    → send_and_ack max_retries seq ptype content p s ≡ (err e, s1)
    → IsCode e
send_and_ack-IsCode max_retries seq ptype content p s e s1 run =
    let att =
      subst
        (λ r.
          Attempted Unit (build_packet seq ptype content p) p.chkt (IsAck seq) (max max_retries 1) s
            r)
        run (send_and_ack-Attempted max_retries seq ptype content p s) in
    att.answered

pub send_data-DataOutcome :
    (f max_retries total budget : ℕ) (p : Params) (seq : ℕ) (bytes : List ℕ) (s : Port)
    → 4 ≤ budget
    → length bytes ≤ f
    → DataOutcome
        (max max_retries 1)
        budget
        p
        seq
        bytes
        (line s)
        (line (send_data f max_retries total budget p seq bytes s).1)
        (send_data f max_retries total budget p seq bytes s).0
unfolding send_data continue check_cancel report
send_data-DataOutcome f max_retries total budget p seq [] s four le = ([], refl, refl, refl)
send_data-DataOutcome zero max_retries total budget p seq (b ∷ bs) s four le = absurd (omega arith)
send_data-DataOutcome (suc f) max_retries total budget p seq (b ∷ bs) s four le =
    let limit = max max_retries 1 in
    let (chunk, rest) = fill_chunk budget p [] (b ∷ bs) in
    let fill = fill_chunk-Filled budget p [] (b ∷ bs) (omega arith) in
    let go : Port → Result ℕ × Port =
      λ s2. send_data f max_retries total budget p ((seq + 1) % 64) rest s2 in
    let Q : Result ℕ × Port → Type 0 =
      λ r. DataOutcome limit budget p seq (b ∷ bs) (line s) (line r.1) r.0 in
    elim (Bool-cases (flagged s.events)) [
      | inl stop ↦ rw stop tt
      | inr live ↦ rw live (
          continue-post (send_and_ack max_retries seq 0x44 chunk p s)
            (λ acked s1. go (record s1 { reported = s1.reported ++ (total - length rest) ∷ [] })) Q
            (λ a s1 e.
              let s2 = record s1 { reported = s1.reported ++ (total - length rest) ∷ [] } in
              let acked =
                subst
                  (λ c.
                    Acknowledged limit p.chkt seq (build_packet seq 0x44 c p) (line s) (line s1))
                  fill.chunk (send_and_ack-Acknowledged max_retries seq 0x44 chunk p s a s1 e) in
              let ih =
                send_data-DataOutcome f max_retries total budget p ((seq + 1) % 64) rest s2 four
                  (omega (arith, fill_chunk-progress budget p b bs four)) in
              subst (λ t. DataOutcome limit budget p seq t (line s) (line (go s2).1) (go s2).0)
                (sym fill.split)
                (DataOutcome-cons limit budget p seq fill.slice rest (line s) (line s1)
                  (line (go s2).1) (go s2).0 acked
                  (subst (λ c. length c ≤ budget) fill.chunk fill.bound) ih))
            (λ e s1 run. send_and_ack-IsCode max_retries seq 0x44 chunk p s e s1 run))
    ]
