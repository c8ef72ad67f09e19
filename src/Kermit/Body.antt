-- ===== src/Kermit/Body.antt =====
-- src/kermit.rs: a transfer behind the exchange of parameters.
use rosco_cli.Prelude.{
  ℕ, ◌+◌, ◌%◌, ◌≤◌, ◌≡◌, max, subst, arith, ltb, List, [], ◌∷◌, ◌++◌, Bool-cases, inl, inr, length,
}
use rosco_cli.Kermit.{Params, build_packet}
use rosco_cli.Kermit.Port.{Result, ok, err}
use rosco_cli.Kermit.Quoting.{encoded}
use rosco_cli.Kermit.Retries.{IsCode}
use rosco_cli.Kermit.Transfer.{
  Port, Sender, ◌>>=◌, pure, continue, send_and_ack, report, send_data, encode_name, budget_of,
  send_with,
}
use rosco_cli.Kermit.Chunks.{joined, encode_name-encoded}
use rosco_cli.Kermit.Delivery.{
  DataSent, seq_after, continue-post, Line, line, Acknowledged, send_and_ack-Acknowledged,
  send_and_ack-IsCode, DataOutcome, send_data-DataOutcome,
}

-- A whole transfer behind the exchange of parameters: the name in packet 1, the data from packet 2 on, the
-- end of the file and the end of the transfer, each acknowledged before the next is written.
pub record Sent (limit : ℕ) (p : Params) (name bytes : List ℕ) (l l' : Line) : Type 0 where
  pub parts : List (List ℕ)
  pub whole : joined parts ≡ bytes
  pub short : length (encoded p name) ≤ budget_of p
  pub named : Line
  pub loaded : Line
  pub ended : Line
  pub name_sent : Acknowledged limit p.chkt 1 (build_packet 1 0x46 (encoded p name) p) l named
  pub data_sent : DataSent limit (budget_of p) p 2 parts named loaded
  pub end_sent :
      Acknowledged limit p.chkt
        (seq_after 2 parts)
        (build_packet (seq_after 2 parts) 0x5A [] p)
        loaded
        ended
  pub break_sent :
      Acknowledged limit p.chkt
        ((seq_after 2 parts + 1) % 64)
        (build_packet ((seq_after 2 parts + 1) % 64) 0x42 [] p)
        ended
        l'

-- what holds of the result and of what is on the port then
abbrev pub Outcome :
    (limit : ℕ) → Params → (name bytes : List ℕ) → (l : Line) → Result (List ℕ) × Port → Type 0
Outcome limit p name bytes l r = elim r.0 [
  | ok n ↦ Sent limit p name bytes l (line r.1)
  | err e ↦ IsCode e
]

pub four_at_least : (p : Params) → 4 ≤ budget_of p
unfolding budget_of
four_at_least p = omega arith

-- the four runs of a transfer that succeeded
collect :
    (max_retries : ℕ) (name bytes : List ℕ) (p : Params) (s s1 s2 s3 s4 : Port) (seq : ℕ)
    (a b c : Unit {0})
    → length (encoded p name) ≤ budget_of p
    → send_and_ack max_retries 1 0x46 (encoded p name) p s ≡ (ok a, s1)
    → send_data (length bytes) max_retries (length bytes) (budget_of p) p 2 bytes s1 ≡ (ok seq, s2)
    → send_and_ack max_retries seq 0x5A [] p s2 ≡ (ok b, s3)
    → send_and_ack max_retries ((seq + 1) % 64) 0x42 [] p s3 ≡ (ok c, s4)
    → Sent (max max_retries 1) p name bytes (line s) (line s4)
collect max_retries name bytes p s s1 s2 s3 s4 seq a b c short run1 run2 run3 run4 =
    let limit = max max_retries 1 in
    let (parts, whole, last, sent) =
      subst (λ r. DataOutcome limit (budget_of p) p 2 bytes (line s1) (line r.1) r.0) run2
        (send_data-DataOutcome (length bytes) max_retries (length bytes) (budget_of p) p 2 bytes s1
          (four_at_least p) (omega arith)) in
    record {
      parts = parts;
      whole = whole;
      short = short;
      named = line s1;
      loaded = line s2;
      ended = line s3;
      name_sent = send_and_ack-Acknowledged max_retries 1 0x46 (encoded p name) p s a s1 run1;
      data_sent = sent;
      end_sent =
          subst (λ n. Acknowledged limit p.chkt n (build_packet n 0x5A [] p) (line s2) (line s3))
            last (send_and_ack-Acknowledged max_retries seq 0x5A [] p s2 b s3 run3);
      break_sent =
          subst
            (λ n.
              Acknowledged limit p.chkt ((n + 1) % 64) (build_packet ((n + 1) % 64) 0x42 [] p)
                (line s3) (line s4))
            last (send_and_ack-Acknowledged max_retries ((seq + 1) % 64) 0x42 [] p s3 c s4 run4);
    }

pub send_with-Outcome :
    (max_retries : ℕ) (name bytes : List ℕ) (p : Params) (s : Port)
    → Outcome (max max_retries 1) p name bytes (line s) (send_with max_retries name bytes p s)
unfolding send_with continue report
send_with-Outcome max_retries name bytes p s =
    let header = encode_name [] name p in
    let budget = budget_of p in
    let s0 = record s { reported = s.reported ++ 0 ∷ [] } in
    let Q : Result (List ℕ) × Port → Type 0 =
      λ r. Outcome (max max_retries 1) p name bytes (line s) r in
    let e : header ≡ encoded p name = encode_name-encoded [] name p in
    let k4 : Unit {0} → Sender (List ℕ) = λ c. pure name in
    let k3 : ℕ → Unit {0} → Sender (List ℕ) =
      λ seq b. send_and_ack max_retries ((seq + 1) % 64) 0x42 [] p >>= k4 in
    let k2 : ℕ → Sender (List ℕ) = λ seq. send_and_ack max_retries seq 0x5A [] p >>= k3 seq in
    let k1 : Unit {0} → Sender (List ℕ) =
      λ a. send_data (length bytes) max_retries (length bytes) budget p 2 bytes >>= k2 in
    elim (Bool-cases (ltb budget (length header))) [
      | inl long ↦ rw long tt
      | inr short ↦ rw short (
          continue-post (send_and_ack max_retries 1 0x46 header p s0) k1 Q
            (λ a s1 run1.
              continue-post
                (send_data (length bytes) max_retries (length bytes) budget p 2 bytes s1) k2 Q
                (λ seq s2 run2.
                  continue-post (send_and_ack max_retries seq 0x5A [] p s2) (k3 seq) Q
                    (λ b s3 run3.
                      continue-post (send_and_ack max_retries ((seq + 1) % 64) 0x42 [] p s3) k4 Q
                        (λ c s4 run4.
                          collect max_retries name bytes p s0 s1 s2 s3 s4 seq a b c
                            (subst (λ h. length h ≤ budget) e (ground arith))
                            (subst (λ h. send_and_ack max_retries 1 0x46 h p s0 ≡ (ok a, s1)) e
                              run1)
                            run2 run3 run4)
                        (λ e s4 run4.
                          send_and_ack-IsCode max_retries ((seq + 1) % 64) 0x42 [] p s3 e s4 run4))
                    (λ e s3 run3. send_and_ack-IsCode max_retries seq 0x5A [] p s2 e s3 run3))
                (λ e s2 run2.
                  subst
                    (λ r. DataOutcome (max max_retries 1) budget p 2 bytes (line s1) (line r.1) r.0)
                    run2
                    (send_data-DataOutcome (length bytes) max_retries (length bytes) budget p 2
                      bytes s1 (four_at_least p) (omega arith))))
            (λ e s1 run1. send_and_ack-IsCode max_retries 1 0x46 header p s0 e s1 run1))
    ]
