-- ===== src/Kermit/Session.antt =====
-- src/kermit.rs: send_file from end to end.
use rosco_cli.Prelude.{
  ℕ, suc, ◌≤◌, ◌≡◌, sym, ap, subst, arith, max, none, some, ◌==◌, List, ◌++◌, Bool-cases, inl, inr,
}
use rosco_cli.Kermit.{Params, RxPacket, parse_params}
use rosco_cli.Kermit.Port.{Event, no_response, Result, ok, err, read_packet}
use rosco_cli.Kermit.Retries.{copies, after_reads, IsCode, Attempted, attempts-Attempted}
use rosco_cli.Kermit.Transfer.{
  Port, send_with, send_file, exchange_init, accept_init, init_packet, ack,
}
use rosco_cli.Kermit.Delivery.{Line, line, continue-post}
use rosco_cli.Kermit.Body.{Sent, Outcome, send_with-Outcome}

-- What a transfer leaves, parameters included: they are what a reply of type Y carried, which is what the port brought when the packet had been written the last time.
pub record Transferred (limit : ℕ) (name bytes : List ℕ) (l l' : Line) : Type 0 where
  pub again : ℕ
  pub bound : suc again ≤ limit
  pub reply : RxPacket
  pub left : List Event
  pub heard : read_packet 0x31 (after_reads 0x31 again l.events) ≡ (ok reply, left)
  pub acknowledged : reply.ptype ≡ 0x59
  pub sent :
      Sent limit
        (parse_params reply.content)
        name
        bytes
        (record { events = left; written = l.written ++ copies init_packet (suc again) })
        l'

abbrev pub FileOutcome :
    (limit : ℕ) (name bytes : List ℕ) → (l : Line) → Result (List ℕ) × Port → Type 0
FileOutcome limit name bytes l r = elim r.0 [
  | ok n ↦ Transferred limit name bytes l (line r.1)
  | err e ↦ IsCode e
]

-- a reply that the exchange of parameters takes, and the parameters
abbrev pub IsInit : RxPacket → Params → Type 0
IsInit reply p = (reply.ptype ≡ 0x59) × (parse_params reply.content ≡ p)

FileOutcome-Outcome :
    (limit : ℕ) (name bytes : List ℕ) (l : Line) (reply : RxPacket) (left : List Event) (k : ℕ)
    (r : Result (List ℕ) × Port)
    → suc k ≤ limit
    → reply.ptype ≡ 0x59
    → read_packet 0x31 (after_reads 0x31 k l.events) ≡ (ok reply, left)
    → Outcome limit
        (parse_params reply.content)
        name
        bytes
        (record { events = left; written = l.written ++ copies init_packet (suc k) })
        r
    → FileOutcome limit name bytes l r
FileOutcome-Outcome limit name bytes l reply left k (ok n, s) le e run h = record {
  again = k;
  bound = le;
  reply = reply;
  left = left;
  heard = run;
  acknowledged = e;
  sent = h;
}
FileOutcome-Outcome limit name bytes l reply left k (err e', s) le e run h = h

accept_init-IsInit : (reply : RxPacket) (p : Params) → accept_init reply ≡ some p → IsInit reply p
unfolding accept_init
accept_init-IsInit reply p e = elim (Bool-cases (reply.ptype == ack)) [
  | inl y ↦
      let e' : some (parse_params reply.content) ≡ some p = rw y at e in
      (ground arith, ap (λ o. elim o [ none ↦ p | some q ↦ q ]) e')
  | inr other ↦ let e' : none ≡ some p = rw other at e in ground arith
]

-- send_file ends, whatever the port does. It fails with an error of the code, or the receiver acknowledged the exchange of parameters and every packet: the name, then the quoted file in parts that fit the budget and with consecutive numbers modulo 64, the end of the file and the end of the transfer. Each is written once or more and no more often than the tries allow, nothing else is written, and the next one follows a reply of type Y, which is what the port brought behind its last copy and, but for the exchange of parameters, has the packet's number.
pub send_file-Transferred :
    (max_retries : ℕ) (name bytes : List ℕ) (s : Port)
    → FileOutcome (max max_retries 1) name bytes (line s) (send_file max_retries name bytes s)
unfolding send_file exchange_init
send_file-Transferred max_retries name bytes s =
    let limit = max max_retries 1 in
    let att =
      attempts-Attempted init_packet 0x31 accept_init IsInit accept_init-IsInit limit no_response
        s in
    continue-post (exchange_init max_retries s) (λ p. send_with max_retries name bytes p)
      (λ r. FileOutcome limit name bytes (line s) r)
      (λ p s1 run.
        let a = subst (λ r. Attempted Params init_packet 0x31 IsInit limit s r) run att in
        let (k, count, reply, heard, (y, params)) = a.answered in
        let w : line s1
            ≡ record { events = s1.events; written = s.written ++ copies init_packet (suc k) } =
          subst
            (λ n.
              line s1 ≡ record { events = s1.events; written = s.written ++ copies init_packet n })
            count (ap (λ ws. record { events = s1.events; written = ws }) a.written) in
        FileOutcome-Outcome limit name bytes (line s) reply s1.events k
          (send_with max_retries name bytes p s1) (omega (arith, a.bound, count)) y heard
          (subst
            (λ q.
              Outcome limit q name bytes
                (record { events = s1.events; written = s.written ++ copies init_packet (suc k) })
                (send_with max_retries name bytes p s1))
            (sym params)
            (subst (λ l. Outcome limit p name bytes l (send_with max_retries name bytes p s1)) w
              (send_with-Outcome max_retries name bytes p s1))))
      (λ e s1 run.
        (subst (λ r. Attempted Params init_packet 0x31 IsInit limit s r) run att).answered)
