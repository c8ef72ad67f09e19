-- ===== src/Kermit/Retries.antt =====
-- src/kermit.rs: how often a packet is written, and what ends the tries.
use rosco_cli.Prelude.{
  ℕ, zero, suc, ◌-◌, ◌≤◌, ◌≡◌, inl, inr, refl, sym, ap, ◌∙◌, arith, max, Option, none, some, ◌&&◌,
  ◌%◌, subst, ◌==◌, List, [], ◌∷◌, ◌++◌, Bool-cases, Option-cases, append_assoc, append-nil,
}
use rosco_cli.Kermit.{Params, RxPacket, build_packet}
use rosco_cli.Kermit.Port.{
  Event, Error, transfer_cancelled, could_not_write, no_response, unexpected_reply, remote_error,
  exhausted, stuck, Result, ok, err, read_packet,
}
use rosco_cli.Kermit.Transfer.{
  Port, Sender, continue, check_cancel, flagged, write_all, judge, judge_reply, attempts,
  accept_ack, send_and_ack, remote_failure, ack,
}

-- `n` times the same packet
abbrev pub copies : List ℕ → ℕ → List (List ℕ)
copies packet zero = []
copies packet (suc n) = packet ∷ copies packet n

-- The error is one of the code's.
abbrev pub IsCode : Error → Type 0
IsCode e = elim e [ stuck ↦ ⊥ | _ ↦ Unit ]

-- what is left of the input when `k` packets have been waited for
abbrev pub after_reads : (chkt k : ℕ) → List Event → List Event
after_reads chkt zero es = es
after_reads chkt (suc k) es = after_reads chkt k (read_packet chkt es).1

-- What stands behind the result of the tries: a reply with the property, which is what the port brought when the packet had been written the last time; or an error of the code.
abbrev pub Answered :
    {A : Type 0}
    → (chkt : ℕ) → (RxPacket → A → Type 0)
    → (tries : ℕ) → (before after : List Event) → Result A
    → Type 0
Answered chkt Good tries before after (ok a) =
    (k : ℕ) × (tries ≡ suc k)
    × (reply : RxPacket) × (read_packet chkt (after_reads chkt k before) ≡ (ok reply, after))
    × Good reply a
Answered chkt Good tries before after (err e) = IsCode e

-- What tries to send a packet leave: copies of it on the port, and nothing else.
pub record Attempted (A : Type 0) (packet : List ℕ) (chkt : ℕ) (Good : RxPacket → A → Type 0)
    (limit : ℕ) (s : Port) (r : Result A × Port) : Type 0 where
  pub tries : ℕ
  pub bound : tries ≤ limit
  pub written : r.1.written ≡ s.written ++ copies packet tries
  pub reported : r.1.reported ≡ s.reported
  pub answered : Answered chkt Good tries s.events r.1.events r.0

module _ {A : Type 0} (packet : List ℕ) (chkt : ℕ) (accept : RxPacket → Option A)
    (Good : RxPacket → A → Type 0)
    (sound : (reply : RxPacket) (a : A) → accept reply ≡ some a → Good reply a) where
  Attempted-none :
      (limit : ℕ) (s : Port) (e : Error)
      → IsCode e
      → Attempted A packet chkt Good limit s (err e, s)
  Attempted-none limit s e code = record {
    tries = 0;
    bound = omega arith;
    written = sym (append-nil s.written);
    reported = refl;
    answered = code;
  }

  -- one reading more in front of the others
  Answered-suc :
      (tries : ℕ) (before after : List Event) (r : Result A)
      → Answered chkt Good tries (read_packet chkt before).1 after r
      → Answered chkt Good (suc tries) before after r
  Answered-suc tries before after (ok a) (k, e, reply, run, good) =
      (suc k, ap suc e, reply, run, good)
  Answered-suc tries before after (err e) h = h

  -- one more copy in front of the others
  Attempted-more :
      (limit : ℕ) (s s1 : Port) (r : Result A × Port)
      → s1.written ≡ s.written ++ packet ∷ []
      → s1.reported ≡ s.reported
      → (read_packet chkt s.events).1 ≡ s1.events
      → Attempted A packet chkt Good limit s1 r
      → Attempted A packet chkt Good (suc limit) s r
  Attempted-more limit s s1 r w p ev a = record {
    tries = suc a.tries;
    bound = omega (arith, a.bound);
    written =
        a.written
        ∙ ap (λ ws. ws ++ copies packet a.tries) w
        ∙ append_assoc s.written (packet ∷ []) (copies packet a.tries);
    reported = a.reported ∙ p;
    answered =
        Answered-suc a.tries s.events r.1.events r.0
          (subst (λ es. Answered chkt Good a.tries es r.1.events r.0) (sym ev) a.answered);
  }

  -- one copy was written, and this reply was read
  judge-Attempted :
      (limit : ℕ) (s s1 : Port) (again : Error → Sender A) (x : Result RxPacket) (es : List Event)
      → s1.written ≡ s.written ++ packet ∷ []
      → s1.reported ≡ s.reported
      → read_packet chkt s.events ≡ (x, es)
      → ((e : Error) (s2 : Port) → Attempted A packet chkt Good limit s2 (again e s2))
      → Attempted A packet chkt Good
          (suc limit)
          s
          (judge accept x again (record s1 { events = es }))
  unfolding judge judge_reply
  judge-Attempted limit s s1 again (err e) es w p run ih =
      Attempted-more limit s (record s1 { events = es }) (again e (record s1 { events = es })) w p
        (ap (λ r. r.1) run) (ih e (record s1 { events = es }))
  judge-Attempted limit s s1 again (ok reply) es w p run ih =
      let s2 = record s1 { events = es } in
      let ev = ap (λ r. r.1) run in
      elim (Option-cases (accept reply)) [
        | inr (a, e) ↦ rw e (record {
          tries = 1;
          bound = omega arith;
          written = w;
          reported = p;
          answered = (0, refl, reply, run, sound reply a e);
        })
        | inl none_of ↦ rw none_of (elim (Bool-cases (reply.ptype == remote_failure)) [
          | inl remote ↦
              let e = remote_error reply.content in
              rw remote
                (Attempted-more limit s s2 (err e, s2) w p ev (Attempted-none limit s2 e tt))
          | inr other ↦ rw other (
              Attempted-more limit s s2 (again unexpected_reply s2) w p ev (ih unexpected_reply s2))
        ])
      ]

  pub attempts-Attempted :
      (left : ℕ) (last_error : Error) (s : Port)
      → Attempted A packet chkt Good left s (attempts packet chkt accept left last_error s)
  unfolding attempts continue check_cancel write_all
  attempts-Attempted zero last_error s = Attempted-none 0 s (exhausted last_error) tt
  attempts-Attempted (suc n) last_error s = elim (Bool-cases (flagged s.events)) [
    | inl stop ↦ rw stop (Attempted-none (suc n) s transfer_cancelled tt)
    | inr live ↦ rw live (elim (Bool-cases (s.writes_left == 0)) [
      | inl broken ↦ rw broken (Attempted-none (suc n) s could_not_write tt)
      | inr works ↦
          let s1 = record s {
            writes_left = s.writes_left - 1;
            written = s.written ++ packet ∷ [];
          } in
          rw works (
            judge-Attempted n s s1 (attempts packet chkt accept n) (read_packet chkt s.events).0
              (read_packet chkt s.events).1 refl refl refl (attempts-Attempted n))
    ])
  ]

-- a reply of type Y with the number `seq` modulo 64
abbrev pub IsAck : (seq : ℕ) → RxPacket → Unit {0} → Type 0
IsAck seq reply a = (reply.ptype ≡ 0x59) × (reply.seq ≡ seq % 64)

accept_ack-IsAck :
    (seq : ℕ) (reply : RxPacket) (a : Unit {0}) → accept_ack seq reply ≡ some a → IsAck seq reply a
unfolding accept_ack
accept_ack-IsAck seq reply a h = elim (Bool-cases (reply.ptype == ack && reply.seq == seq % 64)) [
  | inl y ↦ (ground arith, ground arith)
  | inr n ↦ let e : none ≡ some a = rw n at h in absurd (ground arith)
]

-- send_and_ack writes the packet at most `max_retries` times, or once if that is 0, and nothing else. It succeeds only on a reply of type Y with the packet's number modulo 64, which is what the port brings when one packet has been waited for behind each earlier copy, and it reads no further.
pub send_and_ack-Attempted :
    (max_retries seq ptype : ℕ) (content : List ℕ) (params : Params) (s : Port)
    → Attempted Unit
        (build_packet seq ptype content params)
        params.chkt
        (IsAck seq)
        (max max_retries 1)
        s
        (send_and_ack max_retries seq ptype content params s)
unfolding send_and_ack
send_and_ack-Attempted max_retries seq ptype content params s =
    attempts-Attempted (build_packet seq ptype content params) params.chkt (accept_ack seq)
      (IsAck seq) (accept_ack-IsAck seq) (max max_retries 1) no_response s
