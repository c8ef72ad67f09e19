-- ===== src/Ihex/Delivery.antt =====
-- src/ihex.rs: the records of a program on the line, and a board that rejects some of them.
use rosco_cli.Prelude.{
  ℕ, zero, suc, ◌+◌, ◌-◌, ◌*◌, min, ◌≤◌, ◌<◌, ◌≡◌, ◌≢◌, ◌⊎◌, inl, inr, refl, sym, ap, ap₂, ◌∙◌,
  arith, false, ◌==◌, List, [], ◌∷◌, ◌++◌, append_assoc, append-nil,
}
use rosco_cli.Ihex.{record_length}
use rosco_cli.Ihex.Console.{
  accepted, rejected, got, Round, answered, wait_for_answer, Console, Report, sent, checksum_error,
  no_answer, read_error, write_error, line_of, after_answer, one_attempt, send_from, send_record,
  when_sent, send_records,
}
use rosco_cli.Ihex.Answers.{times, after_answers, Tried, send_record-Tried}

-- The lines `ws` are the records in their order, each at least once and `limit` times at most; the next one follows the answer `.` to the last copy, and they stop at the record that could not be sent.
abbrev pub Delivered :
    (limit : ℕ) (records ws : List (List ℕ)) (before after : List Round) → Report → Type 0
Delivered limit [] ws before after report = (ws ≡ []) × (report ≡ sent) × (before ≡ after)
Delivered limit (r ∷ rs) ws before after report =
    (k : ℕ) × (k ≤ limit)
    × (((report ≢ sent) × (ws ≡ times k (line_of r)))
        ⊎ ((i : ℕ) × (k ≡ suc i)
            × (middle : List Round) × (wait_for_answer (after_answers i before)
                ≡ (answered 0x2E, middle))
            × (ws' : List (List ℕ)) × (ws ≡ times k (line_of r) ++ ws')
            × Delivered limit rs ws' middle after report))

-- What was written from `before` on.
abbrev Wrote : (limit : ℕ) (records : List (List ℕ)) (c : Console) → Report × Console → Type 0
Wrote limit records c r =
    (ws : List (List ℕ)) × (r.1.written ≡ c.written ++ ws)
    × Delivered limit records ws c.rounds r.1.rounds r.0

when_sent-Wrote :
    (limit : ℕ) (record_text : List ℕ) (more : List (List ℕ)) (c : Console) (r : Report × Console)
    (next : Console → Report × Console)
    → Tried limit record_text c r
    → ((d : Console) → Wrote limit more d (next d))
    → Wrote limit (record_text ∷ more) c (when_sent r next)
unfolding when_sent
when_sent-Wrote limit record_text more c (sent, d) next t ih =
    let (ws, w, rest) = ih d in
    let (i, count, dot) = t.ended in
    let own = times t.tries (line_of record_text) in
    (
      own ++ ws,
      w ∙ ap (λ x. x ++ ws) t.written ∙ append_assoc c.written own ws,
      (t.tries, t.bound, inr (i, count, d.rounds, dot, ws, refl, rest)),
    )
when_sent-Wrote limit record_text more c (checksum_error, d) next t ih = (
  times t.tries (line_of record_text),
  t.written,
  (t.tries, t.bound, inl ((λ e. ground arith), refl)),
)
when_sent-Wrote limit record_text more c (no_answer, d) next t ih = (
  times t.tries (line_of record_text),
  t.written,
  (t.tries, t.bound, inl ((λ e. ground arith), refl)),
)
when_sent-Wrote limit record_text more c (read_error, d) next t ih = (
  times t.tries (line_of record_text),
  t.written,
  (t.tries, t.bound, inl ((λ e. ground arith), refl)),
)
when_sent-Wrote limit record_text more c (write_error, d) next t ih = (
  times t.tries (line_of record_text),
  t.written,
  (t.tries, t.bound, inl ((λ e. ground arith), refl)),
)

-- The loop over the records of a program puts them on the line in their order, each at least once and at most once more than `max_retries`; the next one follows the answer `.` to the last copy. It succeeds when all of them have been accepted; otherwise it stops at the record that could not be sent.
pub send_records-Delivered :
    (max_retries total index : ℕ) (records : List (List ℕ)) (c : Console)
    → (ws : List (List ℕ)) × ((send_records max_retries total index records c).1.written
        ≡ c.written ++ ws)
      × Delivered
          (max_retries + 1)
          records
          ws
          c.rounds
          (send_records max_retries total index records c).1.rounds
          (send_records max_retries total index records c).0
unfolding send_records
send_records-Delivered max_retries total index [] c =
    ([], sym (append-nil c.written), (refl, refl, refl))
send_records-Delivered max_retries total index (r ∷ rs) c =
    when_sent-Wrote (max_retries + 1) r rs c (send_record max_retries r c)
      (λ d.
        send_records max_retries total (index + 1) rs
          (record d { reported = d.reported ++ min total ((index + 1) * record_length) ∷ [] }))
      (send_record-Tried max_retries r c)
      (λ d.
        send_records-Delivered max_retries total (index + 1) rs
          (record d { reported = d.reported ++ min total ((index + 1) * record_length) ∷ [] }))

-- `n` rejections, and then the record is accepted
abbrev pub grudging : ℕ → List Round → List Round
grudging zero rs = record { reading = got accepted; late = false } ∷ rs
grudging (suc n) rs = record { reading = got rejected; late = false } ∷ grudging n rs

one_attempt-answer :
    (record_text : List ℕ) (again : Console → Report × Console) (c : Console) (b : ℕ)
    (rest : List Round)
    → 0 < c.writes_left
    → wait_for_answer c.rounds ≡ (answered b, rest)
    → one_attempt record_text again c
      ≡ after_answer (answered b) again (record {
        rounds = rest;
        writes_left = c.writes_left - 1;
        written = c.written ++ line_of record_text ∷ [];
        reported = c.reported;
      })
unfolding one_attempt
one_attempt-answer record_text again c b rest works run =
    let open_port : (c.writes_left == 0) ≡ false = ground arith in rw run (rw open_port refl)

send_from-recovers :
    (left n : ℕ) (record_text : List ℕ) (rest : List Round) (c : Console)
    → c.rounds ≡ grudging n rest
    → n ≤ left
    → n < c.writes_left
    → send_from left record_text c ≡ (
      sent,
      record {
        rounds = rest;
        writes_left = c.writes_left - suc n;
        written = c.written ++ times (suc n) (line_of record_text);
        reported = c.reported;
      },
    )
unfolding send_from after_answer wait_for_answer
send_from-recovers zero zero record_text rest c e le works =
    one_attempt-answer record_text (λ d. (checksum_error, d)) c accepted rest works (rw e refl)
send_from-recovers (suc left) zero record_text rest c e le works =
    one_attempt-answer record_text (send_from left record_text) c accepted rest works (rw e refl)
send_from-recovers zero (suc n) record_text rest c e le works = absurd (omega arith)
send_from-recovers (suc left) (suc n) record_text rest c e le works =
    let d : Console = record {
      rounds = grudging n rest;
      writes_left = c.writes_left - 1;
      written = c.written ++ line_of record_text ∷ [];
      reported = c.reported;
    } in
    one_attempt-answer record_text (send_from left record_text) c rejected (grudging n rest)
      (omega arith) (rw e refl)
    ∙ send_from-recovers left n record_text rest d refl (omega arith) (omega arith)
    ∙ ap₂
        (λ w t.
          (sent, record { rounds = rest; writes_left = w; written = t; reported = c.reported }))
        (omega arith)
        (append_assoc c.written (line_of record_text ∷ []) (times (suc n) (line_of record_text)))

-- A record that the board rejects up to `max_retries` times and then accepts is sent: send_record succeeds, has written one copy more than there were rejections, and has read no more than the answers.
pub send_record-recovers :
    (max_retries n : ℕ) (record_text : List ℕ) (rest : List Round) (c : Console)
    → c.rounds ≡ grudging n rest
    → n ≤ max_retries
    → n < c.writes_left
    → send_record max_retries record_text c ≡ (
      sent,
      record {
        rounds = rest;
        writes_left = c.writes_left - suc n;
        written = c.written ++ times (suc n) (line_of record_text);
        reported = c.reported;
      },
    )
unfolding send_record
send_record-recovers max_retries n record_text rest c e le works =
    send_from-recovers max_retries n record_text rest c e le works
