-- ===== src/Ihex/Answers.antt =====
-- src/ihex.rs: how often a record is sent, and what is on the line when all have been.
use rosco_cli.Prelude.{
  ℕ, zero, suc, ◌+◌, ◌-◌, ◌≤◌, ◌≡◌, inl, inr, refl, sym, ap, subst, ◌∙◌, arith, ◌==◌, List, [], ◌∷◌,
  ◌++◌, Bool-cases, append_assoc, append-nil,
}
use rosco_cli.Ihex.Console.{
  accepted, Round, Answer, answered, stopped_answering, could_not_read, wait_for_answer, Console,
  Report, sent, checksum_error, no_answer, read_error, write_error, line_of, after_answer,
  one_attempt, send_from, send_record,
}

-- `n` times the same line
abbrev pub times : ℕ → List ℕ → List (List ℕ)
times zero line = []
times (suc n) line = line ∷ times n line

-- what is left of the input when `k` answers have been waited for
abbrev pub after_answers : (k : ℕ) → List Round → List Round
after_answers zero rs = rs
after_answers (suc k) rs = after_answers k (wait_for_answer rs).1

-- What stands behind the end of the attempts: success follows the answer `.`, which is what the board gives when the last copy has been written, and a checksum error means that every attempt was used.
abbrev pub Ended : (limit tries : ℕ) → (before after : List Round) → Report → Type 0
Ended limit tries before after sent =
    (i : ℕ) × (tries ≡ suc i) × (wait_for_answer (after_answers i before) ≡ (answered 0x2E, after))
Ended limit tries before after checksum_error = tries ≡ limit
Ended limit tries before after no_answer = Unit
Ended limit tries before after read_error = Unit
Ended limit tries before after write_error = Unit

pub record Tried (limit : ℕ) (record_text : List ℕ) (c : Console) (r : Report × Console)
    : Type 0 where
  pub tries : ℕ
  pub bound : tries ≤ limit
  pub written : r.1.written ≡ c.written ++ times tries (line_of record_text)
  pub reported : r.1.reported ≡ c.reported
  pub ended : Ended limit tries c.rounds r.1.rounds r.0

Ended-suc :
    (limit tries : ℕ) (before after : List Round) (r : Report)
    → Ended limit tries (wait_for_answer before).1 after r
    → Ended (suc limit) (suc tries) before after r
Ended-suc limit tries before after sent (i, h, e) = (suc i, ap suc h, e)
Ended-suc limit tries before after checksum_error h = omega arith
Ended-suc limit tries before after no_answer h = tt
Ended-suc limit tries before after read_error h = tt
Ended-suc limit tries before after write_error h = tt

module _ (record_text : List ℕ) where
  Tried-more :
      (limit : ℕ) (c d : Console) (r : Report × Console)
      → d.written ≡ c.written ++ line_of record_text ∷ []
      → d.reported ≡ c.reported
      → (wait_for_answer c.rounds).1 ≡ d.rounds
      → Tried limit record_text d r
      → Tried (suc limit) record_text c r
  Tried-more limit c d r w p h t = record {
    tries = suc t.tries;
    bound = omega (arith, t.bound);
    written =
        t.written
        ∙ ap (λ ws. ws ++ times t.tries (line_of record_text)) w
        ∙ append_assoc c.written (line_of record_text ∷ []) (times t.tries (line_of record_text));
    reported = t.reported ∙ p;
    ended =
        Ended-suc limit t.tries c.rounds r.1.rounds r.0
          (subst (λ rs. Ended limit t.tries rs r.1.rounds r.0) (sym h) t.ended);
  }

  -- the first copy is on the line, and this answer came
  after_answer-Tried :
      (limit : ℕ) (c d : Console) (answer : Answer) (again : Console → Report × Console)
      → d.written ≡ c.written ++ line_of record_text ∷ []
      → d.reported ≡ c.reported
      → wait_for_answer c.rounds ≡ (answer, d.rounds)
      → Tried limit record_text d (again d)
      → Tried (suc limit) record_text c (after_answer answer again d)
  unfolding after_answer
  after_answer-Tried limit c d (answered b) again w p run ih = elim (Bool-cases (b == accepted)) [
    | inl dot ↦
        let e : b ≡ 0x2E = ground arith in
        rw dot (record {
          tries = 1;
          bound = omega arith;
          written = w;
          reported = p;
          ended = (0, refl, run ∙ ap (λ x. (answered x, d.rounds)) e);
        })
    | inr other ↦ rw other (Tried-more limit c d (again d) w p (ap (λ x. x.1) run) ih)
  ]
  after_answer-Tried limit c d stopped_answering again w p run ih = record {
    tries = 1;
    bound = omega arith;
    written = w;
    reported = p;
    ended = tt;
  }
  after_answer-Tried limit c d could_not_read again w p run ih = record {
    tries = 1;
    bound = omega arith;
    written = w;
    reported = p;
    ended = tt;
  }

  one_attempt-Tried :
      (limit : ℕ) (c : Console) (again : Console → Report × Console)
      → ((d : Console) → Tried limit record_text d (again d))
      → Tried (suc limit) record_text c (one_attempt record_text again c)
  unfolding one_attempt
  one_attempt-Tried limit c again ih = elim (Bool-cases (c.writes_left == 0)) [
    | inl shut ↦ rw shut (record {
      tries = 0;
      bound = omega arith;
      written = sym (append-nil c.written);
      reported = refl;
      ended = tt;
    })
    | inr works ↦
        let (answer, rest) = wait_for_answer c.rounds in
        let d : Console = record {
          rounds = rest;
          writes_left = c.writes_left - 1;
          written = c.written ++ line_of record_text ∷ [];
          reported = c.reported;
        } in
        rw works (after_answer-Tried limit c d answer again refl refl refl (ih d))
  ]

  send_from-Tried :
      (left : ℕ) (c : Console) → Tried (suc left) record_text c (send_from left record_text c)
  unfolding send_from
  send_from-Tried zero c =
      one_attempt-Tried 0 c (λ d. (checksum_error, d))
        (λ d. record {
          tries = 0;
          bound = omega arith;
          written = sym (append-nil d.written);
          reported = refl;
          ended = refl;
        })
  send_from-Tried (suc left) c =
      one_attempt-Tried (suc left) c (send_from left record_text) (λ d. send_from-Tried left d)

-- send_record writes the line at most once more than `max_retries`, and nothing else. It succeeds only when `.` answered the last copy, and it reports a checksum error only when it has used every attempt.
pub send_record-Tried :
    (max_retries : ℕ) (record_text : List ℕ) (c : Console)
    → Tried (max_retries + 1) record_text c (send_record max_retries record_text c)
unfolding send_record
send_record-Tried max_retries record_text c =
    subst (λ n. Tried n record_text c (send_from max_retries record_text c)) (omega arith)
      (send_from-Tried record_text max_retries c)
