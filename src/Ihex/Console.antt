-- ===== src/Ihex/Console.antt =====
-- src/ihex.rs: sending the records one at a time, and the answers of the monitor.
use rosco_cli.Prelude.{
  ℕ, zero, suc, ◌+◌, ◌-◌, ◌*◌, min, Bool, ◌||◌, ◌==◌, if◌then◌else◌, List, [], ◌∷◌, ◌++◌,
}
use rosco_cli.Ihex.{record_length}

-- '.' and 'X'
abbrev pub accepted : ℕ
accepted = 0x2E

abbrev pub rejected : ℕ
rejected = 0x58

-- what one read of one byte gives: a byte, nothing (or an error that is_quiet accepts), another error
pub data ByteRead : Type 0 where
  got : ℕ → ByteRead
  quiet : ByteRead
  broken : ByteRead

-- one round of the loop in wait_for_answer; `late` is the test of the deadline behind the read
pub record Round : Type 0 where
  pub reading : ByteRead
  pub late : Bool

pub data Answer : Type 0 where
  answered : ℕ → Answer
  stopped_answering : Answer
  could_not_read : Answer

-- Behind the end of the list the board stays quiet until the deadline has passed.
unfoldable pub wait_for_answer : List Round → Answer × List Round
wait_for_answer [] = (stopped_answering, [])
wait_for_answer (r ∷ rs) =
    let rest = wait_for_answer rs in
    let next = if r.late then (stopped_answering, rs) else rest in
    elim r.reading [
      | got b ↦ if b == accepted || b == rejected then (answered b, rs) else next
      | quiet ↦ next
      | broken ↦ (could_not_read, rs)
    ]

-- the console: what reading will meet, how many writes it takes until it fails, what was written to it, and
-- the numbers of bytes that were reported as sent
pub record Console : Type 0 where
  pub rounds : List Round
  pub writes_left : ℕ
  pub written : List (List ℕ)
  pub reported : List ℕ

-- Ok(()), or the error
pub data Report : Type 0 where
  sent : Report
  checksum_error : Report
  no_answer : Report
  read_error : Report
  write_error : Report

-- `{record}\r\n`
unfoldable pub line_of : List ℕ → List ℕ
line_of record_text = record_text ++ 0x0D ∷ 0x0A ∷ []

-- the arms of the `match`; `again` is what a rejection leads to
unfoldable pub after_answer :
    Answer → (again : Console → Report × Console) → Console → Report × Console
after_answer (answered b) again c = if b == accepted then (sent, c) else again c
after_answer stopped_answering again c = (no_answer, c)
after_answer could_not_read again c = (read_error, c)

-- write_record, and the answer to it
unfoldable pub one_attempt :
    (record_text : List ℕ) (again : Console → Report × Console) → Console → Report × Console
one_attempt record_text again c =
    let (answer, rest) = wait_for_answer c.rounds in
    if c.writes_left == 0
    then (write_error, c)
    else after_answer answer again (record {
      rounds = rest;
      writes_left = c.writes_left - 1;
      written = c.written ++ line_of record_text ∷ [];
      reported = c.reported;
    })

-- the loop, with `left` attempts behind this one
unfoldable pub send_from : (left : ℕ) (record_text : List ℕ) → Console → Report × Console
send_from zero record_text c = one_attempt record_text (λ d. (checksum_error, d)) c
send_from (suc left) record_text c = one_attempt record_text (send_from left record_text) c

unfoldable pub send_record : (max_retries : ℕ) (record_text : List ℕ) → Console → Report × Console
send_record max_retries record_text c = send_from max_retries record_text c

-- the operator `?` and the report of progress behind a record
unfoldable pub when_sent : Report × Console → (Console → Report × Console) → Report × Console
when_sent (sent, c) next = next c
when_sent (checksum_error, c) next = (checksum_error, c)
when_sent (no_answer, c) next = (no_answer, c)
when_sent (read_error, c) next = (read_error, c)
when_sent (write_error, c) next = (write_error, c)

-- the loop over the records in send_program; `total` is the number of bytes
unfoldable pub send_records :
    (max_retries total index : ℕ) → List (List ℕ) → Console → Report × Console
send_records max_retries total index [] c = (sent, c)
send_records max_retries total index (r ∷ rs) c = when_sent (send_record max_retries r c) (λ d.
    send_records max_retries total (index + 1) rs
      (record d { reported = d.reported ++ min total ((index + 1) * record_length) ∷ [] }))
