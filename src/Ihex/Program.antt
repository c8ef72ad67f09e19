-- ===== src/Ihex/Program.antt =====
-- src/ihex.rs: send_program, the dialogue with the monitor from its command `L` to the start of the program.
-- A text that was read is the list of its bytes; what is looked for in it is ASCII. settle throws away what
-- it reads, and the pauses are not modelled.
use rosco_cli.Prelude.{
  ℕ, ◌-◌, Bool, true, false, ◌||◌, ◌&&◌, ◌==◌, if◌then◌else◌, Option, none, some, List, [], ◌∷◌,
  ◌++◌, length, codes,
}
use rosco_cli.Ihex.{hex4, end_of_file, records}
use rosco_cli.Ihex.Console.{
  Console, Report, sent, checksum_error, no_answer, read_error, write_error, line_of, when_sent,
  send_records,
}

abbrev pub ready : List ℕ
ready = codes "Start Intel hex file load:"

abbrev pub load_word : List ℕ
load_word = codes "Load "

abbrev pub succeeded : List ℕ
succeeded = codes "successful"

-- what one read into the buffer gives: bytes, nothing (or an error that is_quiet accepts), another error
pub data TextRead : Type 0 where
  chunk : List ℕ → TextRead
  nothing : TextRead
  failing : TextRead

-- one round of a loop that reads text; `late` is the next test of the loop's deadline
pub record TextRound : Type 0 where
  pub reading : TextRead
  pub late : Bool

unfoldable pub starts_with : (needle text : List ℕ) → Bool
starts_with [] text = true
starts_with (c ∷ cs) [] = false
starts_with (c ∷ cs) (d ∷ ds) = c == d && starts_with cs ds

-- for a needle that is not empty
unfoldable pub contains : (needle text : List ℕ) → Bool
contains needle [] = false
contains needle (c ∷ cs) = starts_with needle (c ∷ cs) || contains needle cs

-- `rfind`, and the text from there on
unfoldable pub last_of : Option (List ℕ) → (needle text : List ℕ) → Option (List ℕ)
last_of (some rest) needle text = some rest
last_of none needle text = if starts_with needle text then some text else none

unfoldable pub rfind : (needle text : List ℕ) → Option (List ℕ)
rfind needle [] = none
rfind needle (c ∷ cs) = last_of (rfind needle cs) needle (c ∷ cs)

pub data Waited : Type 0 where
  heard : List ℕ → Waited
  nothing_came : Waited
  text_unread : Waited

-- Behind the end of the list nothing comes until the deadline has passed.
unfoldable pub wait_for : (needle seen : List ℕ) → List TextRound → Waited × List TextRound
wait_for needle seen [] = (nothing_came, [])
wait_for needle seen (r ∷ rs) = elim r.reading [
  | chunk text ↦
      let rest = wait_for needle (seen ++ text) rs in
      if contains needle (seen ++ text)
      then (heard (seen ++ text), rs)
      else if r.late
      then (nothing_came, rs)
      else rest
  | nothing ↦ let rest = wait_for needle seen rs in if r.late then (nothing_came, rs) else rest
  | failing ↦ (text_unread, rs)
]

-- the test that ends the loop early
unfoldable pub line_ends : List ℕ → Bool
line_ends seen = contains succeeded seen || contains (codes "error") seen

-- the loop of read_rest_of_line
unfoldable pub read_line : (seen : List ℕ) → List TextRound → List ℕ
read_line seen [] = seen
read_line seen (r ∷ rs) = elim r.reading [
  | chunk text ↦
      let rest = read_line (seen ++ text) rs in
      if line_ends (seen ++ text) || r.late then seen ++ text else rest
  | nothing ↦ let rest = read_line seen rs in if line_ends seen || r.late then seen else rest
  | failing ↦ seen
]

unfoldable pub from_last : Option (List ℕ) → (seen : List ℕ) → List ℕ
from_last (some rest) seen = rest
from_last none seen = seen

unfoldable pub read_rest_of_line : (seen : List ℕ) → List TextRound → List ℕ
read_rest_of_line seen rs = from_last (rfind load_word (read_line seen rs)) (read_line seen rs)

abbrev pub put : List ℕ → Console → Console
put bytes c = record {
  rounds = c.rounds;
  writes_left = c.writes_left - 1;
  written = c.written ++ bytes ∷ [];
  reported = c.reported;
}

-- `write`
unfoldable pub write_text : List ℕ → Console → Report × Console
write_text text c = if c.writes_left == 0 then (write_error, c) else (sent, put text c)

-- the loop of write_command: one byte a write
unfoldable pub write_keys : List ℕ → Console → Report × Console
write_keys [] c = (sent, c)
write_keys (b ∷ bs) c = when_sent (write_text (b ∷ []) c) (write_keys bs)

unfoldable pub write_command : List ℕ → Console → Report × Console
write_command command c = write_keys (command ++ 0x0D ∷ []) c

-- Ok(()), or the error
pub data LoadOutcome : Type 0 where
  started : LoadOutcome
  nothing_to_load : LoadOutcome
  too_long : LoadOutcome
  no_offer : LoadOutcome
  not_sent : Report → LoadOutcome
  no_report : LoadOutcome
  rejected_transfer : List ℕ → LoadOutcome

-- the operator `?` behind something written
unfoldable pub when_written :
    Report × Console → (Console → LoadOutcome × Console) → LoadOutcome × Console
when_written (sent, c) next = next c
when_written (checksum_error, c) next = (not_sent checksum_error, c)
when_written (no_answer, c) next = (not_sent no_answer, c)
when_written (read_error, c) next = (not_sent read_error, c)
when_written (write_error, c) next = (not_sent write_error, c)

-- the operator `?` behind wait_for, with its context
unfoldable pub when_heard :
    Waited × List TextRound
    → LoadOutcome
    → Console
    → (List ℕ → List TextRound → LoadOutcome × Console)
    → LoadOutcome × Console
when_heard (heard seen, rs) context c next = next seen rs
when_heard (nothing_came, rs) context c next = (context, c)
when_heard (text_unread, rs) context c next = (context, c)

unfoldable pub start_program : (load_address : ℕ) → Console → LoadOutcome × Console
start_program load_address c =
    when_written (write_command (hex4 load_address ++ 0x52 ∷ []) c) (λ d. (started, d))

-- behind the last record: what the monitor says of the load, and the command that starts the program
unfoldable pub finish_load : (load_address : ℕ) → List TextRound → Console → LoadOutcome × Console
finish_load load_address report c = when_written (write_text (line_of end_of_file) c) (λ d.
    when_heard (wait_for load_word [] report) no_report d (λ seen rs.
      let line = read_rest_of_line seen rs in
      if contains succeeded line
      then start_program load_address d
      else (rejected_transfer line, d)))

-- from the command `L` on
unfoldable pub load_records :
    (max_retries load_address total : ℕ)
    → (lines : List (List ℕ)) → (offer report : List TextRound) → Console
    → LoadOutcome × Console
load_records max_retries load_address total lines offer report c =
    when_written (write_command (codes "L") c) (λ d.
      when_heard (wait_for ready [] offer) no_offer d (λ seen rs.
        when_written
          (send_records max_retries total 0 lines (record d { reported = d.reported ++ 0 ∷ [] }))
          (finish_load load_address report)))

unfoldable pub with_records :
    Option (List (List ℕ))
    → Console
    → (List (List ℕ) → LoadOutcome × Console)
    → LoadOutcome × Console
with_records none c next = (too_long, c)
with_records (some lines) c next = next lines

-- `offer` and `report` are what the two calls of wait_for, and read_rest_of_line, meet
unfoldable pub send_program :
    (max_retries load_address : ℕ)
    → (bytes : List ℕ) → (offer report : List TextRound) → Console
    → LoadOutcome × Console
send_program max_retries load_address bytes offer report c =
    if length bytes == 0
    then (nothing_to_load, c)
    else with_records (records bytes load_address) c
        (λ lines. load_records max_retries load_address (length bytes) lines offer report c)
