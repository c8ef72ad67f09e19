-- ===== src/Ihex/Willing.antt =====
-- src/ihex.rs: a monitor that offers to load, accepts every record in the end and reports success.
use rosco_cli.Prelude.{
  ℕ, suc, ◌+◌, ◌-◌, ◌*◌, min, ◌≤◌, ◌<◌, ◌≡◌, refl, sym, ap, ◌∙◌, arith, true, false, ◌==◌, some,
  Option, List, [], ◌∷◌, ◌++◌, length, codes, All, append_assoc, append-nil,
}
use rosco_cli.Ihex.{record_length, hex4, end_of_file, records}
use rosco_cli.Ihex.Console.{Round, Console, sent, line_of, when_sent, send_records}
use rosco_cli.Ihex.Answers.{times}
use rosco_cli.Ihex.Delivery.{grudging, send_record-recovers}
use rosco_cli.Ihex.Program.{
  ready, load_word, starts_with, contains, put, write_text, write_keys, write_command, started,
  when_written, when_heard, start_program, finish_load, load_records, with_records, send_program,
}
use rosco_cli.Ihex.Typing.{keys, run_command, write_keys-sent}
use rosco_cli.Ihex.Chunks.{arriving, whole_text, wait_for-arriving}
use rosco_cli.Ihex.Words.{success, IsQuiet, HasNoLoad, read_rest_of_line-success}
use rosco_cli.Ihex.Hearing.{contains-append}

-- the answers to the records: each is rejected so many times, and then accepted
abbrev pub rejections : List ℕ → List Round
rejections [] = []
rejections (n ∷ ns) = grudging n (rejections ns)

-- how often a record is written then
abbrev pub copies : List ℕ → ℕ
copies [] = 0
copies (n ∷ ns) = suc n + copies ns

-- each line as often as it was rejected, and once more
abbrev pub repeated : (ns : List ℕ) (lines : List (List ℕ)) → List (List ℕ)
repeated [] lines = []
repeated (n ∷ ns) [] = []
repeated (n ∷ ns) (r ∷ rs) = times (suc n) (line_of r) ++ repeated ns rs

-- `k` writes fewer are left, and the answers are the same
abbrev Typed : (k : ℕ) (c d : Console) → Type 0
Typed k c d = (d.rounds ≡ c.rounds) × (d.writes_left ≡ c.writes_left - k)

write_text-works :
    (text : List ℕ) (c : Console) → 0 < c.writes_left → write_text text c ≡ (sent, put text c)
unfolding write_text
write_text-works text c h = let e : (c.writes_left == 0) ≡ false = ground arith in rw e refl

write_keys-works :
    (bs : List ℕ) (c : Console)
    → length bs ≤ c.writes_left
    → (d : Console) × (write_keys bs c ≡ (sent, d)) × Typed (length bs) c d
unfolding write_keys when_sent
write_keys-works [] c h = (c, refl, (refl, omega arith))
write_keys-works (b ∷ bs) c h =
    let (d, e, (rounds, left)) = write_keys-works bs (put (b ∷ []) c) (omega arith) in
    (d, rw (write_text-works (b ∷ []) c (omega arith)) e, (rounds, omega (arith, left)))

send_records-works :
    (max_retries total index : ℕ) (lines : List (List ℕ)) (ns : List ℕ) (c : Console)
    → c.rounds ≡ rejections ns
    → length ns ≡ length lines
    → All (λ n. n ≤ max_retries) ns
    → copies ns ≤ c.writes_left
    → (d : Console) × (send_records max_retries total index lines c ≡ (sent, d))
      × (d.writes_left ≡ c.writes_left - copies ns)
      × (d.written ≡ c.written ++ repeated ns lines)
unfolding send_records when_sent
send_records-works max_retries total index [] [] c e len small left =
    (c, refl, omega arith, sym (append-nil c.written))
send_records-works max_retries total index [] (n ∷ ns) c e len small left =
    absurd (omega (arith, len))
send_records-works max_retries total index (r ∷ rs) [] c e len small left =
    absurd (omega (arith, len))
send_records-works max_retries total index (r ∷ rs) (n ∷ ns) c e len (le, small) left =
    let d : Console = record {
      rounds = rejections ns;
      writes_left = c.writes_left - suc n;
      written = c.written ++ times (suc n) (line_of r);
      reported = c.reported ++ min total ((index + 1) * record_length) ∷ [];
    } in
    let (f, run, rest, on_line) =
      send_records-works max_retries total (index + 1) rs ns d refl (omega (arith, len)) small
        (omega arith) in
    (
      f,
      rw (send_record-recovers max_retries n r (rejections ns) c e le (omega arith)) run,
      omega (arith, rest),
      on_line ∙ append_assoc c.written (times (suc n) (line_of r)) (repeated ns rs),
    )

start_program-starts :
    (load_address : ℕ) (c : Console)
    → 6 ≤ c.writes_left
    → (d : Console) × (start_program load_address c ≡ (started, d))
      × (d.written ≡ c.written ++ keys (run_command load_address))
unfolding start_program write_command when_written
start_program-starts load_address c left =
    let size : length (run_command load_address) ≤ c.writes_left = unfold hex4 in left in
    let (d, e, same) = write_keys-works (run_command load_address) c size in
    (d, rw e refl, write_keys-sent (run_command load_address) c d e)

finish_load-starts :
    (load_address : ℕ) (before post : List ℕ) (report : List (Option (List ℕ))) (c : Console)
    → IsQuiet before
    → HasNoLoad post
    → whole_text report ≡ before ++ success ++ post
    → 7 ≤ c.writes_left
    → (d : Console) × (finish_load load_address (arriving report) c ≡ (started, d))
      × (d.written ≡ c.written ++ line_of end_of_file ∷ [] ++ keys (run_command load_address))
unfolding finish_load when_written when_heard contains starts_with
finish_load-starts load_address before post report c clean no_load text left =
    let named : contains load_word (whole_text report) ≡ true = rw text (
      rw (append_assoc before success post)
        (contains-append load_word before (success ++ post) refl)) in
    let (seen, rest, run, e) = wait_for-arriving load_word report named in
    let (d, started_it, typed) =
      start_program-starts load_address (put (line_of end_of_file) c) (omega arith) in
    (
      d,
      rw (write_text-works (line_of end_of_file) c (omega arith)) (
          rw run (
            rw (read_rest_of_line-success before post seen rest clean no_load (e ∙ text))
              started_it)),
      typed,
    )

-- The program is started, and the command `L`, each record once more than it was rejected, the record that ends the file and the command to run the program are written and nothing else, if there are bytes and their records, what comes before the deadline holds the monitor's offer to load, each record is rejected `max_retries` times at most before it is accepted, what comes behind the last record is `Load successful` with something before and behind it, and there are writes enough that succeed. Both texts arrive in pieces of any size, with rounds between them in which nothing comes. Before `Load successful` there is no `s` and no `e`, with which the words begin that end the line, and behind it there is no `L`.
pub send_program-starts :
    (max_retries load_address : ℕ) (bytes : List ℕ) (lines : List (List ℕ))
    (offer report : List (Option (List ℕ))) (before post : List ℕ) (ns : List ℕ) (c : Console)
    → 0 < length bytes
    → records bytes load_address ≡ some lines
    → contains ready (whole_text offer) ≡ true
    → IsQuiet before
    → HasNoLoad post
    → whole_text report ≡ before ++ success ++ post
    → c.rounds ≡ rejections ns
    → length ns ≡ length lines
    → All (λ i. i ≤ max_retries) ns
    → copies ns + 9 ≤ c.writes_left
    → (d : Console) × (send_program max_retries load_address bytes
          (arriving offer)
          (arriving report)
          c
        ≡ (started, d))
      × (d.written
          ≡ c.written
            ++ keys (codes "L" ++ 0x0D ∷ [])
            ++ repeated ns lines
            ++ line_of end_of_file ∷ []
            ++ keys (run_command load_address))
unfolding send_program load_records with_records when_written when_heard write_command
send_program-starts max_retries load_address bytes lines offer report before post ns c some_bytes
      made offered clean no_load text e len small left =
    let full : (length bytes == 0) ≡ false = ground arith in
    let (d, typed, (rounds, d_left)) = write_keys-works (codes "L" ++ 0x0D ∷ []) c (omega arith) in
    let d' : Console = record d { reported = d.reported ++ 0 ∷ [] } in
    let (seen, rest, heard_it, whole) = wait_for-arriving ready offer offered in
    let (f, run, f_left, on_line) =
      send_records-works max_retries (length bytes) 0 lines ns d' (rounds ∙ e) len small
        (omega (arith, d_left)) in
    let (g, started_it, done) =
      finish_load-starts load_address before post report f clean no_load text
        (omega (arith, d_left, f_left)) in
    let tail : List (List ℕ) → List (List ℕ) =
      λ l. l ++ line_of end_of_file ∷ [] ++ keys (run_command load_address) in
    (
      g,
      rw full (rw made (rw typed (rw heard_it (rw run started_it)))),
      done
          ∙ ap tail (
              on_line
              ∙ ap (λ l. l ++ repeated ns lines)
                  (write_keys-sent (codes "L" ++ 0x0D ∷ []) c d typed)),
    )
