-- ===== src/Ihex/Starting.antt =====
-- src/ihex.rs: what send_program has written, for each outcome.
use rosco_cli.Prelude.{
  ℕ, ◌+◌, ◌<◌, ◌≡◌, ◌≢◌, ◌⊎◌, take, inl, inr, refl, sym, ap, subst, ◌∙◌, arith, Bool, true, false,
  ◌==◌, if◌then◌else◌, some, List, [], ◌∷◌, ◌++◌, length, codes, All, Bool-cases,
}
use rosco_cli.Memory.{Mem, Holds, SameOutside}
use rosco_cli.Ihex.{hex4, end_of_file, records}
use rosco_cli.Ihex.Records.{load, records-load}
use rosco_cli.Ihex.Console.{Round, Console, Report, sent, line_of, send_records}
use rosco_cli.Ihex.Delivery.{Delivered, send_records-Delivered}
use rosco_cli.Ihex.Program.{
  ready, load_word, succeeded, TextRound, contains, wait_for, read_rest_of_line, write_text,
  write_command, LoadOutcome, started, nothing_to_load, too_long, no_offer, not_sent, no_report,
  rejected_transfer, when_written, when_heard, start_program, finish_load, load_records,
  with_records, send_program,
}
use rosco_cli.Ihex.Hearing.{Heard, wait_for-Heard, read_rest_of_line-Heard}
use rosco_cli.Ihex.Typing.{
  when_written-post, when_heard-post, write_keys-rounds, write_keys-part, write_text-sent,
  write_text-failed, keys, write_keys-sent, run_command,
}

-- what is on the line and what was heard, for every outcome
module _ (max_retries load_address : ℕ) (bytes : List ℕ) (offer report : List TextRound) (m : Mem)
    (c : Console) where
  -- the records were sent behind the offer, and the record that ends the file behind them
  pub record Loaded (after : List (List ℕ)) : Type 0 where
    pub lines : List (List ℕ)
    pub made : records bytes load_address ≡ some lines
    pub offered : Heard ready offer
    pub sent_lines : List (List ℕ)
    pub rounds : List Round
    pub delivered : Delivered (max_retries + 1) lines sent_lines c.rounds rounds sent
    pub written :
        after ≡ c.written ++ keys (codes "L" ++ 0x0D ∷ []) ++ sent_lines ++ line_of end_of_file ∷ []
    pub memory : Mem
    pub loaded : load m (lines ++ end_of_file ∷ []) ≡ some memory
    pub holds : Holds memory load_address bytes
    pub same : SameOutside m memory load_address (length bytes)

  -- the records were sent behind the offer, all of them or up to one that failed
  abbrev pub Loading : (after : List (List ℕ)) → Type 0
  Loading after =
      Heard ready offer
      × (lines : List (List ℕ)) × (records bytes load_address ≡ some lines)
      × (ws : List (List ℕ)) × (rounds : List Round) × (r : Report) × Delivered (max_retries + 1)
          lines ws c.rounds rounds r
      × (after ≡ c.written ++ keys (codes "L" ++ 0x0D ∷ []) ++ ws)

  -- where a write or an answer failed: within the command `L`, within the records, or within the command to run the program, which begins only behind the report
  abbrev pub Failed : (after : List (List ℕ)) → Type 0
  Failed after =
      ((n : ℕ) × (n < 2) × (after ≡ c.written ++ keys (take n (codes "L" ++ 0x0D ∷ []))))
      ⊎ (Loading after
          ⊎ ((before : List (List ℕ)) × Loaded before
              × Heard succeeded report
              × (n : ℕ) × (n < 6)
              × (after ≡ before ++ keys (take n (run_command load_address)))))

  abbrev pub Dialogue : LoadOutcome → (after : List (List ℕ)) → Type 0
  Dialogue started after =
      (before : List (List ℕ)) × Loaded before
      × Heard succeeded report
      × (after ≡ before ++ keys (run_command load_address))
  Dialogue nothing_to_load after = (length bytes ≡ 0) × (after ≡ c.written)
  Dialogue too_long after = (0x1_0000 < load_address + length bytes) × (after ≡ c.written)
  Dialogue no_offer after = after ≡ c.written ++ keys (codes "L" ++ 0x0D ∷ [])
  Dialogue (not_sent e) after = (e ≢ sent) × Failed after
  Dialogue no_report after = Loaded after
  Dialogue (rejected_transfer line) after = Loaded after × (contains succeeded line ≡ false)

  abbrev Said : LoadOutcome × Console → Type 0
  Said r = Dialogue r.0 r.1.written

  start_program-Said :
      (d : Console)
      → Loaded d.written
      → Heard succeeded report
      → Said (start_program load_address d)
  unfolding start_program write_command
  start_program-Said d done confirmed =
      let command = hex4 load_address ++ 0x52 ∷ [] in
      when_written-post (write_command command d) (λ d'. (started, d')) Said
        (λ d' w. (d.written, done, confirmed, write_keys-sent (run_command load_address) d d' w))
        (λ e d' w bad.
          let (n, lt, typed) = write_keys-part (run_command load_address) d d' e w bad in
          let six : n < 6 = unfold hex4 in lt in
          (bad, inr (inr (d.written, done, confirmed, n, six, typed))))

  judged-Said :
      (line : List ℕ) (d : Console) (good : Bool)
      → contains succeeded line ≡ good
      → Loaded d.written
      → (good ≡ true → Heard succeeded report)
      → Said (if good then start_program load_address d else (rejected_transfer line, d))
  judged-Said line d true e done confirmed = start_program-Said d done (confirmed refl)
  judged-Said line d false e done confirmed = (done, e)

  finish_load-Said :
      (d : Console)
      → Loading d.written
      → ((d' : Console) → d'.written ≡ d.written ++ line_of end_of_file ∷ [] → Loaded d'.written)
      → Said (finish_load load_address report d)
  unfolding finish_load
  finish_load-Said d loading done =
      let judge : Console → List ℕ → List TextRound → LoadOutcome × Console = λ d' seen rs.
        let line = read_rest_of_line seen rs in
        if contains succeeded line
        then start_program load_address d'
        else (rejected_transfer line, d') in
      when_written-post (write_text (line_of end_of_file) d)
        (λ d'. when_heard (wait_for load_word [] report) no_report d' (judge d')) Said
        (λ d' w.
          let ended = done d' (write_text-sent (line_of end_of_file) d d' w) in
          when_heard-post (wait_for load_word [] report) no_report d' (judge d') Said
            (λ seen rs heard_it.
              let line = read_rest_of_line seen rs in
              judged-Said line d' (contains succeeded line) refl ended
                (λ good. read_rest_of_line-Heard succeeded load_word report seen rs heard_it good))
            ended)
        (λ e d' w bad.
          let same_line = write_text-failed (line_of end_of_file) d d' e w bad in
          (bad, inr (inl (subst Loading (sym same_line) loading))))

  load_records-Said :
      (lines : List (List ℕ)) (m' : Mem)
      → records bytes load_address ≡ some lines
      → load m (lines ++ end_of_file ∷ []) ≡ some m'
      → Holds m' load_address bytes
      → SameOutside m m' load_address (length bytes)
      → Said (load_records max_retries load_address (length bytes) lines offer report c)
  unfolding load_records write_command
  load_records-Said lines m' made loaded holds same =
      let limit = max_retries + 1 in
      let ready_for : Console → Console = λ d. record d { reported = d.reported ++ 0 ∷ [] } in
      let send : Console → Report × Console =
        λ d. send_records max_retries (length bytes) 0 lines (ready_for d) in
      let next : Console → List ℕ → List TextRound → LoadOutcome × Console =
        λ d seen rs. when_written (send d) (finish_load load_address report) in
      when_written-post (write_command (codes "L") c)
        (λ d. when_heard (wait_for ready [] offer) no_offer d (next d)) Said
        (λ d w.
          let typed = write_keys-sent (codes "L" ++ 0x0D ∷ []) c d w in
          when_heard-post (wait_for ready [] offer) no_offer d (next d) Said
            (λ seen rs offered.
              let (ws, on_line, delivered) =
                send_records-Delivered max_retries (length bytes) 0 lines (ready_for d) in
              let delivered' =
                subst (λ rs. Delivered limit lines ws rs (send d).1.rounds (send d).0)
                  (ap (λ r. r.1.rounds) (sym w) ∙ write_keys-rounds (codes "L" ++ 0x0D ∷ []) c)
                  delivered in
              let heard_offer = wait_for-Heard ready offer seen rs offered in
              when_written-post (send d) (finish_load load_address report) Said
                (λ f all_sent.
                  let all_delivered =
                    subst (λ r. Delivered limit lines ws c.rounds r.1.rounds r.0) all_sent
                      delivered' in
                  let put_there : f.written ≡ c.written ++ keys (codes "L" ++ 0x0D ∷ []) ++ ws =
                    ap (λ r. r.1.written) (sym all_sent) ∙ on_line ∙ ap (λ l. l ++ ws) typed in
                  finish_load-Said f
                    (heard_offer, lines, made, ws, f.rounds, sent, all_delivered, put_there)
                    (λ d' w'. record {
                      lines = lines;
                      made = made;
                      offered = heard_offer;
                      sent_lines = ws;
                      rounds = f.rounds;
                      delivered = all_delivered;
                      written = w' ∙ ap (λ l. l ++ line_of end_of_file ∷ []) put_there;
                      memory = m';
                      loaded = loaded;
                      holds = holds;
                      same = same;
                    }))
                (λ e f failed bad.
                  let put_there : f.written ≡ c.written ++ keys (codes "L" ++ 0x0D ∷ []) ++ ws =
                    ap (λ r. r.1.written) (sym failed) ∙ on_line ∙ ap (λ l. l ++ ws) typed in
                  let in_part =
                    subst (λ r. Delivered limit lines ws c.rounds r.1.rounds r.0) failed
                      delivered' in
                  (bad, inr (inl (heard_offer, lines, made, ws, f.rounds, e, in_part, put_there)))))
            typed)
        (λ e d w bad.
          let (n, lt, typed) = write_keys-part (codes "L" ++ 0x0D ∷ []) c d e w bad in
          (bad, inl (n, lt, typed)))

  with_records-Said :
      All (λ b. b < 256) bytes
      → Said (
          with_records
            (records bytes load_address)
            c
            (λ lines. load_records max_retries load_address (length bytes) lines offer report c))
  unfolding with_records
  with_records-Said small = elim (records-load bytes load_address m small) [
    | inl (big, missing) ↦ rw missing (big, refl)
    | inr (lines, m', made, loaded, holds, same) ↦
        rw made (load_records-Said lines m' made loaded holds same)
  ]

-- The program is a list of bytes. What send_program has written is decided by what came of it. Without an offer of the monitor there is the command `L` alone. Without a report, or with one that does not say that the load was successful, there are `L`, the records in their order, each once at least and `max_retries + 1` times at most until the answer `.` comes to its last copy, and the record that ends the file, but no command to run the program. That command follows, and the program counts as started, only when the monitor has said that the load was successful. If a write or the answer to a record fails, then what was written ends within the command `L`, within the records behind the offer, or within the command to run the program behind the report. An empty program, and one that does not fit below 2^16, write nothing. A loader that reads the records gets the bytes of the program from the load address on and keeps all other memory.
pub send_program-Dialogue :
    (max_retries load_address : ℕ) (bytes : List ℕ) (offer report : List TextRound) (m : Mem)
    (c : Console)
    → All (λ b. b < 256) bytes
    → Dialogue max_retries load_address bytes offer report m c
        (send_program max_retries load_address bytes offer report c).0
        (send_program max_retries load_address bytes offer report c).1.written
unfolding send_program
send_program-Dialogue max_retries load_address bytes offer report m c small =
    elim (Bool-cases (length bytes == 0)) [
      | inl bare ↦ rw bare (ground arith, refl)
      | inr full ↦ rw full (with_records-Said max_retries load_address bytes offer report m c small)
    ]
