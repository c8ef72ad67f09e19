-- ===== src/Ihex/Typing.antt =====
-- src/ihex.rs: commands typed byte by byte, and what holds behind a step of the dialogue.
use rosco_cli.Prelude.{
  ℕ, ◌<◌, ◌≡◌, ◌≢◌, suc, take, inl, inr, refl, sym, ap, subst, ◌∙◌, arith, Bool, ◌==◌,
  if◌then◌else◌, List, [], ◌∷◌, ◌++◌, length, Bool-cases, append_assoc, append-nil,
}
use rosco_cli.Ihex.{hex4}
use rosco_cli.Ihex.Console.{
  Console, Report, sent, checksum_error, no_answer, read_error, write_error, when_sent,
}
use rosco_cli.Ihex.Program.{
  TextRound, Waited, heard, nothing_came, text_unread, put, write_text, write_keys, LoadOutcome,
  not_sent, when_written, when_heard,
}

-- a command as it is typed, byte by byte
abbrev pub keys : List ℕ → List (List ℕ)
keys [] = []
keys (b ∷ bs) = (b ∷ []) ∷ keys bs

-- What holds behind something written holds of the whole.
pub when_written-post {ℓ} :
    (r : Report × Console) (next : Console → LoadOutcome × Console)
    (Q : LoadOutcome × Console → Type ℓ)
    → ((c : Console) → r ≡ (sent, c) → Q (next c))
    → ((e : Report) (c : Console) → r ≡ (e, c) → e ≢ sent → Q (not_sent e, c))
    → Q (when_written r next)
unfolding when_written
when_written-post (sent, c) next Q h g = h c refl
when_written-post (checksum_error, c) next Q h g = g checksum_error c refl (λ q. ground arith)
when_written-post (no_answer, c) next Q h g = g no_answer c refl (λ q. ground arith)
when_written-post (read_error, c) next Q h g = g read_error c refl (λ q. ground arith)
when_written-post (write_error, c) next Q h g = g write_error c refl (λ q. ground arith)

pub when_heard-post {ℓ} :
    (w : Waited × List TextRound) (context : LoadOutcome) (c : Console)
    (next : List ℕ → List TextRound → LoadOutcome × Console) (Q : LoadOutcome × Console → Type ℓ)
    → ((seen : List ℕ) (rs : List TextRound) → w ≡ (heard seen, rs) → Q (next seen rs))
    → Q (context, c)
    → Q (when_heard w context c next)
unfolding when_heard
when_heard-post (heard seen, rs) context c next Q h g = h seen rs refl
when_heard-post (nothing_came, rs) context c next Q h g = g
when_heard-post (text_unread, rs) context c next Q h g = g

pub write_keys-sent :
    (bs : List ℕ) (c d : Console) → write_keys bs c ≡ (sent, d) → d.written ≡ c.written ++ keys bs
unfolding write_keys write_text when_sent
write_keys-sent [] c d h = ap (λ r. r.1.written) (sym h) ∙ sym (append-nil c.written)
write_keys-sent (b ∷ bs) c d h =
    let choice : Bool → Report × Console =
      λ t. if t then (write_error, c) else (sent, put (b ∷ []) c) in
    elim (Bool-cases (c.writes_left == 0)) [
      | inl shut ↦
          let e = subst (λ t. when_sent (choice t) (write_keys bs) ≡ (sent, d)) shut h in
          absurd (ground (arith, ap (λ r. r.0) e))
      | inr works ↦
          let e = subst (λ t. when_sent (choice t) (write_keys bs) ≡ (sent, d)) works h in
          write_keys-sent bs (put (b ∷ []) c) d e ∙ append_assoc c.written ((b ∷ []) ∷ []) (keys bs)
    ]

-- Typing reads no answers.
pub write_keys-rounds : (bs : List ℕ) (c : Console) → (write_keys bs c).1.rounds ≡ c.rounds
unfolding write_keys write_text when_sent
write_keys-rounds [] c = refl
write_keys-rounds (b ∷ bs) c = elim (Bool-cases (c.writes_left == 0)) [
  | inl shut ↦ rw shut refl
  | inr works ↦ rw works (write_keys-rounds bs (put (b ∷ []) c))
]

-- A command whose writing failed was typed in part.
pub write_keys-part :
    (bs : List ℕ) (c d : Console) (e : Report)
    → write_keys bs c ≡ (e, d)
    → e ≢ sent
    → (n : ℕ) × (n < length bs) × (d.written ≡ c.written ++ keys (take n bs))
unfolding write_keys write_text when_sent
write_keys-part [] c d e h bad = absurd (bad (ap (λ r. r.0) (sym h)))
write_keys-part (b ∷ bs) c d e h bad =
    let choice : Bool → Report × Console =
      λ t. if t then (write_error, c) else (sent, put (b ∷ []) c) in
    elim (Bool-cases (c.writes_left == 0)) [
      | inl shut ↦
          let q = subst (λ t. when_sent (choice t) (write_keys bs) ≡ (e, d)) shut h in
          (0, omega arith, ap (λ r. r.1.written) (sym q) ∙ sym (append-nil c.written))
      | inr works ↦
          let q = subst (λ t. when_sent (choice t) (write_keys bs) ≡ (e, d)) works h in
          let (n, lt, w) = write_keys-part bs (put (b ∷ []) c) d e q bad in
          (suc n, omega (arith, lt), w ∙ append_assoc c.written ((b ∷ []) ∷ []) (keys (take n bs)))
    ]

abbrev pub run_command : (load_address : ℕ) → List ℕ
run_command load_address = hex4 load_address ++ 0x52 ∷ [] ++ 0x0D ∷ []

pub write_text-sent :
    (text : List ℕ) (c d : Console)
    → write_text text c ≡ (sent, d)
    → d.written ≡ c.written ++ text ∷ []
unfolding write_text
write_text-sent text c d h =
    let choice : Bool → Report × Console =
      λ t. if t then (write_error, c) else (sent, put text c) in
    elim (Bool-cases (c.writes_left == 0)) [
      | inl shut ↦
          let e = subst (λ t. choice t ≡ (sent, d)) shut h in
          absurd (ground (arith, ap (λ r. r.0) e))
      | inr works ↦
          let e = subst (λ t. choice t ≡ (sent, d)) works h in ap (λ r. r.1.written) (sym e)
    ]

pub write_text-failed :
    (text : List ℕ) (c d : Console) (e : Report)
    → write_text text c ≡ (e, d)
    → e ≢ sent
    → d.written ≡ c.written
unfolding write_text
write_text-failed text c d e h bad =
    let choice : Bool → Report × Console =
      λ t. if t then (write_error, c) else (sent, put text c) in
    elim (Bool-cases (c.writes_left == 0)) [
      | inl shut ↦ let q = subst (λ t. choice t ≡ (e, d)) shut h in ap (λ r. r.1.written) (sym q)
      | inr works ↦
          let q = subst (λ t. choice t ≡ (e, d)) works h in absurd (bad (ap (λ r. r.0) (sym q)))
    ]
