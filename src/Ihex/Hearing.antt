-- ===== src/Ihex/Hearing.antt =====
-- src/ihex.rs: what has been read when wait_for and read_rest_of_line have found what they look for.
use rosco_cli.Prelude.{
  ℕ, ◌≡◌, ◌⊎◌, inl, inr, refl, sym, ap, subst, ◌∙◌, arith, Bool, true, false, ◌||◌, if◌then◌else◌,
  Option, none, some, List, [], ◌∷◌, ◌++◌, Bool-cases, append_assoc, append-nil,
}
use rosco_cli.Ihex.Program.{
  load_word, TextRead, chunk, nothing, failing, TextRound, starts_with, contains, last_of, rfind,
  Waited, heard, nothing_came, wait_for, line_ends, read_line, from_last, read_rest_of_line,
}

abbrev pub bytes_of : TextRead → List ℕ
bytes_of (chunk text) = text
bytes_of nothing = []
bytes_of failing = []

-- all the text of these rounds
abbrev pub texts : List TextRound → List ℕ
texts [] = []
texts (r ∷ rs) = bytes_of r.reading ++ texts rs

-- The first rounds bring a text with the needle.
abbrev pub Heard : (needle : List ℕ) → List TextRound → Type 0
Heard needle rounds =
    (before : List TextRound) × (after : List TextRound) × (rounds ≡ before ++ after)
    × (contains needle (texts before) ≡ true)

pub contains-append :
    (needle before text : List ℕ)
    → contains needle text ≡ true
    → contains needle (before ++ text) ≡ true
unfolding contains
contains-append needle [] text h = h
contains-append needle (c ∷ cs) text h = elim (Bool-cases (starts_with needle (c ∷ (cs ++ text)))) [
  | inl here ↦ rw here refl
  | inr later ↦ rw later (contains-append needle cs text h)
]

if_some :
    (b : Bool) (text part : List ℕ) → (if b then some text else none) ≡ some part → text ≡ part
if_some true text part h = cc
if_some false text part h = absurd (ground arith)

last_of-part :
    (o : Option (List ℕ)) (needle : List ℕ) (c : ℕ) (cs part : List ℕ)
    → ((p : List ℕ) → o ≡ some p → (before : List ℕ) × (cs ≡ before ++ p))
    → last_of o needle (c ∷ cs) ≡ some part
    → (before : List ℕ) × (c ∷ cs ≡ before ++ part)
unfolding last_of
last_of-part (some rest) needle c cs part ih h =
    let (before, e) = ih part h in (c ∷ before, ap (λ l. c ∷ l) e)
last_of-part none needle c cs part ih h =
    ([], if_some (starts_with needle (c ∷ cs)) (c ∷ cs) part h)

rfind-part :
    (needle text part : List ℕ)
    → rfind needle text ≡ some part
    → (before : List ℕ) × (text ≡ before ++ part)
unfolding rfind
rfind-part needle [] part h = absurd (ground arith)
rfind-part needle (c ∷ cs) part h =
    last_of-part (rfind needle cs) needle c cs part (rfind-part needle cs) h

-- what wait_for leaves behind when it has heard the needle
abbrev WaitedFor : (needle seen : List ℕ) (rounds : List TextRound) → Type 0
WaitedFor needle seen rounds =
    (all : List ℕ) (after : List TextRound)
    → wait_for needle seen rounds ≡ (heard all, after)
    → (before : List TextRound) × (rounds ≡ before ++ after)
      × (all ≡ seen ++ texts before)
      × (contains needle all ≡ true)

heard_or :
    (found late : Bool) (read all : List ℕ) (rs after : List TextRound)
    (rest : Waited × List TextRound)
    → (if found then (heard read, rs) else if late then (nothing_came, rs) else rest)
      ≡ (heard all, after)
    → ((found ≡ true) × (read ≡ all) × (rs ≡ after)) ⊎ (rest ≡ (heard all, after))
heard_or true late read all rs after rest h = inl (refl, cc, ap (λ r. r.1) h)
heard_or false true read all rs after rest h = absurd (ground (arith, ap (λ r. r.0) h))
heard_or false false read all rs after rest h = inr h

wait_for_round :
    (needle seen : List ℕ) (reading : TextRead) (late : Bool) (rs : List TextRound)
    → ((s : List ℕ) → WaitedFor needle s rs)
    → WaitedFor needle seen (record { reading = reading; late = late } ∷ rs)
unfolding wait_for
wait_for_round needle seen (chunk text) late rs ih all after h =
    let r : TextRound = record { reading = chunk text; late = late } in
    elim (heard_or (contains needle (seen ++ text)) late (seen ++ text) all rs after
      (wait_for needle (seen ++ text) rs) h) [
        | inl (found, same, rest) ↦ (
          r ∷ [],
          ap (λ l. r ∷ l) rest,
          sym same ∙ ap (λ t. seen ++ t) (sym (append-nil text)),
          subst (λ t. contains needle t ≡ true) same found,
        )
        | inr later ↦
            let (before, split, e, c) = ih (seen ++ text) all after later in
            (r ∷ before, ap (λ l. r ∷ l) split, e ∙ append_assoc seen text (texts before), c)
      ]
wait_for_round needle seen nothing true rs ih all after h = absurd (ground arith)
wait_for_round needle seen nothing false rs ih all after h =
    let (before, split, e, c) = ih seen all after h in
    (
      record { reading = nothing; late = false } ∷ before,
      ap (λ l. record { reading = nothing; late = false } ∷ l) split,
      e,
      c,
    )
wait_for_round needle seen failing late rs ih all after h = absurd (ground arith)

wait_for-heard : (needle seen : List ℕ) (rounds : List TextRound) → WaitedFor needle seen rounds
unfolding wait_for
wait_for-heard needle seen [] all after h = absurd (ground arith)
wait_for-heard needle seen (r ∷ rs) all after h =
    wait_for_round needle seen r.reading r.late rs (λ s. wait_for-heard needle s rs) all after h

-- The text is `seen` and what the first rounds bring.
abbrev Read : (seen : List ℕ) (rounds : List TextRound) (all : List ℕ) → Type 0
Read seen rounds all =
    (before : List TextRound) × (after : List TextRound) × (rounds ≡ before ++ after)
    × (all ≡ seen ++ texts before)

Read-nothing : (seen : List ℕ) (rounds : List TextRound) → Read seen rounds seen
Read-nothing seen rounds = ([], rounds, refl, sym (append-nil seen))

Read-chunk :
    (seen text : List ℕ) (late : Bool) (rs : List TextRound) (all : List ℕ)
    → Read (seen ++ text) rs all
    → Read seen (record { reading = chunk text; late = late } ∷ rs) all
Read-chunk seen text late rs all (before, after, split, e) =
    let r : TextRound = record { reading = chunk text; late = late } in
    (r ∷ before, after, ap (λ l. r ∷ l) split, e ∙ append_assoc seen text (texts before))

Read-either :
    (stop : Bool) (seen : List ℕ) (rounds : List TextRound) (all : List ℕ)
    → Read seen rounds all
    → Read seen rounds (if stop then seen else all)
Read-either true seen rounds all h = Read-nothing seen rounds
Read-either false seen rounds all h = h

read_line_round :
    (seen : List ℕ) (reading : TextRead) (late : Bool) (rs : List TextRound)
    → ((s : List ℕ) → Read s rs (read_line s rs))
    → Read seen
        (record { reading = reading; late = late } ∷ rs)
        (read_line seen (record { reading = reading; late = late } ∷ rs))
unfolding read_line
read_line_round seen (chunk text) late rs ih =
    Read-chunk seen text late rs
      (if line_ends (seen ++ text) || late then seen ++ text else read_line (seen ++ text) rs)
      (Read-either (line_ends (seen ++ text) || late) (seen ++ text) rs
        (read_line (seen ++ text) rs) (ih (seen ++ text)))
read_line_round seen nothing late rs ih =
    let r : TextRound = record { reading = nothing; late = late } in
    let (before, after, split, e) = ih seen in
    Read-either (line_ends seen || late) seen (r ∷ rs) (read_line seen rs)
      (r ∷ before, after, ap (λ l. r ∷ l) split, e)
read_line_round seen failing late rs ih =
    Read-nothing seen (record { reading = failing; late = late } ∷ rs)

read_line-Read :
    (seen : List ℕ) (rounds : List TextRound) → Read seen rounds (read_line seen rounds)
unfolding read_line
read_line-Read seen [] = Read-nothing seen []
read_line-Read seen (r ∷ rs) = read_line_round seen r.reading r.late rs (λ s. read_line-Read s rs)

texts-append : (xs ys : List TextRound) → texts (xs ++ ys) ≡ texts xs ++ texts ys
texts-append [] ys = refl
texts-append (x ∷ xs) ys =
    ap (λ t. bytes_of x.reading ++ t) (texts-append xs ys)
    ∙ sym (append_assoc (bytes_of x.reading) (texts xs) (texts ys))

contains-from_last :
    (o : Option (List ℕ)) (needle all : List ℕ)
    → ((p : List ℕ) → o ≡ some p → (before : List ℕ) × (all ≡ before ++ p))
    → contains needle (from_last o all) ≡ true
    → contains needle all ≡ true
unfolding from_last
contains-from_last (some part) needle all split h =
    let (before, e) = split part refl in
    subst (λ t. contains needle t ≡ true) (sym e) (contains-append needle before part h)
contains-from_last none needle all split h = h

pub wait_for-Heard :
    (needle : List ℕ) (rounds : List TextRound) (all : List ℕ) (after : List TextRound)
    → wait_for needle [] rounds ≡ (heard all, after)
    → Heard needle rounds
wait_for-Heard needle rounds all after h =
    let (before, split, e, c) = wait_for-heard needle [] rounds all after h in
    (before, after, split, subst (λ t. contains needle t ≡ true) e c)

-- a line that says so was really read
pub read_rest_of_line-Heard :
    (needle first : List ℕ) (rounds : List TextRound) (seen : List ℕ) (rs : List TextRound)
    → wait_for first [] rounds ≡ (heard seen, rs)
    → contains needle (read_rest_of_line seen rs) ≡ true
    → Heard needle rounds
unfolding read_rest_of_line
read_rest_of_line-Heard needle first rounds seen rs w h =
    let (b1, split1, e1, c1) = wait_for-heard first [] rounds seen rs w in
    let (b2, after, split2, e2) = read_line-Read seen rs in
    let all = read_line seen rs in
    let c2 = contains-from_last (rfind load_word all) needle all (rfind-part load_word all) h in
    let whole : all ≡ texts (b1 ++ b2) =
      e2 ∙ ap (λ t. t ++ texts b2) e1 ∙ sym (texts-append b1 b2) in
    (
      b1 ++ b2,
      after,
      split1 ∙ ap (λ l. b1 ++ l) split2 ∙ sym (append_assoc b1 b2 after),
      subst (λ t. contains needle t ≡ true) whole c2,
    )
