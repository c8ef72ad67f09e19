-- ===== src/Ihex/Words.antt =====
-- src/ihex.rs: the words of the report that a load was successful.
use rosco_cli.Prelude.{
  ℕ, ◌≡◌, ◌≢◌, ◌⊎◌, inl, inr, refl, sym, ap, subst, ◌∙◌, arith, Bool, true, false, not, ◌&&◌, ◌==◌,
  Option, none, some, List, [], ◌∷◌, ◌++◌, All, append_assoc, append-nil, length, length-append,
}
use rosco_cli.Ihex.Program.{
  load_word, succeeded, starts_with, contains, last_of, rfind, line_ends, from_last, read_line,
  read_rest_of_line,
}
use rosco_cli.Ihex.Chunks.{arriving, whole_text, read_line-arriving}

abbrev pub success : List ℕ
success = load_word ++ succeeded

-- no character with which a word begins that ends the line
abbrev pub IsQuiet : List ℕ → Type 0
IsQuiet cs = All (λ c. (c ≢ 0x73) × (c ≢ 0x65)) cs

-- no `L`
abbrev pub HasNoLoad : List ℕ → Type 0
HasNoLoad cs = All (λ c. c ≢ 0x4C) cs

line_ends-quiet : (c : ℕ) (cs : List ℕ) → c ≢ 0x73 → c ≢ 0x65 → line_ends (c ∷ cs) ≡ line_ends cs
unfolding line_ends contains starts_with
line_ends-quiet c cs ns ne =
    let s : (0x73 == c) ≡ false = ground arith in
    let e : (0x65 == c) ≡ false = ground arith in rw s (rw e refl)

-- No part of `rest` from its start on, put behind `front`, ends the line.
abbrev goes_on : (front rest : List ℕ) → Bool
goes_on front [] = true
goes_on front (r ∷ rs) = not (line_ends front) && goes_on (front ++ r ∷ []) rs

line_ends-part :
    (rest front a : List ℕ) (c : ℕ) (d : List ℕ)
    → goes_on front rest ≡ true
    → a ++ c ∷ d ≡ rest
    → line_ends (front ++ a) ≡ false
line_ends-part [] front [] c d h e = absurd (ground arith)
line_ends-part [] front (x ∷ a) c d h e = absurd (ground arith)
line_ends-part (r ∷ rs) front [] c d h e =
    subst (λ t. line_ends t ≡ false) (sym (append-nil front)) (ground arith)
line_ends-part (r ∷ rs) front (x ∷ a) c d h e =
    let same : r ≡ x = cc e in
    let more : a ++ c ∷ d ≡ rs = cc e in
    let whole : (front ++ r ∷ []) ++ a ≡ front ++ (x ∷ a) =
      append_assoc front (r ∷ []) a ∙ ap (λ y. front ++ (y ∷ a)) same in
    subst (λ t. line_ends t ≡ false) whole
      (line_ends-part rs (front ++ r ∷ []) a c d (ground arith) more)

line_ends-early :
    (before a : List ℕ) (c : ℕ) (d : List ℕ)
    → IsQuiet before
    → a ++ c ∷ d ≡ before ++ success
    → line_ends a ≡ false
unfolding line_ends contains starts_with
line_ends-early [] a c d h e = line_ends-part success [] a c d refl e
line_ends-early (b ∷ bs) [] c d h e = refl
line_ends-early (b ∷ bs) (x ∷ a) c d ((ns, ne), h) e =
    let same : b ≡ x = cc e in
    let more : a ++ c ∷ d ≡ bs ++ success = cc e in
    subst (λ y. line_ends (y ∷ a) ≡ false) same
      (line_ends-quiet b a ns ne ∙ line_ends-early bs a c d h more)

-- two ways to cut a text
cut :
    (a left u v : List ℕ)
    → a ++ left ≡ u ++ v
    → ((d : List ℕ) × (a ≡ u ++ d) × (v ≡ d ++ left)) ⊎ ((c : ℕ) × (d : List ℕ) × (a ++ c ∷ d ≡ u))
cut a left [] v e = inl (a, refl, sym e)
cut [] left (x ∷ us) v e = inr (x, us, refl)
cut (y ∷ a) left (x ∷ us) v e =
    let same : y ≡ x = cc e in
    elim (cut a left us v (cc e)) [
      | inl (d, e1, e2) ↦ inl (d, (ap (λ l. y ∷ l) e1 ∙ ap (λ z. z ∷ (us ++ d)) same), e2)
      | inr (c, d, e1) ↦ inr (c, d, (ap (λ l. y ∷ l) e1 ∙ ap (λ z. z ∷ us) same))
    ]

-- what was read when the line ended, or when all had been read
read_success :
    (before post a left : List ℕ)
    → IsQuiet before
    → a ++ left ≡ before ++ success ++ post
    → ((line_ends a ≡ true) ⊎ (left ≡ []))
    → (d : List ℕ) × (a ≡ before ++ success ++ d) × (post ≡ d ++ left)
read_success before post a left h e why = elim (cut a left (before ++ success) post e) [
  | inl found ↦ found
  | inr (c, d, e1) ↦ elim why [
    | inl ended ↦ absurd (ground (arith, line_ends-early before a c d h e1))
    | inr nothing_left ↦ absurd (
        omega (
          arith,
          ap length nothing_left,
          ap length e,
          ap length e1,
          length-append a left,
          length-append a (c ∷ d),
          length-append (before ++ success) post,
        ))
  ]
]

All-part : (d left : List ℕ) → HasNoLoad (d ++ left) → HasNoLoad d
All-part [] left h = tt
All-part (c ∷ cs) left (n, h) = (n, All-part cs left h)

rfind-none : (d : List ℕ) → HasNoLoad d → rfind load_word d ≡ none
unfolding rfind last_of starts_with
rfind-none [] h = refl
rfind-none (c ∷ cs) (n, h) =
    let e : (0x4C == c) ≡ false = ground arith in rw (rfind-none cs h) (rw e refl)

rfind-append :
    (needle before text part : List ℕ)
    → rfind needle text ≡ some part
    → rfind needle (before ++ text) ≡ some part
unfolding rfind last_of
rfind-append needle [] text part h = h
rfind-append needle (c ∷ cs) text part h = rw (rfind-append needle cs text part h) refl

from_last-success :
    (before d : List ℕ)
    → HasNoLoad d
    → contains succeeded
        (from_last (rfind load_word (before ++ success ++ d)) (before ++ success ++ d))
      ≡ true
unfolding from_last contains starts_with
from_last-success before d h =
    let last : rfind load_word (success ++ d) ≡ some (success ++ d) =
      unfold rfind last_of starts_with in (rw (rfind-none d h) refl) in
    rw (append_assoc before success d)
      (rw (rfind-append load_word before (success ++ d) (success ++ d) last) refl)

-- The line of a report in pieces of any size, of which `seen` is the start, says that the load was successful.
pub read_rest_of_line-success :
    (before post seen : List ℕ) (ps : List (Option (List ℕ)))
    → IsQuiet before
    → HasNoLoad post
    → seen ++ whole_text ps ≡ before ++ success ++ post
    → contains succeeded (read_rest_of_line seen (arriving ps)) ≡ true
unfolding read_rest_of_line
read_rest_of_line-success before post seen ps quiet_before no_load e =
    let (left, e1, why) = read_line-arriving seen ps in
    let (d, e2, e3) =
      read_success before post (read_line seen (arriving ps)) left quiet_before (e1 ∙ e) why in
    rw e2 (from_last-success before d (All-part d left (subst HasNoLoad e3 no_load)))
