-- ===== src/Ihex/Chunks.antt =====
-- src/ihex.rs: a text that arrives in pieces of any size, and the words that are looked for in it.
use rosco_cli.Prelude.{
  ℕ, ◌≡◌, ◌⊎◌, inl, inr, refl, sym, subst, ◌∙◌, arith, true, false, Option, none, some, List, [],
  ◌∷◌, ◌++◌, Bool-cases, append_assoc, append-nil,
}
use rosco_cli.Ihex.Program.{
  chunk, nothing, TextRound, contains, heard, wait_for, line_ends, read_line,
}

-- rounds before the deadline: in each comes a piece of text, or nothing
abbrev pub arriving : List (Option (List ℕ)) → List TextRound
arriving [] = []
arriving (none ∷ ps) = record { reading = nothing; late = false } ∷ arriving ps
arriving (some t ∷ ps) = record { reading = chunk t; late = false } ∷ arriving ps

abbrev pub whole_text : List (Option (List ℕ)) → List ℕ
whole_text [] = []
whole_text (none ∷ ps) = whole_text ps
whole_text (some t ∷ ps) = t ++ whole_text ps

-- wait_for hears a needle that is in the whole text, and leaves the rest of it.
wait_for-seen :
    (needle seen : List ℕ) (ps : List (Option (List ℕ)))
    → contains needle seen ≡ false
    → contains needle (seen ++ whole_text ps) ≡ true
    → (all : List ℕ) × (qs : List (Option (List ℕ))) × (wait_for needle seen (arriving ps)
        ≡ (heard all, arriving qs))
      × (all ++ whole_text qs ≡ seen ++ whole_text ps)
unfolding wait_for
wait_for-seen needle seen [] absent there =
    absurd (ground (arith, subst (λ t. contains needle t ≡ true) (append-nil seen) there))
wait_for-seen needle seen (none ∷ ps) absent there = wait_for-seen needle seen ps absent there
wait_for-seen needle seen (some t ∷ ps) absent there =
    let split : (seen ++ t) ++ whole_text ps ≡ seen ++ (t ++ whole_text ps) =
      append_assoc seen t (whole_text ps) in
    elim (Bool-cases (contains needle (seen ++ t))) [
      | inl here ↦ rw here (seen ++ t, ps, refl, split)
      | inr later ↦
          let (all, qs, run, e) =
            wait_for-seen needle (seen ++ t) ps later
              (subst (λ u. contains needle u ≡ true) (sym split) there) in
          rw later (all, qs, run, e ∙ split)
    ]

pub wait_for-arriving :
    (needle : List ℕ) (ps : List (Option (List ℕ)))
    → contains needle (whole_text ps) ≡ true
    → (all : List ℕ) × (qs : List (Option (List ℕ))) × (wait_for needle [] (arriving ps)
        ≡ (heard all, arriving qs))
      × (all ++ whole_text qs ≡ whole_text ps)
unfolding contains
wait_for-arriving needle ps there = wait_for-seen needle [] ps refl there

-- The text that read_rest_of_line has read ends the line, or it is all there is.
pub read_line-arriving :
    (seen : List ℕ) (ps : List (Option (List ℕ)))
    → (left : List ℕ) × (read_line seen (arriving ps) ++ left ≡ seen ++ whole_text ps)
      × ((line_ends (read_line seen (arriving ps)) ≡ true) ⊎ (left ≡ []))
unfolding read_line
read_line-arriving seen [] = ([], refl, inr refl)
read_line-arriving seen (none ∷ ps) = elim (Bool-cases (line_ends seen)) [
  | inl stop ↦ rw stop (whole_text ps, refl, inl stop)
  | inr more ↦ rw more (read_line-arriving seen ps)
]
read_line-arriving seen (some t ∷ ps) =
    let split : (seen ++ t) ++ whole_text ps ≡ seen ++ (t ++ whole_text ps) =
      append_assoc seen t (whole_text ps) in
    elim (Bool-cases (line_ends (seen ++ t))) [
      | inl stop ↦ rw stop (whole_text ps, split, inl stop)
      | inr more ↦
          let (left, e, why) = read_line-arriving (seen ++ t) ps in rw more (left, e ∙ split, why)
    ]
