-- ===== src/Cstdlib/Stdlib/Digits.antt =====
-- The numerals that stdlib.c writes and reads: lists of digits, the highest first.
use mathlib.Core.List.{map}
use native.Mathlib.Nat.{pow-suc}
use rosco_cli.Prelude.{
  ℕ, zero, suc, ◌+◌, ◌-◌, ◌*◌, ◌/◌, ◌%◌, ◌<◌, ◌≤◌, ◌≡◌, ◌≢◌, refl, List, [], ◌∷◌, ◌++◌, arith,
  length, ◌==◌, if◌then◌else◌, inl, inr, Bool-cases, All, All-append, length-append, ◌^◌, some, ap,
  ◌∙◌,
}
use rosco_cli.Memory.{Mem, IsStr, nth}
use rosco_cli.Cstdlib.Stdlib.{digit_char, digit_value}

-- the number that the digits name behind `n`
abbrev pub from_digits : ℕ → ℕ → List ℕ → ℕ
from_digits b n [] = n
from_digits b n (d ∷ ds) = from_digits b (n * b + d) ds

-- the numeral of `v`, with `f` digits at most
unfoldable pub to_digits : ℕ → ℕ → ℕ → List ℕ
to_digits zero b v = []
to_digits (suc f) b v =
    let front = to_digits f b (v / b) in (if v / b == 0 then [] else front) ++ (v % b) ∷ []

pub from_digits-snoc :
    (b n d : ℕ) (ds : List ℕ) → from_digits b n (ds ++ d ∷ []) ≡ from_digits b n ds * b + d
from_digits-snoc b n d [] = refl
from_digits-snoc b n d (c ∷ ds) = from_digits-snoc b (n * b + c) d ds

-- One digit fewer is left of the value each round.
pub quotient-lt : (b v f : ℕ) → 2 ≤ b → v < 2 ^ suc f → v / b < 2 ^ f
quotient-lt b v f hb h = let e : 2 ^ suc f ≡ 2 ^ f * 2 = pow-suc 2 f in grind arith

pub from_digits-to_digits : (f b v : ℕ) → 2 ≤ b → v < 2 ^ f → from_digits b 0 (to_digits f b v) ≡ v
unfolding to_digits
from_digits-to_digits zero b v hb h = omega arith
from_digits-to_digits (suc f) b v hb h = elim (Bool-cases (v / b == 0)) [
  | inl last ↦ rw last (ground arith)
  | inr more ↦
      rw (more, from_digits-snoc)
        (let ih = from_digits-to_digits f b (v / b) hb (quotient-lt b v f hb h) in
          rw ih (omega arith))
]

pub to_digits-All : (f b v : ℕ) → 2 ≤ b → All (λ d. d < b) (to_digits f b v)
unfolding to_digits
to_digits-All zero b v hb = tt
to_digits-All (suc f) b v hb = elim (Bool-cases (v / b == 0)) [
  | inl last ↦ rw last (omega arith, tt)
  | inr more ↦ rw more (All-append _ _ _ (to_digits-All f b (v / b) hb) (omega arith, tt))
]

pub length-to_digits : (f b v : ℕ) → length (to_digits f b v) ≤ f
unfolding to_digits
length-to_digits zero b v = omega arith
length-to_digits (suc f) b v =
    ground
      (arith, length-to_digits f b (v / b), length-append (to_digits f b (v / b)) ((v % b) ∷ []))

-- A digit that was written is read as itself.
pub digit_value-digit_char : (d : ℕ) → d < 36 → digit_value (digit_char d) ≡ some d
unfolding digit_value digit_char
digit_value-digit_char d h = ground arith

pub digit_char-ne_null : (d : ℕ) → digit_char d ≢ 0
unfolding digit_char
digit_char-ne_null d = ground arith

-- The bytes lie as text if each is the character of its digit.
pub IsStr-map :
    (m : Mem) (p : ℕ) (ds : List ℕ)
    → ((x : ℕ) → p ≤ x → x < p + length ds → m x ≡ digit_char (nth ds (x - p)))
    → m (p + length ds) ≡ 0
    → IsStr m p (map digit_char ds)
IsStr-map m p [] h z = ground arith
IsStr-map m p (d ∷ ds) h z = (
  h p (omega arith) (omega arith) ∙ ap (λ k. digit_char (nth (d ∷ ds) k)) (same_index p),
  digit_char-ne_null d,
  IsStr-map m (p + 1) ds
      (λ x lo hi.
        h x (omega arith) (omega arith) ∙ ap (λ k. digit_char (nth (d ∷ ds) k)) (shift_index x lo))
      (ground arith),
)
  where
    same_index : (n : ℕ) → n - n ≡ 0
    same_index n = omega arith

    shift_index : (x : ℕ) → p + 1 ≤ x → x - p ≡ suc (x - (p + 1))
    shift_index x lo = omega arith
