-- ===== src/Cstdlib/Stdlib/Fold.antt =====
-- stdlib.c: the loop of strtol over digits.
use rosco_cli.Prelude.{
  ℕ, zero, suc, ◌+◌, ◌*◌, ◌/◌, ◌%◌, ◌<◌, ◌≤◌, ◌≡◌, List, [], ◌∷◌, arith, length, ◌==◌,
  if◌then◌else◌, ltb, leb, inl, inr, Bool-cases, All, ◌∙◌, some, u32_mod, true, false, ◌||◌, ◌&&◌,
  Option-cases,
}
use rosco_cli.Memory.{Mem, Holds}
use rosco_cli.Cstdlib.Stdlib.{Progress, overflowed, accumulate, strtol_loop, digit_value}
use rosco_cli.Cstdlib.Stdlib.Digits.{from_digits}

-- The characters `cs` are digits of the base `b` with the values `ds`.
abbrev pub Spells : ℕ → List ℕ → List ℕ → Type 0
Spells b [] [] = Unit
Spells b [] (d ∷ ds) = ⊥
Spells b (c ∷ cs) [] = ⊥
Spells b (c ∷ cs) (d ∷ ds) = (digit_value c ≡ some d) × (d < b) × Spells b cs ds

-- The character `c` is no digit of the base `b`.
abbrev pub Stops : ℕ → ℕ → Type 0
Stops b c = (d : ℕ) → digit_value c ≡ some d → b ≤ d

-- what the loop has read after the digits
abbrev pub fold : (b limit acc : ℕ) → Progress → List ℕ → ℕ × Progress
fold b limit acc any [] = (acc, any)
fold b limit acc any (d ∷ ds) =
    let r = accumulate b (limit / b) (limit % b) acc any d in fold b limit r.0 r.1 ds

pub strtol_loop-fold :
    (f : ℕ) (m : Mem) (b limit p acc : ℕ) (any : Progress) (cs ds : List ℕ)
    → Holds m p cs
    → Spells b cs ds
    → Stops b (m (p + length cs))
    → length cs < f
    → strtol_loop f m b (limit / b) (limit % b) (m p) (p + 1) acc any
      ≡ some (record {
        acc = (fold b limit acc any ds).0;
        any = (fold b limit acc any ds).1;
        s = p + length cs + 1;
      })
unfolding strtol_loop
strtol_loop-fold zero m b limit p acc any cs ds h sp st lt = absurd (omega arith)
strtol_loop-fold (suc f) m b limit p acc any [] [] h sp st lt =
    let here : p + 0 ≡ p = omega arith in
    elim (Option-cases (digit_value (m p))) [
      | inl none_read ↦ ground arith
      | inr (d, read) ↦ let big : b ≤ d = st d (rw here read) in ground arith
    ]
strtol_loop-fold (suc f) m b limit p acc any [] (d ∷ ds) h sp st lt = elim sp [ ]
strtol_loop-fold (suc f) m b limit p acc any (c ∷ cs) [] h sp st lt = elim sp [ ]
strtol_loop-fold (suc f) m b limit p acc any (c ∷ cs) (d ∷ ds) (e, h) (v, small, sp) st lt =
    let r = accumulate b (limit / b) (limit % b) acc any d in
    let st' = λ (k : ℕ) (e' : digit_value (m (p + 1 + length cs)) ≡ some k). st k (ground arith) in
    ground (arith, strtol_loop-fold f m b limit (p + 1) r.0 r.1 cs ds h sp st' (omega arith))

-- Reading digits keeps the value, or remembers that it passed the limit.
abbrev pub After : (limit : ℕ) → ℕ → ℕ × Progress → Type 0
After limit v r =
    if leb v limit then (r.0 ≡ v) × (overflowed r.1 ≡ false) else overflowed r.1 ≡ true

le-from_digits : (b n : ℕ) (ds : List ℕ) → 1 ≤ b → n ≤ from_digits b n ds
le-from_digits b n [] h = omega arith
le-from_digits b n (d ∷ ds) h = let ih = le-from_digits b (n * b + d) ds h in grind arith

accumulate-overflow :
    (b q r acc : ℕ) (any : Progress) (d : ℕ)
    → overflowed any ≡ true
    → overflowed (accumulate b q r acc any d).1 ≡ true
unfolding accumulate
accumulate-overflow b q r acc any d h = ground arith

fold-overflow :
    (b limit acc : ℕ) (any : Progress) (ds : List ℕ)
    → overflowed any ≡ true
    → overflowed (fold b limit acc any ds).1 ≡ true
fold-overflow b limit acc any [] h = h
fold-overflow b limit acc any (d ∷ ds) h =
    let r = accumulate b (limit / b) (limit % b) acc any d in
    fold-overflow b limit r.0 r.1 ds (accumulate-overflow b (limit / b) (limit % b) acc any d h)

mul_step : (a q b : ℕ) → a < q → a * b + b ≤ q * b
mul_step a q b h = grind arith

-- The test on the last digit passes exactly where the value passes the limit.
cutoff_test :
    (b limit acc d : ℕ)
    → 2 ≤ b
    → d < b
    → (ltb (limit / b) acc || (acc == limit / b && ltb (limit % b) d)) ≡ ltb limit (acc * b + d)
cutoff_test b limit acc d hb hd =
    let q = limit / b in
    let e : limit ≡ q * b + limit % b = omega arith in
    let s : limit % b < b = omega arith in ground (arith, mul_step acc q b, mul_step q acc b)

accumulate_lem :
    (b limit acc : ℕ) (any : Progress) (d : ℕ)
    → 2 ≤ b
    → limit < u32_mod
    → d < b
    → overflowed any ≡ false
    → After limit (acc * b + d) (accumulate b (limit / b) (limit % b) acc any d)
unfolding accumulate
accumulate_lem b limit acc any d hb hl hd h =
    let r = accumulate b (limit / b) (limit % b) acc any d in
    elim (Bool-cases (leb (acc * b + d) limit)) [
      | inl within ↦
          let test : (ltb (limit / b) acc || (acc == limit / b && ltb (limit % b) d)) ≡ false =
            cutoff_test b limit acc d hb hd ∙ ground arith in
          rw within (ground arith)
      | inr past ↦
          let test : (ltb (limit / b) acc || (acc == limit / b && ltb (limit % b) d)) ≡ true =
            cutoff_test b limit acc d hb hd ∙ ground arith in
          rw past (ground arith)
    ]

-- The digits are read as their value, or the overflow is remembered.
pub fold-After :
    (b limit acc : ℕ) (any : Progress) (ds : List ℕ)
    → 2 ≤ b
    → limit < u32_mod
    → acc ≤ limit
    → All (λ d. d < b) ds
    → overflowed any ≡ false
    → After limit (from_digits b acc ds) (fold b limit acc any ds)
fold-After b limit acc any [] hb hl fits small h = ground arith
fold-After b limit acc any (d ∷ ds) hb hl fits (hd, small) h =
    let r = accumulate b (limit / b) (limit % b) acc any d in
    let step = accumulate_lem b limit acc any d hb hl hd h in
    elim (Bool-cases (leb (acc * b + d) limit)) [
      | inl within ↦
          let (value, on) : (r.0 ≡ acc * b + d) × (overflowed r.1 ≡ false) = rw within at step in
          rw (← value) (fold-After b limit r.0 r.1 ds hb hl (ground arith) small on)
      | inr past ↦
          let off : overflowed r.1 ≡ true = rw past at step in
          let big = le-from_digits b (acc * b + d) ds (omega arith) in
          let test : leb (from_digits b (acc * b + d) ds) limit ≡ false = ground arith in
          rw test (fold-overflow b limit r.0 r.1 ds off)
    ]
