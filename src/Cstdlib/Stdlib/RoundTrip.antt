-- ===== src/Cstdlib/Stdlib/RoundTrip.antt =====
-- stdlib.c: atoi reads what itoa writes.
use mathlib.Core.List.{map}
use rosco_cli.Prelude.{
  ℕ, suc, ◌+◌, ◌<◌, ◌≤◌, ◌≡◌, refl, List, [], ◌∷◌, ◌++◌, arith, length, if◌then◌else◌, leb, All,
  ◌∙◌, sym, ap, subst, pos, none, some, u32_mod, true, false, Bool, signed32,
}
use rosco_cli.Memory.{Mem, IsStr, IsStr-end, IsStr-Holds}
use rosco_cli.Cstdlib.Stdlib.{digit_value, digit_char, itoa, atoi}
use rosco_cli.Cstdlib.Stdlib.Digits.{from_digits, digit_value-digit_char}
use rosco_cli.Cstdlib.Stdlib.Print.{magnitude, itoa-Decimal}
use rosco_cli.Cstdlib.Stdlib.Fold.{Spells, Stops}
use rosco_cli.Cstdlib.Stdlib.Parse.{held, strtol_numeral}

Spells-map : (b : ℕ) (ds : List ℕ) → b ≤ 36 → All (λ d. d < b) ds → Spells b (map digit_char ds) ds
Spells-map b [] hb small = tt
Spells-map b (d ∷ ds) hb (hd, small) =
    (digit_value-digit_char d (omega arith), hd, Spells-map b ds hb small)

null-Stops : (b : ℕ) → Stops b 0
unfolding digit_value
null-Stops b d h = ground arith

length-map : (ds : List ℕ) → length (map digit_char ds) ≡ length ds
length-map [] = refl
length-map (d ∷ ds) = ap suc (length-map ds)

-- reading a decimal text that lies at `p`, behind an optional minus
pub atoi-text :
    (f : ℕ) (m : Mem) (p : ℕ) (neg : Bool) (ds : List ℕ)
    → IsStr m p ((if neg then b'-' ∷ [] else []) ++ map digit_char ds)
    → All (λ d. d < 10) ds
    → 0 < length ds
    → length ds ≤ 32
    → 33 < f
    → atoi f m p ≡ some (held neg (from_digits 10 0 ds))
unfolding atoi
atoi-text f m p neg [] h small pos_len short lt = absurd (omega arith)
atoi-text f m p true (d ∷ ds) (e, ne, h) small pos_len short lt =
    let at : p + 0 ≡ p = omega arith in
    let e' : m (p + 0) ≡ b'-' = rw at e in
    let n = length-map ds in
    let text = digit_char d ∷ map digit_char ds in
    let h' : IsStr m (p + 0 + 1) (map digit_char (d ∷ ds)) = rw at h in
    let end : m (p + 0 + 1 + suc (length (map digit_char ds))) ≡ 0 =
      IsStr-end m (p + 0 + 1) text h' in
    let r =
      strtol_numeral f m p 10 0 (some true) (digit_char d) d (map digit_char ds) ds (omega arith)
        (omega arith) (omega arith) tt (e', tt) (IsStr-Holds m (p + 0 + 1) text h')
        (Spells-map 10 (d ∷ ds) (omega arith) small) (subst (Stops 10) (sym end) (null-Stops 10))
        (omega arith) (omega arith) in
    rw r
atoi-text f m p false (d ∷ ds) h small pos_len short lt =
    let at : p + 0 + 0 ≡ p = omega arith in
    let n = length-map ds in
    let text = digit_char d ∷ map digit_char ds in
    let h' : IsStr m (p + 0 + 0) (map digit_char (d ∷ ds)) = rw at h in
    let end : m (p + 0 + 0 + suc (length (map digit_char ds))) ≡ 0 =
      IsStr-end m (p + 0 + 0) text h' in
    let r =
      strtol_numeral f m p 10 0 none (digit_char d) d (map digit_char ds) ds (omega arith)
        (omega arith) (omega arith) tt tt (IsStr-Holds m (p + 0 + 0) text h')
        (Spells-map 10 (d ∷ ds) (omega arith) small) (subst (Stops 10) (sym end) (null-Stops 10))
        (omega arith) (omega arith) in
    rw r

held-magnitude : (v : ℕ) → v < u32_mod → held (leb 0x8000_0000 v) (magnitude v) ≡ signed32 v
unfolding signed32
held-magnitude v h = ground arith

-- Every `int` that itoa writes in base ten is read back by atoi, the least one included.
pub atoi-itoa :
    (f : ℕ) (m : Mem) (v p : ℕ)
    → v < u32_mod
    → 33 < f
    → atoi f (itoa m v p (pos 10)).0 p ≡ some (signed32 v)
atoi-itoa f m v p hv lt =
    let (m', ds, run, dec) = itoa-Decimal m v p hv in
    rw run (
      atoi-text f m' p (leb 0x8000_0000 v) ds dec.text dec.digits dec.some_digit dec.short lt
      ∙ ap (λ n. some (held (leb 0x8000_0000 v) n)) dec.value
      ∙ ap some (held-magnitude v hv))
