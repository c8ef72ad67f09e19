-- ===== src/Cstdlib/Stdlib/Parse.antt =====
-- stdlib.c: strtol reads a numeral as its value, held to the range of a `long`.
use rosco_cli.Prelude.{
  ℕ, zero, suc, ◌+◌, ◌-◌, ◌/◌, ◌%◌, ◌<◌, ◌≤◌, ◌≡◌, ◌≢◌, refl, List, [], ◌∷◌, arith, length,
  if◌then◌else◌, leb, inl, inr, Bool-cases, All, subst, ℤ, pos, Option, none, some, u32_mod, true,
  false, Bool, min, sub_ℕ, signed32, ◌>>=◌,
}
use rosco_cli.Memory.{Mem, Holds}
use rosco_cli.Cstdlib.Stdlib.{
  nothing, Scan, strtol_loop, digit_value, skip_spaces, take_sign, take_prefix, finish, strtol,
}
use rosco_cli.Cstdlib.Stdlib.Digits.{from_digits}
use rosco_cli.Cstdlib.Stdlib.Fold.{Spells, Stops, fold, After, strtol_loop-fold, fold-After}

abbrev pub spaces : ℕ → List ℕ
spaces zero = []
spaces (suc k) = b' ' ∷ spaces k

skip_spaces_lem :
    (f : ℕ) (m : Mem) (p k : ℕ)
    → Holds m p (spaces k)
    → m (p + k) ≢ b' '
    → k < f
    → skip_spaces f m p ≡ some (m (p + k), p + k + 1)
unfolding skip_spaces
skip_spaces_lem zero m p k h ne lt = absurd (omega arith)
skip_spaces_lem (suc f) m p zero h ne lt = ground arith
skip_spaces_lem (suc f) m p (suc k) (e, h) ne lt =
    let ne' : m (p + 1 + k) ≢ b' ' = ground arith in
    ground (arith, skip_spaces_lem f m (p + 1) k h ne' (omega arith))

-- an optional sign; `true` is a minus
abbrev pub sign_text : Option Bool → List ℕ
sign_text none = []
sign_text (some true) = b'-' ∷ []
sign_text (some false) = b'+' ∷ []

abbrev pub is_minus : Option Bool → Bool
is_minus none = false
is_minus (some neg) = neg

-- the signed value, held to the range of a `long`
abbrev pub held : Bool → ℕ → ℤ
held neg v = if neg then sub_ℕ 0 (min v 0x8000_0000) else pos (min v 0x7fff_ffff)

abbrev limit_of : Bool → ℕ
limit_of neg = if neg then 0x8000_0000 else 0x7fff_ffff

finish_lem :
    (neg : Bool) (v : ℕ) (r : Scan)
    → After (limit_of neg) v (r.acc, r.any)
    → finish neg r ≡ (held neg v, r.s - 1)
unfolding finish signed32
finish_lem true v r h = elim (Bool-cases (leb v 0x8000_0000)) [
  | inl within ↦ ground arith
  | inr past ↦ ground arith
]
finish_lem false v r h = elim (Bool-cases (leb v 0x7fff_ffff)) [
  | inl within ↦ ground arith
  | inr past ↦ ground arith
]

digit-ne : (c d : ℕ) → digit_value c ≡ some d → (c ≢ b' ') × (c ≢ b'-') × (c ≢ b'+') × (c ≢ 0)
unfolding digit_value
digit-ne c d h = (ground arith, ground arith, ground arith, ground arith)

Spells-All : (b : ℕ) (cs ds : List ℕ) → Spells b cs ds → All (λ d. d < b) ds
Spells-All b [] [] sp = tt
Spells-All b [] (d ∷ ds) sp = elim sp [ ]
Spells-All b (c ∷ cs) [] sp = elim sp [ ]
Spells-All b (c ∷ cs) (d ∷ ds) (v, small, sp) = (small, Spells-All b cs ds sp)

-- What the scan and its end make of the digits at `q`.
scan_finish :
    (f : ℕ) (m : Mem) (b q : ℕ) (neg : Bool) (cs ds : List ℕ)
    → 2 ≤ b
    → Holds m q cs
    → Spells b cs ds
    → Stops b (m (q + length cs))
    → length cs < f
    → (strtol_loop f m b (limit_of neg / b) (limit_of neg % b) (m q) (q + 1) 0 nothing >>= λ r.
        some (finish neg r))
      ≡ some (held neg (from_digits b 0 ds), q + length cs)
scan_finish f m b q neg cs ds hb h sp st lt =
    let limit = limit_of neg in
    let r = fold b limit 0 nothing ds in
    let scanned = strtol_loop-fold f m b limit q 0 nothing cs ds h sp st lt in
    let after =
      fold-After b limit 0 nothing ds hb (limit-lt neg) (omega arith) (Spells-All b cs ds sp)
        refl in
    let ended =
      finish_lem neg (from_digits b 0 ds) (record { acc = r.0; any = r.1; s = q + length cs + 1 })
        after in
    rw (scanned, ended) (ground arith)
  where
    limit-lt : (neg : Bool) → limit_of neg < u32_mod
    limit-lt neg = ground arith

module _ (f : ℕ) (m : Mem) (p b k : ℕ) (c d : ℕ) (cs ds : List ℕ) (lo : 2 ≤ b) (hi : b ≤ 36)
    (plain : b ≢ 16) (blank : Holds m p (spaces k)) (lt : k < f) (lt' : suc (length cs) < f)
    (sp : Spells b (c ∷ cs) (d ∷ ds)) where
  strtol_unsigned :
      Holds m (p + k) (c ∷ cs)
      → Stops b (m (p + k + suc (length cs)))
      → strtol f m p (pos b) ≡ some (held false (from_digits b 0 (d ∷ ds)), p + k + suc (length cs))
  unfolding strtol take_sign take_prefix
  strtol_unsigned h st =
      let (ns, nm, np, nz) = digit-ne c d sp.0 in
      let start = skip_spaces_lem f m p k blank (ground arith) lt in
      let scanned = scan_finish f m b (p + k) false (c ∷ cs) (d ∷ ds) lo h sp st lt' in
      rw start (ground arith)

  strtol_signed :
      (neg : Bool)
      → Holds m (p + k) (sign_text (some neg))
      → Holds m (p + k + 1) (c ∷ cs)
      → Stops b (m (p + k + 1 + suc (length cs)))
      → strtol f m p (pos b)
        ≡ some (held neg (from_digits b 0 (d ∷ ds)), p + k + 1 + suc (length cs))
  unfolding strtol take_sign take_prefix
  strtol_signed true sg h st =
      let start = skip_spaces_lem f m p k blank (ground arith) lt in
      let scanned = scan_finish f m b (p + k + 1) true (c ∷ cs) (d ∷ ds) lo h sp st lt' in
      rw start (ground arith)
  strtol_signed false sg h st =
      let start = skip_spaces_lem f m p k blank (ground arith) lt in
      let scanned = scan_finish f m b (p + k + 1) false (c ∷ cs) (d ∷ ds) lo h sp st lt' in
      rw start (ground arith)

-- strtol reads spaces, an optional sign and digits of a base other than 16 as the signed value, held to the range of a `long`, and its end pointer is behind the digits. The fuel is above the spaces and the digits.
pub strtol_numeral :
    (f : ℕ) (m : Mem) (p b k : ℕ) (sg : Option Bool) (c d : ℕ) (cs ds : List ℕ)
    → 2 ≤ b
    → b ≤ 36
    → b ≢ 16
    → Holds m p (spaces k)
    → Holds m (p + k) (sign_text sg)
    → Holds m (p + k + length (sign_text sg)) (c ∷ cs)
    → Spells b (c ∷ cs) (d ∷ ds)
    → Stops b (m (p + k + length (sign_text sg) + suc (length cs)))
    → k < f
    → suc (length cs) < f
    → strtol f m p (pos b)
      ≡ some (
        held (is_minus sg) (from_digits b 0 (d ∷ ds)),
        p + k + length (sign_text sg) + suc (length cs),
      )
strtol_numeral f m p b k none c d cs ds lo hi plain blank sg h sp st lt lt' =
    let e : p + k + 0 ≡ p + k = omega arith in
    rw e (
      strtol_unsigned f m p b k c d cs ds lo hi plain blank lt lt' sp
        (subst (λ a. Holds m a (c ∷ cs)) e h) (subst (λ a. Stops b (m (a + suc (length cs)))) e st))
strtol_numeral f m p b k (some true) c d cs ds lo hi plain blank sg h sp st lt lt' =
    strtol_signed f m p b k c d cs ds lo hi plain blank lt lt' sp true sg h st
strtol_numeral f m p b k (some false) c d cs ds lo hi plain blank sg h sp st lt lt' =
    strtol_signed f m p b k c d cs ds lo hi plain blank lt lt' sp false sg h st
