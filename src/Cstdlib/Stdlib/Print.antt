-- ===== src/Cstdlib/Stdlib/Print.antt =====
-- stdlib.c: utoa and itoa write the numeral of their argument.
use mathlib.Core.List.{map}
use rosco_cli.Prelude.{
  ℕ, zero, suc, ◌+◌, ◌-◌, ◌/◌, ◌%◌, ◌<◌, ◌≤◌, ◌≡◌, refl, List, [], ◌∷◌, ◌++◌, arith, length, ◌==◌,
  if◌then◌else◌, leb, inl, inr, Bool-cases, All, length-append, ◌∙◌, ap, subst, pos, some, u32_mod,
  true, ◌⊎◌,
}
use rosco_cli.Memory.{Mem, IsStr, poke, poke_self, poke_ne, nth, nth-snoc, SameOutside}
use rosco_cli.Cstdlib.Stdlib.{digit_char, utoa_digits, swap_loop, utoa_write, utoa, itoa}
use rosco_cli.Cstdlib.Stdlib.Digits.{
  from_digits, to_digits, from_digits-to_digits, to_digits-All, length-to_digits, IsStr-map,
}

-- The loop of utoa writes the digits behind `str + i`, the lowest first.
pub record Written (m m' : Mem) (p : ℕ) (ds : List ℕ) : Type 0 where
  pub digits :
      (x : ℕ) → p ≤ x → x < p + length ds → m' x ≡ digit_char (nth ds (p + length ds - 1 - x))
  pub frame : SameOutside m m' p (length ds)

Written-one : (m : Mem) (p d : ℕ) → Written m (poke m p (digit_char d)) p (d ∷ [])
unfolding poke
Written-one m p d = record { digits = λ x lo hi. ground arith; frame = λ x out. ground arith }

module _ (m m' : Mem) (p d : ℕ) (ds : List ℕ) where
  Written-digits :
      Written (poke m p (digit_char d)) m' (p + 1) ds
      → (x : ℕ) → p ≤ x
      → x < p + length (ds ++ d ∷ [])
      → m' x ≡ digit_char (nth (ds ++ d ∷ []) (p + length (ds ++ d ∷ []) - 1 - x))
  unfolding poke
  Written-digits w x lo hi =
      let n : length (ds ++ d ∷ []) ≡ length ds + 1 = length-append ds (d ∷ []) in
      rw (n, nth-snoc)
        (elim (Bool-cases (x == p)) [
          | inl first ↦ ground (arith, w.frame x)
          | inr later ↦
              let e : p + (length ds + 1) - 1 - x ≡ p + 1 + length ds - 1 - x = omega arith in
              ground (arith, w.digits x)
        ])

  Written-frame :
      Written (poke m p (digit_char d)) m' (p + 1) ds → SameOutside m m' p (length (ds ++ d ∷ []))
  unfolding poke
  Written-frame w x out = ground (arith, length-append ds (d ∷ []), w.frame x)

  Written-snoc : Written (poke m p (digit_char d)) m' (p + 1) ds → Written m m' p (ds ++ d ∷ [])
  Written-snoc w = record { digits = Written-digits w; frame = Written-frame w }

utoa_digits-Written :
    (f : ℕ) (m : Mem) (str i v b : ℕ)
    → ((utoa_digits f m str i v b).1 ≡ i + length (to_digits f b v))
      × Written m (utoa_digits f m str i v b).0 (str + i) (to_digits f b v)
unfolding utoa_digits to_digits
utoa_digits-Written zero m str i v b =
    (omega arith, record { digits = λ x lo hi. absurd (omega arith); frame = λ x out. refl })
utoa_digits-Written (suc f) m str i v b =
    let m1 = poke m (str + i) (digit_char (v % b)) in
    let ds = to_digits f b (v / b) in
    let (count, w) = utoa_digits-Written f m1 str (i + 1) (v / b) b in
    let w' =
      subst (λ q. Written m1 (utoa_digits f m1 str (i + 1) (v / b) b).0 q ds) (next str i) w in
    elim (Bool-cases (v / b == 0)) [
      | inl last ↦ rw last (refl, Written-one m (str + i) (v % b))
      | inr more ↦ rw more (
        omega (arith, count, length-append ds ((v % b) ∷ [])),
        Written-snoc m _ (str + i) (v % b) ds w',
      )
    ]
  where
    next : (a c : ℕ) → a + (c + 1) ≡ a + c + 1
    next a c = omega arith

-- The swaps turn round the bytes from `str + j` to `str + i` and leave the others.
swap_loop_lem :
    (f : ℕ) (m : Mem) (str j i : ℕ)
    → i ≤ f + j
    → ((x : ℕ) → str + j ≤ x → x ≤ str + i → swap_loop f m str j i x ≡ m (str + j + (str + i) - x))
      × ((x : ℕ) → (x < str + j) ⊎ (str + i < x) → swap_loop f m str j i x ≡ m x)
unfolding swap_loop poke
swap_loop_lem zero m str j i h = (λ x lo hi. ground arith, λ x out. refl)
swap_loop_lem (suc f) m str j i h =
    let m1 = poke (poke m (str + j) (m (str + i))) (str + i) (m (str + j)) in
    let (turned, kept) = swap_loop_lem f m1 str (j + 1) (i - 1) (omega arith) in
    (λ x lo hi. ground (arith, turned x, kept x), λ x out. ground (arith, turned x, kept x))

-- What a printed number leaves: the text of its digits, and all other bytes as they were.
pub record Printed (m m' : Mem) (p b v : ℕ) (ds : List ℕ) : Type 0 where
  pub text : IsStr m' p (map digit_char ds)
  pub digits : All (λ d. d < b) ds
  pub value : from_digits b 0 ds ≡ v
  pub some_digit : 0 < length ds
  pub short : length ds ≤ 32
  pub frame : SameOutside m m' p (length ds + 1)

length-to_digits_pos : (f b v : ℕ) → 0 < length (to_digits (suc f) b v)
unfolding to_digits
length-to_digits_pos f b v = ground (
  arith,
  length-append (to_digits f b (v / b)) ((v % b) ∷ []),
  length-append {A = ℕ} [] ((v % b) ∷ []),
)

-- Turning round the bytes that were written puts the highest digit first, with a null byte behind.
module _ (m m1 : Mem) (p n : ℕ) (ds : List ℕ) (w : Written m m1 (p + 0) ds)
    (count : n ≡ 0 + length ds) (some_digit : 0 < length ds) (short : length ds ≤ 32) where
  turned-digits :
      (x : ℕ)
      → p ≤ x
      → x < p + length ds
      → swap_loop 32 (poke m1 (p + n) 0) p 0 (n - 1) x ≡ digit_char (nth ds (x - p))
  unfolding poke
  turned-digits x lo hi =
      let (turned, kept) = swap_loop_lem 32 (poke m1 (p + n) 0) p 0 (n - 1) (omega arith) in
      let y = p + 0 + (p + (n - 1)) - x in
      let e : p + 0 + length ds - 1 - y ≡ x - p = omega arith in
      turned x (omega arith) (omega arith)
      ∙ poke_ne m1 (p + n) 0 y (omega arith)
      ∙ w.digits y (omega arith) (omega arith)
      ∙ ap (λ k. digit_char (nth ds k)) e

  turned-null : swap_loop 32 (poke m1 (p + n) 0) p 0 (n - 1) (p + length ds) ≡ 0
  turned-null =
      let (turned, kept) = swap_loop_lem 32 (poke m1 (p + n) 0) p 0 (n - 1) (omega arith) in
      let e : p + n ≡ p + length ds = omega arith in
      kept (p + length ds) (omega arith) ∙ rw (← e) (poke_self m1 (p + n) 0)

  turned-frame : SameOutside m (swap_loop 32 (poke m1 (p + n) 0) p 0 (n - 1)) p (length ds + 1)
  turned-frame x out =
      let (turned, kept) = swap_loop_lem 32 (poke m1 (p + n) 0) p 0 (n - 1) (omega arith) in
      kept x (omega arith) ∙ poke_ne m1 (p + n) 0 x (omega arith) ∙ w.frame x (omega arith)

utoa_write-Printed :
    (m : Mem) (v p b : ℕ)
    → 2 ≤ b
    → v < u32_mod
    → Printed m (utoa_write m v p b) p b v (to_digits 32 b v)
unfolding utoa_write
utoa_write-Printed m v p b hb hv =
    let ds = to_digits 32 b v in
    let (count, w) = utoa_digits-Written 32 m p 0 v b in
    let short = length-to_digits 32 b v in
    let some_digit = length-to_digits_pos 31 b v in
    record {
      text =
          IsStr-map _ p ds (turned-digits m _ p _ ds w count some_digit short)
            (turned-null m _ p _ ds w count some_digit short);
      digits = to_digits-All 32 b v hb;
      value = from_digits-to_digits 32 b v hb hv;
      some_digit = some_digit;
      short = short;
      frame = turned-frame m _ p _ ds w count some_digit short;
    }

-- utoa writes the numeral of the value in the base, for the bases from 2 to 36, and returns its buffer.
pub utoa-Printed :
    (m : Mem) (v p b : ℕ)
    → v < u32_mod
    → 2 ≤ b
    → b ≤ 36
    → (m' : Mem) × (ds : List ℕ) × (utoa m v p (pos b) ≡ (m', some p)) × Printed m m' p b v ds
unfolding utoa
utoa-Printed m v p b hv lo hi =
    (utoa_write m v p b, to_digits 32 b v, ground arith, utoa_write-Printed m v p b lo hv)

-- the sign and the size of the `int` with bit pattern `v`
abbrev pub minus : ℕ → List ℕ
minus v = if leb 0x8000_0000 v then b'-' ∷ [] else []

abbrev pub magnitude : ℕ → ℕ
magnitude v = if leb 0x8000_0000 v then u32_mod - v else v

-- What itoa leaves at `p` for the `int` with bit pattern `v`.
pub record Decimal (m m' : Mem) (p v : ℕ) (ds : List ℕ) : Type 0 where
  pub text : IsStr m' p (minus v ++ map digit_char ds)
  pub digits : All (λ d. d < 10) ds
  pub value : from_digits 10 0 ds ≡ magnitude v
  pub some_digit : 0 < length ds
  pub short : length ds ≤ 32

Decimal-negative :
    (m m' : Mem) (p v : ℕ) (ds : List ℕ)
    → leb 0x8000_0000 v ≡ true
    → v < u32_mod
    → Printed (poke m p b'-') m' (p + 1) 10 ((u32_mod - v) % u32_mod) ds
    → Decimal m m' p v ds
Decimal-negative m m' p v ds neg hv printed = record {
  text = rw neg (
    printed.frame p (omega arith) ∙ poke_self m p b'-',
    (λ e. absurd (omega arith)),
    printed.text,
  );
  digits = printed.digits;
  value = rw neg (printed.value ∙ ground arith);
  some_digit = printed.some_digit;
  short = printed.short;
}

-- In base ten itoa writes a minus for a negative `int` and then the numeral of its size, and returns its buffer.
pub itoa-Decimal :
    (m : Mem) (v p : ℕ)
    → v < u32_mod
    → (m' : Mem) × (ds : List ℕ) × (itoa m v p (pos 10) ≡ (m', some p)) × Decimal m m' p v ds
unfolding itoa
itoa-Decimal m v p hv = elim (Bool-cases (leb 0x8000_0000 v)) [
  | inl neg ↦
      let u = (u32_mod - v) % u32_mod in
      (
        utoa_write (poke m p b'-') u (p + 1) 10,
        to_digits 32 10 u,
        rw neg,
        Decimal-negative m _ p v _ neg hv
            (utoa_write-Printed (poke m p b'-') u (p + 1) 10 (omega arith) (omega arith)),
      )
  | inr nonneg ↦
      let printed = utoa_write-Printed m v p 10 (omega arith) hv in
      (
        utoa_write m v p 10,
        to_digits 32 10 v,
        rw nonneg,
        record {
          text = rw nonneg printed.text;
          digits = printed.digits;
          value = rw nonneg printed.value;
          some_digit = printed.some_digit;
          short = printed.short;
        },
      )
]
