-- ===== src/Cstdlib/Str/Compare.antt =====
-- string.c and strings.c: the comparisons against the order of texts.
use Prim.Native.Nat.{compare, Ordering}
use mathlib.Core.List.{map}
use rosco_cli.Prelude.{
  ℕ, zero, suc, ◌+◌, ◌<◌, ◌≤◌, ◌≡◌, refl, some, List, [], ◌∷◌, arith, length, ◌==◌, if◌then◌else◌,
  take, leb, inl, inr, Bool-cases, ℤ, pos, negsuc, is_zero, ltb_ℤ, All, ◌&&◌, ◌-ℤ◌, signed8, sub_ℕ,
  sym, true, subst,
}
use rosco_cli.Memory.{Mem, IsStr, IsStr-unique}
use rosco_cli.Cstdlib.Ctype.{tolower}
use rosco_cli.Cstdlib.Str.{strcmp, strncmp, strncmp_loop, lower, strcasecmp, strcasecmp_loop}

-- what a caller reads off the result of a comparison
abbrev pub sign : ℤ → Ordering
sign r = if is_zero r then Ordering.eq else if ltb_ℤ r (pos 0) then Ordering.lt else Ordering.gt

-- The order of texts by their bytes; a text stands before its extensions.
abbrev pub lex : List ℕ → List ℕ → Ordering
lex [] [] = Ordering.eq
lex [] (d ∷ t) = Ordering.lt
lex (c ∷ s) [] = Ordering.gt
lex (c ∷ s) (d ∷ t) = elim (compare c d) [
  | Ordering.lt ↦ Ordering.lt
  | Ordering.eq ↦ lex s t
  | Ordering.gt ↦ Ordering.gt
]

-- strcmp orders texts of seven-bit characters by their bytes, given fuel above the first length.
pub strcmp-lex :
    (f : ℕ) (m : Mem) (p q : ℕ) (s t : List ℕ)
    → IsStr m p s
    → IsStr m q t
    → All (λ c. c < 128) s
    → All (λ c. c < 128) t
    → length s < f
    → (r : ℤ) × (strcmp f m p q ≡ some r) × (sign r ≡ lex s t)
unfolding strcmp ◌-ℤ◌ signed8
strcmp-lex zero m p q s t hs ht ss st lt = absurd (omega arith)
strcmp-lex (suc f) m p q [] [] hs ht ss st lt = (pos 0, ground arith, ground arith)
strcmp-lex (suc f) m p q [] (d ∷ t) hs (e, ne, ht) ss st lt = (negsuc 0, ground arith, ground arith)
strcmp-lex (suc f) m p q (c ∷ s) [] (e, ne, hs) ht ss st lt = (pos 1, ground arith, ground arith)
strcmp-lex (suc f) m p q (c ∷ s) (d ∷ t) (e, ne, hs) (e', ne', ht) (a, ss) (b, st) lt =
    elim (Bool-cases (m p == m q)) [
      | inl same ↦
          let (r, run, ok) = strcmp-lex f m (p + 1) (q + 1) s t hs ht ss st (omega arith) in
          (r, ground arith, ground arith)
      | inr differ ↦ (signed8 (m p) -ℤ signed8 (m q), ground arith, ground arith)
    ]

strncmp_loop-lex :
    (m : Mem) (p q n : ℕ) (r : ℤ) (s t : List ℕ)
    → IsStr m p s
    → IsStr m q t
    → is_zero r ≡ true
    → sign (strncmp_loop m p q n r) ≡ lex (take n s) (take n t)
unfolding strncmp_loop
strncmp_loop-lex m p q zero r s t hs ht z = ground arith
strncmp_loop-lex m p q (suc n) r [] [] hs ht z = ground arith
strncmp_loop-lex m p q (suc n) r [] (d ∷ t) hs (e, ne, ht) z = ground arith
strncmp_loop-lex m p q (suc n) r (c ∷ s) [] (e, ne, hs) ht z = ground arith
strncmp_loop-lex m p q (suc n) r (c ∷ s) (d ∷ t) (e, ne, hs) (e', ne', ht) z =
    ground (arith, strncmp_loop-lex m (p + 1) (q + 1) n (sub_ℕ (m p) (m q)) s t hs ht)

lex_refl : (s : List ℕ) → lex s s ≡ Ordering.eq
lex_refl [] = refl
lex_refl (c ∷ s) = ground (arith, lex_refl s)

-- strncmp orders the first `n` characters of two texts by their bytes, also of the same text.
pub strncmp-lex :
    (m : Mem) (p q n : ℕ) (s t : List ℕ)
    → IsStr m p s
    → IsStr m q t
    → sign (strncmp m p q n) ≡ lex (take n s) (take n t)
unfolding strncmp
strncmp-lex m p q n s t hs ht = elim (Bool-cases (p == q)) [
  | inl same ↦
      let e : s ≡ t = IsStr-unique m p s t hs (subst (λ a. IsStr m a t) (ground arith) ht) in
      rw e (ground (arith, lex_refl (take n t)))
  | inr differ ↦ ground (arith, strncmp_loop-lex m p q n (pos 0) s t hs ht refl)
]

-- An upper-case letter becomes its lower-case letter.
abbrev pub to_lower : ℕ → ℕ
to_lower c = if leb b'A' c && leb c b'Z' then c + 32 else c

lower-to_lower : (m : Mem) (p : ℕ) → lower m p ≡ pos (to_lower (m p))
unfolding lower tolower
lower-to_lower m p = ground arith

strcasecmp_loop-lex :
    (f : ℕ) (m : Mem) (p q : ℕ) (s t : List ℕ)
    → IsStr m p s
    → IsStr m q t
    → length s < f
    → (r : ℤ) × (strcasecmp_loop f m p q ≡ some r)
      × (sign r ≡ lex (map to_lower s) (map to_lower t))
unfolding strcasecmp_loop ◌-ℤ◌
strcasecmp_loop-lex zero m p q s t hs ht lt = absurd (omega arith)
strcasecmp_loop-lex (suc f) m p q [] [] hs ht lt = (
  lower m p -ℤ lower m q,
  ground (arith, lower-to_lower m p, lower-to_lower m q),
  ground (arith, lower-to_lower m p, lower-to_lower m q),
)
strcasecmp_loop-lex (suc f) m p q [] (d ∷ t) hs (e, ne, ht) lt = (
  lower m p -ℤ lower m q,
  ground (arith, lower-to_lower m p, lower-to_lower m q),
  ground (arith, lower-to_lower m p, lower-to_lower m q),
)
strcasecmp_loop-lex (suc f) m p q (c ∷ s) [] (e, ne, hs) ht lt = (
  lower m p -ℤ lower m q,
  ground (arith, lower-to_lower m p, lower-to_lower m q),
  ground (arith, lower-to_lower m p, lower-to_lower m q),
)
strcasecmp_loop-lex (suc f) m p q (c ∷ s) (d ∷ t) (e, ne, hs) (e', ne', ht) lt =
    elim (Bool-cases (to_lower (m p) == to_lower (m q))) [
      | inl same ↦
          let (r, run, ok) = strcasecmp_loop-lex f m (p + 1) (q + 1) s t hs ht (omega arith) in
          (r, ground (arith, lower-to_lower m p, lower-to_lower m q), ground arith)
      | inr differ ↦ (
        lower m p -ℤ lower m q,
        ground (arith, lower-to_lower m p, lower-to_lower m q),
        ground (arith, lower-to_lower m p, lower-to_lower m q),
      )
    ]

-- strcasecmp orders texts by their bytes with upper-case letters taken as lower-case ones, given fuel above the first length.
pub strcasecmp-lex :
    (f : ℕ) (m : Mem) (p q : ℕ) (s t : List ℕ)
    → IsStr m p s
    → IsStr m q t
    → length s < f
    → (r : ℤ) × (strcasecmp f m p q ≡ some r) × (sign r ≡ lex (map to_lower s) (map to_lower t))
unfolding strcasecmp
strcasecmp-lex f m p q s t hs ht lt = elim (Bool-cases (p == q)) [
  | inl same ↦
      let e : s ≡ t = IsStr-unique m p s t hs (subst (λ a. IsStr m a t) (ground arith) ht) in
      (pos 0, ground arith, rw e (sym (lex_refl (map to_lower t))))
  | inr differ ↦
      let (r, run, ok) = strcasecmp_loop-lex f m p q s t hs ht lt in (r, ground arith, ok)
]

-- A first character above the seven-bit range stands before every seven-bit one, since `char` is signed.
pub strcmp_high :
    (f : ℕ) (m : Mem) (p q : ℕ)
    → 128 ≤ m p
    → m p < 256
    → 0 < m q
    → m q < 128
    → (r : ℤ) × (strcmp (suc f) m p q ≡ some r) × (sign r ≡ Ordering.lt)
unfolding strcmp ◌-ℤ◌ signed8
strcmp_high f m p q hi byte nz lo = (signed8 (m p) -ℤ signed8 (m q), ground arith, ground arith)
