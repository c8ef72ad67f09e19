-- ===== src/Cstdlib/Str/Copy.antt =====
-- string.c: the copying and filling routines.
use rosco_cli.Prelude.{
  ℕ, zero, suc, ◌+◌, ◌-◌, ◌%◌, ◌<◌, ◌≤◌, ◌≡◌, refl, some, List, [], ◌∷◌, arith, length, ◌==◌,
  if◌then◌else◌, ap, min, ltb, inl, inr, Bool-cases, ◌∙◌,
}
use rosco_cli.Memory.{Mem, IsStr, Apart, SameOutside, poke, IsStr-frame, nth, nth-le, IsStr-nth}
use rosco_cli.Cstdlib.Str.{memcpy, memset_loop, memset, strcpy_loop, strcpy, strncpy, strnlen}
use rosco_cli.Cstdlib.Str.Search.{strnlen-min}

-- memcpy returns the end of the bytes that it wrote.
pub memcpy_end : (m : Mem) (d s n : ℕ) → (memcpy m d s n).1 ≡ d + n
unfolding memcpy
memcpy_end m d s zero = omega arith
memcpy_end m d s (suc n) = omega (arith, memcpy_end (poke m d (m s)) (d + 1) (s + 1) n)

-- memcpy writes only the `n` bytes at its destination.
pub memcpy-frame : (m : Mem) (d s n : ℕ) → SameOutside m (memcpy m d s n).0 d n
unfolding memcpy poke
memcpy-frame m d s zero x out = refl
memcpy-frame m d s (suc n) x out = ground (arith, memcpy-frame (poke m d (m s)) (d + 1) (s + 1) n x)

-- memcpy copies the bytes, if the two ranges share none.
pub memcpy-copies :
    (m : Mem) (d s n : ℕ)
    → Apart d n s n
    → (x : ℕ) → d ≤ x
    → x < d + n
    → (memcpy m d s n).0 x ≡ m (s + (x - d))
unfolding memcpy poke
memcpy-copies m d s zero apart x lo hi = absurd (omega arith)
memcpy-copies m d s (suc n) apart x lo hi = elim (Bool-cases (x == d)) [
  | inl at ↦ ground (arith, memcpy-frame (poke m d (m s)) (d + 1) (s + 1) n x)
  | inr past ↦ ground (arith, memcpy-copies (poke m d (m s)) (d + 1) (s + 1) n (omega arith) x)
]

pub memset-frame : (m : Mem) (p c n : ℕ) → SameOutside m (memset_loop m p c n) p n
unfolding memset_loop poke
memset-frame m p c zero x out = refl
memset-frame m p c (suc n) x out = ground (arith, memset-frame (poke m p (c % 256)) (p + 1) c n x)

-- memset stores the low byte of `c` in each of the `n` bytes.
pub memset-fills :
    (m : Mem) (p c n : ℕ) (x : ℕ) → p ≤ x → x < p + n → (memset m p c n).0 x ≡ c % 256
unfolding memset memset_loop poke
memset-fills m p c zero x lo hi = absurd (omega arith)
memset-fills m p c (suc n) x lo hi = elim (Bool-cases (x == p)) [
  | inl at ↦ ground (arith, memset-frame (poke m p (c % 256)) (p + 1) c n x)
  | inr past ↦ ground (arith, memset-fills (poke m p (c % 256)) (p + 1) c n x)
]

-- What a copy of the text `t` to `d` leaves: the text at `d`, and all other bytes as they were.
pub record Copied (m m' : Mem) (d : ℕ) (t : List ℕ) : Type 0 where
  pub text : IsStr m' d t
  pub frame : SameOutside m m' d (length t + 1)

pub strcpy_loop-Copied :
    (f : ℕ) (m : Mem) (d s : ℕ) (t : List ℕ)
    → IsStr m s t
    → Apart d (length t + 1) s (length t + 1)
    → length t < f
    → (m' : Mem) × (strcpy_loop f m d s ≡ some m') × Copied m m' d t
unfolding strcpy_loop poke
strcpy_loop-Copied zero m d s t h apart lt = absurd (omega arith)
strcpy_loop-Copied (suc f) m d s [] h apart lt =
    (poke m d (m s), ground arith, record { text = ground arith; frame = λ x out. ground arith })
strcpy_loop-Copied (suc f) m d s (c ∷ t) (e, ne, h) apart lt =
    let m1 = poke m d (m s) in
    let h1 : IsStr m1 (s + 1) t = IsStr-frame m m1 (s + 1) t h (λ x lo hi. ground arith) in
    let (m', run, copied) =
      strcpy_loop-Copied f m1 (d + 1) (s + 1) t h1 (omega arith) (omega arith) in
    (
      m',
      ground arith,
      record {
        text = (ground (arith, copied.frame d), ne, copied.text);
        frame = λ x out. ground (arith, copied.frame x);
      },
    )

-- strcpy copies the text and its null byte, and nothing else changes, if the two ranges share no byte and the fuel is above the length.
pub strcpy-Copied :
    (f : ℕ) (m : Mem) (d s : ℕ) (t : List ℕ)
    → IsStr m s t
    → Apart d (length t + 1) s (length t + 1)
    → length t < f
    → (m' : Mem) × (strcpy f m d s ≡ some (m', d)) × Copied m m' d t
unfolding strcpy
strcpy-Copied f m d s t h apart lt =
    let (m', run, copied) = strcpy_loop-Copied f m d s t h apart lt in (m', ground arith, copied)

strncpy_bytes :
    (m : Mem) (d s n : ℕ) (t : List ℕ)
    → IsStr m s t
    → Apart d n s (length t + 1)
    → (x : ℕ) → d ≤ x
    → x < d + n
    → (strncpy m d s n).0 x ≡ nth t (x - d)
unfolding strncpy memset
strncpy_bytes m d s n t h apart x lo hi =
    let size = strnlen m s n in
    let m1 = if size == n then m else memset_loop m (d + size) 0 (n - size) in
    let e : size ≡ min n (length t) = strnlen-min m s n t h in
    elim (Bool-cases (ltb x (d + size))) [
      | inl early ↦ ground (
        arith,
        memcpy-copies m1 d s size (omega arith) x lo,
        memset-frame m (d + size) 0 (n - size) (s + (x - d)),
        IsStr-nth m s t h (s + (x - d)),
      )
      | inr late ↦ ground (
        arith,
        memcpy-frame m1 d s size x,
        memset-fills m (d + size) 0 (n - size) x,
        nth-le t (x - d),
      )
    ]

-- strncpy leaves the first `n` bytes of the text, padded with null bytes, changes no other byte, and returns the end of the copied bytes.
pub strncpy_lem :
    (m : Mem) (d s n : ℕ) (t : List ℕ)
    → IsStr m s t
    → Apart d n s (length t + 1)
    → ((x : ℕ) → d ≤ x → x < d + n → (strncpy m d s n).0 x ≡ nth t (x - d))
      × SameOutside m (strncpy m d s n).0 d n
      × ((strncpy m d s n).1 ≡ d + min n (length t))
unfolding strncpy memset
strncpy_lem m d s n t h apart =
    let size = strnlen m s n in
    let m1 = if size == n then m else memset_loop m (d + size) 0 (n - size) in
    let e : size ≡ min n (length t) = strnlen-min m s n t h in
    (
      strncpy_bytes m d s n t h apart,
      (λ x out.
          ground (arith, memcpy-frame m1 d s size x, memset-frame m (d + size) 0 (n - size) x)),
      memcpy_end m1 d s size ∙ ap (λ k. d + k) e,
    )
