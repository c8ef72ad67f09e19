-- ===== src/Cstdlib/Str/Search.antt =====
-- string.c: the length of a text, and the searches in it.
use rosco_cli.Prelude.{
  ℕ, zero, suc, ◌+◌, ◌%◌, ◌<◌, ◌≡◌, refl, Option, none, some, List, [], ◌∷◌, arith, length, ◌==◌,
  if◌then◌else◌, subst, min, ltb,
}
use rosco_cli.Memory.{Mem, IsStr, Holds}
use rosco_cli.Cstdlib.Str.{memchr, strchr, strlen_loop, strlen, strnlen, strrchr_loop, strrchr}

strlen_loop-length :
    (f : ℕ) (m : Mem) (p i : ℕ) (s : List ℕ)
    → IsStr m (p + i) s
    → length s < f
    → strlen_loop f m p i ≡ some (i + length s)
unfolding strlen_loop
strlen_loop-length zero m p i s h lt = absurd (omega arith)
strlen_loop-length (suc f) m p i [] h lt = ground arith
strlen_loop-length (suc f) m p i (c ∷ s) (e, ne, h) lt =
    let h' : IsStr m (p + (i + 1)) s = subst (λ a. IsStr m a s) (omega arith) h in
    ground (arith, strlen_loop-length f m p (i + 1) s h' (omega arith))

-- strlen of a text is its length, given fuel above the length.
pub strlen-length :
    (f : ℕ) (m : Mem) (p : ℕ) (s : List ℕ)
    → IsStr m p s
    → length s < f
    → strlen f m p ≡ some (length s)
unfolding strlen
strlen-length f m p s h lt =
    ground (arith, strlen_loop-length f m p 0 s (subst (λ a. IsStr m a s) (omega arith) h) lt)

-- the offset of the first `b`
abbrev pub index_of : ℕ → List ℕ → Option ℕ
index_of b [] = none
index_of b (c ∷ s) =
    if c == b then some 0 else (elim (index_of b s) [ none ↦ none | some i ↦ some (i + 1) ])

abbrev pub shift : ℕ → Option ℕ → Option ℕ
shift p none = none
shift p (some i) = some (p + i)

-- strchr points to the first `(char)c`; NULL if the text has none, and the null byte itself is found at the end.
pub strchr-index_of :
    (f : ℕ) (m : Mem) (p c : ℕ) (s : List ℕ)
    → IsStr m p s
    → length s < f
    → strchr f m p c
      ≡ some (if c % 256 == 0 then some (p + length s) else shift p (index_of (c % 256) s))
unfolding strchr
strchr-index_of zero m p c s h lt = absurd (omega arith)
strchr-index_of (suc f) m p c [] h lt = ground arith
strchr-index_of (suc f) m p c (d ∷ s) (e, ne, h) lt =
    ground (arith, strchr-index_of f m (p + 1) c s h (omega arith))

memchr-null :
    (m : Mem) (p n : ℕ) (s : List ℕ)
    → IsStr m p s
    → memchr m p 0 n ≡ (if ltb (length s) n then some (p + length s) else none)
unfolding memchr
memchr-null m p zero s h = ground arith
memchr-null m p (suc n) [] h = ground arith
memchr-null m p (suc n) (c ∷ s) (e, ne, h) = ground (arith, memchr-null m (p + 1) n s h)

-- strnlen is the length of the text, or the limit if that is less.
pub strnlen-min : (m : Mem) (p n : ℕ) (s : List ℕ) → IsStr m p s → strnlen m p n ≡ min n (length s)
unfolding strnlen
strnlen-min m p n s h = ground (arith, memchr-null m p n s h)

-- memchr points to the first of the bytes that equals `c` as an `int`, and is NULL if none does.
pub memchr-index_of :
    (m : Mem) (p c : ℕ) (s : List ℕ)
    → Holds m p s
    → memchr m p c (length s) ≡ shift p (index_of c s)
unfolding memchr
memchr-index_of m p c [] h = refl
memchr-index_of m p c (d ∷ s) (e, h) = ground (arith, memchr-index_of m (p + 1) c s h)

-- the offset of the last `b`
abbrev pub last_index_of : ℕ → List ℕ → Option ℕ
last_index_of b [] = none
last_index_of b (c ∷ s) = elim (last_index_of b s) [
  | none ↦ if c == b then some 0 else none
  | some i ↦ some (i + 1)
]

abbrev or_else : Option ℕ → Option ℕ → Option ℕ
or_else none b = b
or_else (some a) b = some a

strrchr_loop-last :
    (f : ℕ) (m : Mem) (p c : ℕ) (ret : Option ℕ) (s : List ℕ)
    → IsStr m p s
    → length s < f
    → strrchr_loop f m p c ret
      ≡ some (
          if c % 256 == 0
          then some (p + length s)
          else or_else (shift p (last_index_of (c % 256) s)) ret)
unfolding strrchr_loop
strrchr_loop-last zero m p c ret s h lt = absurd (omega arith)
strrchr_loop-last (suc f) m p c ret [] h lt = ground arith
strrchr_loop-last (suc f) m p c ret (d ∷ s) (e, ne, h) lt = ground (
  arith,
  strrchr_loop-last f m (p + 1) c (if m p == c % 256 then some p else ret) s h (omega arith),
)

-- strrchr points to the last `(char)c`; NULL if the text has none, and the null byte itself is found at the end.
pub strrchr-last_index_of :
    (f : ℕ) (m : Mem) (p c : ℕ) (s : List ℕ)
    → IsStr m p s
    → length s < f
    → strrchr f m p c
      ≡ some (if c % 256 == 0 then some (p + length s) else shift p (last_index_of (c % 256) s))
unfolding strrchr
strrchr-last_index_of f m p c s h lt = ground (arith, strrchr_loop-last f m p c none s h lt)
