-- ===== src/Memory.antt =====
-- Byte-addressed memory, and what it means that text or bytes lie in it. A pointer is the number of
-- the byte that it points to. Shared by the models of the C library, the terminal library and the
-- debug stub.
use rosco_cli.Prelude.{
  ℕ, zero, suc, ltb, subst, ◌++◌, ◌-◌, Bool-cases, inl, inr, ◌+◌, ◌≤◌, ◌<◌, ◌≡◌, refl, ◌≢◌, List,
  [], ◌∷◌, arith, ap₂, ◌==◌, if◌then◌else◌, length, All, ◌⊎◌, sym, ◌∙◌,
}

abbrev pub Mem : Type 0
Mem = ℕ → ℕ

-- *a = v
unfoldable pub poke : Mem → ℕ → ℕ → Mem
poke m a v x = if x == a then v else m x

-- The bytes `bs` lie at `p`.
abbrev pub Holds : Mem → ℕ → List ℕ → Type 0
Holds m p [] = Unit
Holds m p (b ∷ bs) = (m p ≡ b) × Holds m (p + 1) bs

-- The text `s`, which has no null byte, lies at `p` with a null byte behind it.
abbrev pub IsStr : Mem → ℕ → List ℕ → Type 0
IsStr m p [] = m p ≡ 0
IsStr m p (c ∷ s) = (m p ≡ c) × (c ≢ 0) × IsStr m (p + 1) s

-- the address `x` lies outside the `n` bytes at `p`
abbrev pub Outside : ℕ → ℕ → ℕ → Type 0
Outside p n x = (x < p) ⊎ (p + n ≤ x)

-- The `n` bytes at `p` are the same in both memories.
abbrev pub SameAt : Mem → Mem → ℕ → ℕ → Type 0
SameAt m m' p n = (x : ℕ) → p ≤ x → x < p + n → m' x ≡ m x

-- Only the `n` bytes at `p` may differ.
abbrev pub SameOutside : Mem → Mem → ℕ → ℕ → Type 0
SameOutside m m' p n = (x : ℕ) → Outside p n x → m' x ≡ m x

-- Two ranges that share no byte.
abbrev pub Apart : ℕ → ℕ → ℕ → ℕ → Type 0
Apart p n q k = (p + n ≤ q) ⊎ (q + k ≤ p)

pub poke_self : (m : Mem) (a v : ℕ) → poke m a v a ≡ v
unfolding poke
poke_self m a v = ground arith

pub poke_ne : (m : Mem) (a v x : ℕ) → x ≢ a → poke m a v x ≡ m x
unfolding poke
poke_ne m a v x h = ground arith

-- Text keeps lying where no byte of it changes.
pub IsStr-frame :
    (m m' : Mem) (p : ℕ) (s : List ℕ) → IsStr m p s → SameAt m m' p (length s + 1) → IsStr m' p s
IsStr-frame m m' p [] h same = ground (arith, same p)
IsStr-frame m m' p (c ∷ s) (e, ne, h) same = (
  ground (arith, same p),
  ne,
  IsStr-frame m m' (p + 1) s h (λ x lo hi. same x (omega arith) (omega arith)),
)

pub Holds-frame :
    (m m' : Mem) (p : ℕ) (s : List ℕ) → Holds m p s → SameAt m m' p (length s) → Holds m' p s
Holds-frame m m' p [] h same = tt
Holds-frame m m' p (c ∷ s) (e, h) same = (
  ground (arith, same p),
  Holds-frame m m' (p + 1) s h (λ x lo hi. same x (omega arith) (omega arith)),
)

-- One memory holds one text at one place.
pub IsStr-unique : (m : Mem) (p : ℕ) (s t : List ℕ) → IsStr m p s → IsStr m p t → s ≡ t
IsStr-unique m p [] [] hs ht = refl
IsStr-unique m p [] (d ∷ t) hs (e, ne, ht) = ground arith
IsStr-unique m p (c ∷ s) [] (e, ne, hs) ht = ground arith
IsStr-unique m p (c ∷ s) (d ∷ t) (e, ne, hs) (e', ne', ht) =
    ap₂ (λ a l. a ∷ l) (sym e ∙ e') (IsStr-unique m (p + 1) s t hs ht)

-- the byte at offset `i`, and zero behind the text
abbrev pub nth : List ℕ → ℕ → ℕ
nth [] i = 0
nth (c ∷ s) zero = c
nth (c ∷ s) (suc i) = nth s i

pub IsStr-nth :
    (m : Mem) (p : ℕ) (s : List ℕ)
    → IsStr m p s
    → (x : ℕ) → p ≤ x
    → x < p + length s
    → m x ≡ nth s (x - p)
IsStr-nth m p [] h x lo hi = absurd (omega arith)
IsStr-nth m p (c ∷ s) (e, ne, h) x lo hi = elim (Bool-cases (x == p)) [
  | inl at ↦ let e0 : x - p ≡ 0 = ground arith in rw e0 (ground arith)
  | inr past ↦
      let e1 : x - p ≡ suc (x - (p + 1)) = ground arith in
      rw e1 (IsStr-nth m (p + 1) s h x (ground arith) (omega arith))
]

pub nth-le : (s : List ℕ) (i : ℕ) → length s ≤ i → nth s i ≡ 0
nth-le [] i h = refl
nth-le (c ∷ s) zero h = absurd (omega arith)
nth-le (c ∷ s) (suc i) h = nth-le s i (omega arith)

-- the null byte behind a text
pub IsStr-end : (m : Mem) (p : ℕ) (s : List ℕ) → IsStr m p s → m (p + length s) ≡ 0
IsStr-end m p [] h = ground arith
IsStr-end m p (c ∷ s) (e, ne, h) = ground (arith, IsStr-end m (p + 1) s h)

-- Text that is left as it was, with other text written from its null byte on.
pub IsStr-append :
    (m m' : Mem) (p : ℕ) (s u : List ℕ)
    → IsStr m p s
    → SameAt m m' p (length s)
    → IsStr m' (p + length s) u
    → IsStr m' p (s ++ u)
IsStr-append m m' p [] u hs same hu = subst (λ a. IsStr m' a u) (omega arith) hu
IsStr-append m m' p (c ∷ s) u (e, ne, hs) same hu = (
  ground (arith, same p),
  ne,
  IsStr-append m m' (p + 1) s u hs (λ x lo hi. same x (omega arith) (omega arith))
      (subst (λ a. IsStr m' a u) (omega arith) hu),
)

pub nth-snoc : (s : List ℕ) (d k : ℕ) → nth (s ++ d ∷ []) k ≡ (if k == length s then d else nth s k)
nth-snoc [] d zero = refl
nth-snoc [] d (suc k) = ground arith
nth-snoc (c ∷ s) d zero = ground arith
nth-snoc (c ∷ s) d (suc k) = ground (arith, nth-snoc s d k)

-- Text is bytes in memory, its null byte left aside.
pub IsStr-Holds : (m : Mem) (p : ℕ) (s : List ℕ) → IsStr m p s → Holds m p s
IsStr-Holds m p [] h = tt
IsStr-Holds m p (c ∷ s) (e, ne, h) = (e, IsStr-Holds m (p + 1) s h)

-- the buffer with the bytes stored from `n` on, and a null byte behind them
abbrev pub store : Mem → ℕ → List ℕ → Mem
store buffer n [] = poke buffer n 0
store buffer n (c ∷ s) = store (poke buffer n c) (n + 1) s

pub store-frame :
    (buffer : Mem) (n : ℕ) (s : List ℕ) → SameOutside buffer (store buffer n s) n (length s + 1)
unfolding poke
store-frame buffer n [] x out = ground arith
store-frame buffer n (c ∷ s) x out = ground (arith, store-frame (poke buffer n c) (n + 1) s x)

pub store-IsStr :
    (buffer : Mem) (n : ℕ) (s : List ℕ) → All (λ c. c ≢ 0) s → IsStr (store buffer n s) n s
store-IsStr buffer n [] h = poke_self buffer n 0
store-IsStr buffer n (c ∷ s) (z, h) = (
  store-frame (poke buffer n c) (n + 1) s n (omega arith) ∙ poke_self buffer n c,
  z,
  store-IsStr (poke buffer n c) (n + 1) s h,
)

pub IsStr-split :
    (m : Mem) (p : ℕ) (s t : List ℕ) → IsStr m p (s ++ t) → Holds m p s × IsStr m (p + length s) t
IsStr-split m p [] t h = (tt, subst (λ a. IsStr m a t) (omega arith) h)
IsStr-split m p (c ∷ s) t (e, ne, h) =
    let (hs, ht) = IsStr-split m (p + 1) s t h in
    ((e, hs), subst (λ a. IsStr m a t) (omega arith) ht)

-- a memory that holds the text `s` at `p` and `t` at `q`, for `p` below `q`, and zeros elsewhere
abbrev pub two_texts : ℕ → List ℕ → ℕ → List ℕ → Mem
two_texts p s q t x = if ltb x p then 0 else if ltb x q then nth s (x - p) else nth t (x - q)
