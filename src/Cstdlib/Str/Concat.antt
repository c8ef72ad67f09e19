-- ===== src/Cstdlib/Str/Concat.antt =====
-- string.c: strncat and strcat.
use rosco_cli.Prelude.{
  ℕ, zero, suc, ◌+◌, ◌<◌, ◌≡◌, refl, some, List, [], ◌∷◌, arith, length, ◌==◌, if◌then◌else◌, take,
  min, ◌++◌, length-take,
}
use rosco_cli.Memory.{Mem, IsStr, poke, Apart, SameOutside, IsStr-frame, IsStr-end, IsStr-append}
use rosco_cli.Cstdlib.Str.{seek_end, strncat_loop, strncat, strcat}
use rosco_cli.Cstdlib.Str.Copy.{strcpy_loop-Copied}

pub seek_end-length :
    (f : ℕ) (m : Mem) (p : ℕ) (s : List ℕ)
    → IsStr m p s
    → length s < f
    → seek_end f m p ≡ some (p + length s)
unfolding seek_end
seek_end-length zero m p s h lt = absurd (omega arith)
seek_end-length (suc f) m p [] h lt = ground arith
seek_end-length (suc f) m p (c ∷ s) (e, ne, h) lt =
    ground (arith, seek_end-length f m (p + 1) s h (omega arith))

-- What appending the text `u` to the text `s` at `p` leaves.
pub record Appended (m m' : Mem) (p : ℕ) (s u : List ℕ) : Type 0 where
  pub text : IsStr m' p (s ++ u)
  pub frame : SameOutside m m' (p + length s) (length u + 1)

pub strncat_loop-text :
    (m : Mem) (d q n : ℕ) (t : List ℕ)
    → IsStr m q t
    → (n ≡ 0 → m d ≡ 0)
    → Apart d (min n (length t) + 1) q (length t + 1)
    → IsStr (strncat_loop m d q n) d (take n t)
      × SameOutside m (strncat_loop m d q n) d (min n (length t) + 1)
unfolding strncat_loop poke
strncat_loop-text m d q zero t h z apart = (z refl, λ x out. refl)
strncat_loop-text m d q (suc n) [] h z apart = (ground arith, λ x out. ground arith)
strncat_loop-text m d q (suc n) (c ∷ t) (e, ne, h) z apart =
    let m1 = poke m d (m q) in
    let m2 = if n == 0 then poke m1 (d + 1) 0 else m1 in
    let h2 : IsStr m2 (q + 1) t = IsStr-frame m m2 (q + 1) t h (λ x lo hi. ground arith) in
    let (text, frame) =
      strncat_loop-text m2 (d + 1) (q + 1) n t h2 (λ n0. ground arith) (omega arith) in
    (ground (arith, frame d), λ x out. ground (arith, frame x))

-- strncat appends the first `n` characters of the second text, with a null byte behind them; nothing else changes, if the bytes written lie apart from the second text and the fuel is above the first length.
pub strncat-Appended :
    (f : ℕ) (m : Mem) (p q n : ℕ) (s t : List ℕ)
    → IsStr m p s
    → IsStr m q t
    → Apart (p + length s) (min n (length t) + 1) q (length t + 1)
    → length s < f
    → (m' : Mem) × (strncat f m p q n ≡ some (m', p)) × Appended m m' p s (take n t)
unfolding strncat
strncat-Appended f m p q n s t hs ht apart lt =
    let (text, frame) =
      strncat_loop-text m (p + length s) q n t ht (λ z. IsStr-end m p s hs) apart in
    (
      strncat_loop m (p + length s) q n,
      ground (arith, seek_end-length f m p s hs lt),
      record {
        text = IsStr-append m _ p s (take n t) hs (λ x lo hi. frame x (omega arith)) text;
        frame = λ x out. frame x (omega (arith, length-take n t));
      },
    )

-- strcat appends the second text; nothing else changes, if the bytes written lie apart from the second text and the fuel is above both lengths.
pub strcat-Appended :
    (f : ℕ) (m : Mem) (p q : ℕ) (s t : List ℕ)
    → IsStr m p s
    → IsStr m q t
    → Apart (p + length s) (length t + 1) q (length t + 1)
    → length s < f
    → length t < f
    → (m' : Mem) × (strcat f m p q ≡ some (m', p)) × Appended m m' p s t
unfolding strcat
strcat-Appended f m p q s t hs ht apart lt lt' =
    let (m', run, copied) = strcpy_loop-Copied f m (p + length s) q t ht apart lt' in
    (
      m',
      ground (arith, seek_end-length f m p s hs lt),
      record {
        text = IsStr-append m m' p s t hs (λ x lo hi. copied.frame x (omega arith)) copied.text;
        frame = copied.frame;
      },
    )
