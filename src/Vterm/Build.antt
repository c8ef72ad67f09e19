-- ===== src/Vterm/Build.antt =====
-- vterm.c: what the joined texts are, and which bytes are written on the way.
use rosco_cli.Prelude.{
  ℕ, zero, suc, ◌+◌, ◌<◌, ◌≤◌, ◌≡◌, refl, List, [], ◌∷◌, ◌++◌, arith, length, Option, some, ◌∙◌,
  take, length-take, length-append, append_assoc, append-nil, sym, subst,
}
use rosco_cli.Memory.{Mem, IsStr, Apart, SameOutside, IsStr-frame, poke, poke_self, poke_ne}
use rosco_cli.Cstdlib.Str.{memset}
use rosco_cli.Cstdlib.Str.Copy.{memset-fills, memset-frame}
use rosco_cli.Cstdlib.Str.Concat.{strncat-Appended}
use rosco_cli.Vterm.{ascii_esc, nsend_loop, vt_nsend, build, calloc, compose, compose_bracket}

-- The text lies at `p` and shares no byte with the `w` bytes at `b`.
abbrev pub Argument : Mem → (b w p : ℕ) → List ℕ → Type 0
Argument m b w p s = IsStr m p s × Apart b w p (length s + 1)

-- Each part points to its text, which shares no byte with the `w` bytes at `b`.
abbrev pub Sources : Mem → (b w : ℕ) → List (ℕ × ℕ) → List (List ℕ) → Type 0
Sources m b w [] [] = Unit
Sources m b w [] (t ∷ ts) = ⊥
Sources m b w ((p, n) ∷ parts) [] = ⊥
Sources m b w ((p, n) ∷ parts) (t ∷ ts) = Argument m b w p t × Sources m b w parts ts

-- what the parts contribute
abbrev pub joined : List (ℕ × ℕ) → List (List ℕ) → List ℕ
joined [] ts = []
joined (part ∷ parts) [] = []
joined ((p, n) ∷ parts) (t ∷ ts) = take n t ++ joined parts ts

Sources-frame :
    (m m' : Mem) (b w : ℕ) (parts : List (ℕ × ℕ)) (ts : List (List ℕ))
    → Sources m b w parts ts
    → SameOutside m m' b w
    → Sources m' b w parts ts
Sources-frame m m' b w [] [] h same = tt
Sources-frame m m' b w [] (t ∷ ts) h same = elim h [ ]
Sources-frame m m' b w ((p, n) ∷ parts) [] h same = elim h [ ]
Sources-frame m m' b w ((p, n) ∷ parts) (t ∷ ts) ((text, apart), h) same = (
  (IsStr-frame m m' p t text (λ x lo hi. same x (omega arith)), apart),
  Sources-frame m m' b w parts ts h same,
)

-- The parts are appended one after the other, if with the text before them and a null byte they fit the `w` bytes.
pub build-joined :
    (f : ℕ) (m : Mem) (b w : ℕ) (s : List ℕ) (parts : List (ℕ × ℕ)) (ts : List (List ℕ))
    → IsStr m b s
    → Sources m b w parts ts
    → length s + length (joined parts ts) < w
    → w ≤ f
    → (m' : Mem) × (build f m b parts ≡ some m')
      × IsStr m' b (s ++ joined parts ts)
      × SameOutside m m' b w
unfolding build
build-joined f m b w s [] [] hs h fits fuel =
    (m, refl, subst (IsStr m b) (sym (append-nil s)) hs, λ x out. refl)
build-joined f m b w s [] (t ∷ ts) hs h fits fuel = elim h [ ]
build-joined f m b w s ((p, n) ∷ parts) [] hs h fits fuel = elim h [ ]
build-joined f m b w s ((p, n) ∷ parts) (t ∷ ts) hs ((text, apart), h) fits fuel =
    let u = take n t in
    let size = length-append u (joined parts ts) in
    let bound = length-take n t in
    let (m1, run, app) = strncat-Appended f m b p n s t hs text (omega arith) (omega arith) in
    let same : SameOutside m m1 b w = λ x out. app.frame x (omega arith) in
    let (m', run', text', same') =
      build-joined f m1 b w (s ++ u) parts ts app.text (Sources-frame m m1 b w parts ts h same)
        (omega (arith, length-append s u)) fuel in
    (
      m',
      rw run run',
      subst (IsStr m' b) (append_assoc s u (joined parts ts)) text',
      λ x out. same' x out ∙ same x out,
    )

-- vt_nsend sends the text behind an escape character, if the limit is not below its length.
pub nsend_loop-text :
    (m : Mem) (p n : ℕ) (s : List ℕ) → IsStr m p s → length s ≤ n → nsend_loop m p n ≡ s
unfolding nsend_loop
nsend_loop-text m p zero [] h le = refl
nsend_loop-text m p (suc n) [] h le = ground arith
nsend_loop-text m p zero (c ∷ s) h le = absurd (omega arith)
nsend_loop-text m p (suc n) (c ∷ s) (e, ne, h) le =
    ground (arith, nsend_loop-text m (p + 1) n s h (omega arith))

calloc-IsStr : (m : Mem) (b cap : ℕ) → 0 < cap → IsStr (calloc m b cap) b []
unfolding calloc
calloc-IsStr m b cap h = memset-fills m b 0 cap b (omega arith) (omega arith)

pub calloc-frame : (m : Mem) (b cap : ℕ) → SameOutside m (calloc m b cap) b cap
unfolding calloc memset
calloc-frame m b cap x out = memset-frame m b 0 cap x out

-- What a command leaves and sends when it wrote inside the `w` bytes at `b`.
pub record Sent (m : Mem) (r : Option (Mem × List ℕ)) (b w : ℕ) (s : List ℕ) : Type 0 where
  pub memory : Mem
  pub run : r ≡ some (memory, ascii_esc ∷ s)
  pub text : IsStr memory b s
  pub frame : SameOutside m memory b w

-- A command with room for its text of at most `cap` characters sends it; it writes inside the `w` bytes.
pub compose-Sent :
    (f : ℕ) (m : Mem) (b cap w : ℕ) (parts : List (ℕ × ℕ)) (ts : List (List ℕ))
    → Sources m b w parts ts
    → 0 < cap
    → cap ≤ w
    → length (joined parts ts) ≤ cap
    → length (joined parts ts) < w
    → w ≤ f
    → Sent m (compose f m b cap parts) b w (joined parts ts)
unfolding compose vt_nsend
compose-Sent f m b cap w parts ts h room le fits inside fuel =
    let same : SameOutside m (calloc m b cap) b w = λ x out. calloc-frame m b cap x (omega arith) in
    let start = calloc-IsStr m b cap room in
    let (m', run, text, same') =
      build-joined f (calloc m b cap) b w [] parts ts start (Sources-frame m _ b w parts ts h same)
        (omega arith) fuel in
    record {
      memory = m';
      run = rw (run, nsend_loop-text m' b cap (joined parts ts) text fits);
      text = text;
      frame = λ x out. same' x out ∙ same x out;
    }

-- The same with the bracket put in place first.
pub compose_bracket-Sent :
    (f : ℕ) (m : Mem) (b cap w : ℕ) (parts : List (ℕ × ℕ)) (ts : List (List ℕ))
    → Sources m b w parts ts
    → 1 < cap
    → cap ≤ w
    → length (joined parts ts) < cap
    → length (joined parts ts) + 1 < w
    → w ≤ f
    → Sent m (compose_bracket f m b cap parts) b w (b'[' ∷ joined parts ts)
unfolding compose_bracket vt_nsend
compose_bracket-Sent f m b cap w parts ts h room le fits inside fuel =
    let m0 = calloc m b cap in
    let m1 = poke m0 b b'[' in
    let same : SameOutside m m1 b w =
      λ x out. poke_ne m0 b b'[' x (omega arith) ∙ calloc-frame m b cap x (omega arith) in
    let start : IsStr m1 b (b'[' ∷ []) =
      (poke_self m0 b b'[', (omega arith), second m b cap room) in
    let (m', run, text, same') =
      build-joined f m1 b w (b'[' ∷ []) parts ts start (Sources-frame m m1 b w parts ts h same)
        (omega arith) fuel in
    record {
      memory = m';
      run = rw (run, nsend_loop-text m' b cap (b'[' ∷ joined parts ts) text (omega arith));
      text = text;
      frame = λ x out. same' x out ∙ same x out;
    }
  where
    second : (m : Mem) (b cap : ℕ) → 1 < cap → poke (calloc m b cap) b b'[' (b + 1) ≡ 0
    second m b cap room =
        poke_ne (calloc m b cap) b b'[' (b + 1) (omega arith)
        ∙ unfold calloc in memset-fills m b 0 cap (b + 1) (omega arith) (omega arith)
