-- ===== src/Ansi.antt =====
-- src/emulator.rs: strip_ansi, which takes the escape sequences out of what the console prints.
use rosco_cli.Prelude.{
  ℕ, ◌≡◌, ◌≢◌, ◌<◌, ◌≤◌, refl, ap, ◌∙◌, arith, ◌==◌, leb, ◌&&◌, if◌then◌else◌, List, [], ◌∷◌, ◌++◌,
  All, true, false,
}

abbrev pub escape_char : ℕ
escape_char = 0x1B

-- where the iterator stands: in text, behind an escape, in a CSI sequence (`for ch in chars.by_ref()`), in
-- an OSC sequence (`while let`), or behind an escape there
pub data Place : Type 0 where
  in_text : Place
  behind_escape : Place
  in_csi : Place
  in_osc : Place
  osc_escape : Place

unfoldable pub strip_from : Place → List ℕ → List ℕ
strip_from state [] = []
strip_from in_text (c ∷ cs) =
    let plain = c ∷ strip_from in_text cs in
    let sequence = strip_from behind_escape cs in if c == escape_char then sequence else plain
strip_from behind_escape (c ∷ cs) =
    let csi = strip_from in_csi cs in
    let osc = strip_from in_osc cs in
    let next = strip_from in_text cs in if c == 0x5B then csi else if c == 0x5D then osc else next
strip_from in_csi (c ∷ cs) =
    let final = strip_from in_text cs in
    let more = strip_from in_csi cs in if leb 0x40 c && leb c 0x7E then final else more
strip_from in_osc (c ∷ cs) =
    let bell = strip_from in_text cs in
    let closing = strip_from osc_escape cs in
    let more = strip_from in_osc cs in
    if c == 7 then bell else if c == escape_char then closing else more
strip_from osc_escape (c ∷ cs) = strip_from in_text cs

unfoldable pub strip_ansi : List ℕ → List ℕ
strip_ansi text = strip_from in_text text

-- What a program prints: text, a CSI sequence with its parameters and its final character, an OSC sequence
-- that ends with a bell or with a string terminator, or an escape with one character.
pub data Piece : Type 0 where
  plain : List ℕ → Piece
  csi : List ℕ → ℕ → Piece
  osc_bell : List ℕ → Piece
  osc_string : List ℕ → Piece
  short : ℕ → Piece

abbrev pub IsPiece : Piece → Type 0
IsPiece (plain t) = All (λ c. c ≢ escape_char) t
IsPiece (csi params final) = All (λ c. c < 0x40) params × (0x40 ≤ final) × (final ≤ 0x7E)
IsPiece (osc_bell body) = All (λ c. (c ≢ escape_char) × (c ≢ 7)) body
IsPiece (osc_string body) = All (λ c. (c ≢ escape_char) × (c ≢ 7)) body
IsPiece (short c) = (c ≢ 0x5B) × (c ≢ 0x5D)

abbrev pub written : Piece → List ℕ
written (plain t) = t
written (csi params final) = escape_char ∷ 0x5B ∷ (params ++ final ∷ [])
written (osc_bell body) = escape_char ∷ 0x5D ∷ (body ++ 7 ∷ [])
written (osc_string body) = escape_char ∷ 0x5D ∷ (body ++ escape_char ∷ 0x5C ∷ [])
written (short c) = escape_char ∷ c ∷ []

abbrev pub visible : Piece → List ℕ
visible (plain t) = t
visible (csi params final) = []
visible (osc_bell body) = []
visible (osc_string body) = []
visible (short c) = []

abbrev pub all_written : List Piece → List ℕ
all_written [] = []
all_written (p ∷ ps) = written p ++ all_written ps

abbrev pub all_visible : List Piece → List ℕ
all_visible [] = []
all_visible (p ∷ ps) = visible p ++ all_visible ps

strip_text :
    (t rest : List ℕ)
    → All (λ c. c ≢ escape_char) t
    → strip_from in_text (t ++ rest) ≡ t ++ strip_from in_text rest
unfolding strip_from
strip_text [] rest h = refl
strip_text (c ∷ t) rest (ne, h) =
    let e : (c == escape_char) ≡ false = ground arith in
    rw e (ap (λ l. c ∷ l) (strip_text t rest h))

strip_csi :
    (params : List ℕ) (final : ℕ) (rest : List ℕ)
    → All (λ c. c < 0x40) params
    → 0x40 ≤ final
    → final ≤ 0x7E
    → strip_from in_csi (params ++ final ∷ [] ++ rest) ≡ strip_from in_text rest
unfolding strip_from
strip_csi [] final rest h lo hi =
    let e : (leb 0x40 final && leb final 0x7E) ≡ true = ground arith in rw e refl
strip_csi (c ∷ params) final rest (lt, h) lo hi =
    let e : (leb 0x40 c && leb c 0x7E) ≡ false = ground arith in
    rw e (strip_csi params final rest h lo hi)

strip_osc_bell :
    (body rest : List ℕ)
    → All (λ c. (c ≢ escape_char) × (c ≢ 7)) body
    → strip_from in_osc (body ++ 7 ∷ [] ++ rest) ≡ strip_from in_text rest
unfolding strip_from
strip_osc_bell [] rest h = refl
strip_osc_bell (c ∷ body) rest ((ne, nb), h) =
    let e : (c == escape_char) ≡ false = ground arith in
    let b : (c == 7) ≡ false = ground arith in rw b (rw e (strip_osc_bell body rest h))

strip_osc_string :
    (body rest : List ℕ)
    → All (λ c. (c ≢ escape_char) × (c ≢ 7)) body
    → strip_from in_osc (body ++ escape_char ∷ 0x5C ∷ [] ++ rest) ≡ strip_from in_text rest
unfolding strip_from
strip_osc_string [] rest h = refl
strip_osc_string (c ∷ body) rest ((ne, nb), h) =
    let e : (c == escape_char) ≡ false = ground arith in
    let b : (c == 7) ≡ false = ground arith in rw b (rw e (strip_osc_string body rest h))

strip_short :
    (c : ℕ) (rest : List ℕ)
    → c ≢ 0x5B
    → c ≢ 0x5D
    → strip_from behind_escape (c ∷ rest) ≡ strip_from in_text rest
unfolding strip_from
strip_short c rest n1 n2 =
    let e1 : (c == 0x5B) ≡ false = ground arith in
    let e2 : (c == 0x5D) ≡ false = ground arith in rw e1 (rw e2 refl)

-- strip_ansi leaves the text and nothing of the escape sequences, of whatever pieces the output is made up: text without an escape, CSI sequences, OSC sequences with either end, and escapes with one character.
pub strip_ansi-visible :
    (ps : List Piece) → All IsPiece ps → strip_ansi (all_written ps) ≡ all_visible ps
unfolding strip_ansi strip_from
strip_ansi-visible [] h = refl
strip_ansi-visible (plain t ∷ ps) (h, hs) =
    strip_text t (all_written ps) h ∙ ap (λ l. t ++ l) (strip_ansi-visible ps hs)
strip_ansi-visible (csi params final ∷ ps) ((h, lo, hi), hs) =
    strip_csi params final (all_written ps) h lo hi ∙ strip_ansi-visible ps hs
strip_ansi-visible (osc_bell body ∷ ps) (h, hs) =
    strip_osc_bell body (all_written ps) h ∙ strip_ansi-visible ps hs
strip_ansi-visible (osc_string body ∷ ps) (h, hs) =
    strip_osc_string body (all_written ps) h ∙ strip_ansi-visible ps hs
strip_ansi-visible (short c ∷ ps) ((n1, n2), hs) =
    strip_short c (all_written ps) n1 n2 ∙ strip_ansi-visible ps hs
