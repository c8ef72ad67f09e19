-- ===== src/Kermit/Quoting.antt =====
-- src/kermit.rs: the quoting of data, against a receiver's way back.
use rosco_cli.Prelude.{
  ℕ, ◌+◌, ◌-◌, ◌*◌, ◌/◌, ◌%◌, ◌<◌, ◌≡◌, ◌≢◌, ◌⊎◌, refl, ap, ◌∙◌, arith, Bool, true, false, not,
  ◌||◌, Option, none, some, ◌==◌, ltb, if◌then◌else◌, List, [], ◌∷◌, ◌++◌, All, ==_refl, bit_and,
  all_below, all_below_sound, inl, inr, Bool-cases,
}
use rosco_cli.Kermit.{Params, ctl, is_qbin, encode_current, encode_with}

-- A receiver takes a quoted character that stands for a control character as that one, and any other
-- quoted character as it is; behind the character that quotes the eighth bit, `high` is 128.
abbrev pub unquoted : ℕ → ℕ
unquoted c =
    if ltb (c % 128) 63 || ltb 95 (c % 128) then c else if ltb (c % 128) 64 then c + 64 else c - 64

abbrev pub decode : (qctl : ℕ) → Option ℕ → (high : ℕ) (quoted : Bool) → List ℕ → List ℕ
decode qctl qbin high quoted [] = []
decode qctl qbin high true (c ∷ cs) = (high + unquoted c) ∷ decode qctl qbin 0 false cs
decode qctl qbin high false (c ∷ cs) =
    let high_next = decode qctl qbin 128 false cs in
    let quoted_next = decode qctl qbin high true cs in
    let next = decode qctl qbin 0 false cs in
    if is_qbin qbin c then high_next else if c == qctl then quoted_next else (high + c) ∷ next

pub low_bits : (c : ℕ) → c < 256 → bit_and c 0x7F ≡ c % 128
unfolding all_below
low_bits c lt = ground (arith, all_below_sound 256 (λ c. bit_and c 0x7F == c % 128) c refl lt)

pub high_bit : (c : ℕ) → c < 256 → bit_and c 0x80 ≡ c / 128 * 128
unfolding all_below
high_bit c lt = ground (arith, all_below_sound 256 (λ c. bit_and c 0x80 == c / 128 * 128) c refl lt)

pub ctl-flipped : (c : ℕ) → c < 256 → ctl c ≡ (if ltb (c % 128) 64 then c + 64 else c - 64)
unfolding ctl all_below
ctl-flipped c lt = ground (
  arith,
  all_below_sound 256 (λ c. ctl c == (if ltb (c % 128) 64 then c + 64 else c - 64)) c refl lt,
)

-- A character that may quote others: printable, and not one that stands for a control character.
abbrev pub IsPrefix : ℕ → Type 0
IsPrefix q = ((32 < q) × (q < 63)) ⊎ ((95 < q) × (q < 127))

-- The eighth-bit quote is another such character, if there is one.
abbrev pub Suits : (qctl : ℕ) → Option ℕ → Type 0
Suits qctl none = Unit
Suits qctl (some q) = IsPrefix q × (q ≢ qctl)

decode-control :
    (qctl : ℕ) (qbin : Option ℕ) (high c : ℕ) (rest : List ℕ)
    → IsPrefix qctl
    → Suits qctl qbin
    → decode qctl qbin high false (qctl ∷ c ∷ rest)
      ≡ (high + unquoted c) ∷ decode qctl qbin 0 false rest
unfolding is_qbin
decode-control qctl none high c rest pre suits = ground arith
decode-control qctl (some q) high c rest pre suits = ground arith

decode-plain :
    (qctl : ℕ) (qbin : Option ℕ) (high c : ℕ) (rest : List ℕ)
    → is_qbin qbin c ≡ false
    → (c == qctl) ≡ false
    → decode qctl qbin high false (c ∷ rest) ≡ (high + c) ∷ decode qctl qbin 0 false rest
decode-plain qctl qbin high c rest e1 e2 = rw e1 (rw e2 refl)

one_prefix :
    (qctl c : ℕ) (qbin : Option ℕ)
    → IsPrefix qctl
    → Suits qctl qbin
    → (c == qctl || is_qbin qbin c) ≡ true
    → IsPrefix c
unfolding is_qbin
one_prefix qctl c none pre suits h = ground arith
one_prefix qctl c (some q) pre suits h = ground arith

unquoted-ctl :
    (c : ℕ) → c < 256 → (ltb (c % 128) 0x20 || c % 128 == 0x7F) ≡ true → unquoted (ctl c) ≡ c
unquoted-ctl c lt h = rw (ctl-flipped c lt) (ground arith)

unquoted-prefix : (c : ℕ) → IsPrefix (c % 128) → unquoted c ≡ c
unquoted-prefix c h = ground arith

decode-encode_current :
    (p : Params) (high c : ℕ) (rest : List ℕ)
    → IsPrefix p.qctl
    → Suits p.qctl p.qbin
    → c < 256
    → is_qbin p.qbin c ≡ is_qbin p.qbin (c % 128)
    → decode p.qctl p.qbin high false (encode_current c p ++ rest)
      ≡ (high + c) ∷ decode p.qctl p.qbin 0 false rest
unfolding encode_current
decode-encode_current p high c rest pre suits lt same =
    let low = low_bits c lt in
    elim (Bool-cases (ltb (c % 128) 0x20 || c % 128 == 0x7F)) [
      | inl control ↦ rw low (
          rw control (
            decode-control p.qctl p.qbin high (ctl c) rest pre suits
            ∙ ap (λ d. (high + d) ∷ decode p.qctl p.qbin 0 false rest) (unquoted-ctl c lt control)))
      | inr visible ↦ elim (Bool-cases (c % 128 == p.qctl || is_qbin p.qbin (c % 128))) [
        | inl prefix ↦ rw low (
            rw visible (
              rw prefix (
                decode-control p.qctl p.qbin high c rest pre suits
                ∙ ap (λ d. (high + d) ∷ decode p.qctl p.qbin 0 false rest)
                    (unquoted-prefix c (one_prefix p.qctl (c % 128) p.qbin pre suits prefix)))))
        | inr plain ↦ rw low (
            rw visible
              (rw plain (decode-plain p.qctl p.qbin high c rest (ground arith) (ground arith))))
      ]
    ]

decode-encode_with :
    (p : Params) (qbin : Option ℕ) (c : ℕ) (rest : List ℕ)
    → p.qbin ≡ qbin
    → IsPrefix p.qctl
    → Suits p.qctl p.qbin
    → c < 256
    → decode p.qctl p.qbin 0 false (encode_with qbin c p ++ rest)
      ≡ c ∷ decode p.qctl p.qbin 0 false rest
unfolding encode_with is_qbin
decode-encode_with p none c rest e pre suits lt =
    decode-encode_current p 0 c rest pre suits lt (rw e refl)
    ∙ ap (λ d. d ∷ decode p.qctl p.qbin 0 false rest) (omega arith)
decode-encode_with p (some q) c rest e pre suits lt = elim (Bool-cases (ltb c 128)) [
  | inl small ↦
      let plain : not (bit_and c 0x80 == 0) ≡ false = ground (arith, high_bit c lt) in
      let same : c % 128 ≡ c = ground arith in
      rw plain (
        decode-encode_current p 0 c rest pre suits lt (rw same refl)
        ∙ ap (λ d. d ∷ decode p.qctl p.qbin 0 false rest) (omega arith))
  | inr large ↦
      let high : not (bit_and c 0x80 == 0) ≡ true = ground (arith, high_bit c lt) in
      let low : bit_and c 0x7F ≡ c % 128 = low_bits c lt in
      let same : c % 128 % 128 ≡ c % 128 = omega arith in
      let marked : is_qbin p.qbin q ≡ true = rw e (==_refl q) in
      rw high (
        rw marked (
          rw low (
            decode-encode_current p 128 (c % 128) rest pre suits (omega arith) (rw same refl)
            ∙ ap (λ d. d ∷ decode p.qctl p.qbin 0 false rest) (ground arith))))
]

-- the data of a packet that carries `bytes`
abbrev pub encoded : Params → List ℕ → List ℕ
encoded p [] = []
encoded p (b ∷ bs) = encode_with p.qbin b p ++ encoded p bs

-- A receiver that knows the two quote characters reads the bytes back from the quoted data, if the one for the eighth bit, where there is one, is not the other one and neither stands for a control character.
pub decode-encoded :
    (p : Params) (bytes : List ℕ)
    → IsPrefix p.qctl
    → Suits p.qctl p.qbin
    → All (λ b. b < 256) bytes
    → decode p.qctl p.qbin 0 false (encoded p bytes) ≡ bytes
decode-encoded p [] pre suits lt = refl
decode-encoded p (b ∷ bs) pre suits (lt, lts) =
    decode-encode_with p p.qbin b (encoded p bs) refl pre suits lt
    ∙ ap (λ t. b ∷ t) (decode-encoded p bs pre suits lts)
