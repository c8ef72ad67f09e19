-- ===== src/Kermit/Ambiguity.antt =====
-- src/kermit.rs: quote characters that make the quoted data ambiguous.
use rosco_cli.Prelude.{
  ℕ, ◌<◌, ◌≤◌, ◌≡◌, ◌≢◌, refl, sym, subst, ◌∙◌, arith, true, false, not, ◌||◌, some, ◌==◌, ltb,
  List, [], ◌∷◌, ==_refl, get_elem?, bit_and,
}
use rosco_cli.Kermit.{
  Params, parse_params, map_or_none, quotes, ctl, is_qbin, encode_current, encode_with,
}
use rosco_cli.Kermit.Quoting.{low_bits, high_bit, ctl-flipped}

-- such a character and its control character are both below 128
encode_with-small : (q c : ℕ) (p : Params) → c < 128 → encode_with (some q) c p ≡ encode_current c p
unfolding encode_with
encode_with-small q c p lt =
    let plain : not (bit_and c 0x80 == 0) ≡ false = ground (arith, high_bit c (omega arith)) in
    rw plain refl

encode_current-qbin :
    (q : ℕ) (p : Params) → p.qbin ≡ some q → 63 ≤ q → q ≤ 95 → encode_current q p ≡ p.qctl ∷ q ∷ []
unfolding encode_current is_qbin
encode_current-qbin q p e lo hi =
    let low : bit_and q 0x7F ≡ q = low_bits q (omega arith) ∙ omega arith in
    let visible : (ltb q 0x20 || q == 0x7F) ≡ false = ground arith in
    let marked : (q == p.qctl || q == q) ≡ true = ground (arith, ==_refl q) in
    rw low (rw visible (rw e (rw marked refl)))

encode_current-control :
    (c : ℕ) (p : Params)
    → c < 128
    → (ltb c 0x20 || c == 0x7F) ≡ true
    → encode_current c p ≡ p.qctl ∷ ctl c ∷ []
unfolding encode_current
encode_current-control c p lt control =
    let low : bit_and c 0x7F ≡ c = low_bits c (omega arith) ∙ omega arith in
    rw low (rw control refl)

one_encoding :
    (q : ℕ) (p : Params)
    → p.qbin ≡ some q
    → 63 ≤ q
    → q ≤ 95
    → (q ≢ ctl q) × (encode_with p.qbin q p ≡ encode_with p.qbin (ctl q) p)
one_encoding q p qbin lo hi =
    let c = ctl-flipped q (omega arith) in
    let small : ctl q < 128 = ground arith in
    let control : (ltb (ctl q) 0x20 || ctl q == 0x7F) ≡ true = ground arith in
    let back : ctl (ctl q) ≡ q = ctl-flipped (ctl q) (omega arith) ∙ ground arith in
    (
      (λ same. ground arith),
      subst (λ o. encode_with o q p ≡ encode_with o (ctl q) p) (sym qbin)
          (encode_with-small q q p (omega arith)
            ∙ encode_current-qbin q p qbin lo hi
            ∙ sym (
                encode_with-small q (ctl q) p small
                ∙ encode_current-control (ctl q) p small control
                ∙ rw back refl)),
    )

parse_params-qbin :
    (content : List ℕ) (q : ℕ)
    → get_elem? content 6 ≡ some q
    → quotes q ≡ true
    → (parse_params content).qbin ≡ some q
unfolding parse_params map_or_none
parse_params-qbin content q e accepted = rw e (rw accepted refl)

-- parse_params accepts a quote character for the eighth bit that stands for a control character. Then that character and the control character are sent as the same two bytes, and no receiver can tell them apart.
pub parse_params-ambiguous :
    (content : List ℕ) (q : ℕ)
    → get_elem? content 6 ≡ some q
    → 63 ≤ q
    → q ≤ 95
    → q ≢ 0x59
    → q ≢ 0x4E
    → (q ≢ ctl q)
      × (encode_with (parse_params content).qbin q (parse_params content)
          ≡ encode_with (parse_params content).qbin (ctl q) (parse_params content))
unfolding quotes
parse_params-ambiguous content q e lo hi y n =
    let qbin = parse_params-qbin content q e (ground arith) in
    one_encoding q (parse_params content) qbin lo hi
