-- ===== src/Kermit/Chunks.antt =====
-- src/kermit.rs: the file name and the data of the packets as quoted text.
use rosco_cli.Prelude.{
  ℕ, ◌+◌, ◌≤◌, ◌≡◌, inl, inr, refl, sym, ap, ◌∙◌, arith, true, not, Option, none, some, ◌==◌, leb,
  List, [], ◌∷◌, ◌++◌, Bool-cases, append_assoc, append-nil, length, length-append, bit_and,
}
use rosco_cli.Kermit.{Params, encode_current, encode_with, encode_byte}
use rosco_cli.Kermit.Quoting.{encoded}
use rosco_cli.Kermit.Transfer.{fill_chunk, encode_name}

-- all the parts behind one another
abbrev pub joined : List (List ℕ) → List ℕ
joined [] = []
joined (p ∷ ps) = p ++ joined ps

pub encode_name-encoded :
    (header name : List ℕ) (p : Params) → encode_name header name p ≡ header ++ encoded p name
unfolding encode_name encode_byte
encode_name-encoded header [] p = sym (append-nil header)
encode_name-encoded header (b ∷ bs) p =
    encode_name-encoded (encode_byte header b p) bs p
    ∙ append_assoc header (encode_with p.qbin b p) (encoded p bs)

length-encode_current : (c : ℕ) (p : Params) → length (encode_current c p) ≤ 2
unfolding encode_current
length-encode_current c p = ground arith

-- A byte becomes three characters at most.
length-encode_with : (qbin : Option ℕ) (c : ℕ) (p : Params) → length (encode_with qbin c p) ≤ 3
unfolding encode_with
length-encode_with none c p = omega (arith, length-encode_current c p)
length-encode_with (some q) c p = elim (Bool-cases (not (bit_and c 0x80 == 0))) [
  | inl high ↦ rw high (omega (arith, length-encode_current (bit_and c 0x7F) p))
  | inr low ↦ rw low (omega (arith, length-encode_current c p))
]

-- A chunk is the quoted form of the bytes that it takes, and is not above the budget.
pub record Filled (budget : ℕ) (p : Params) (before bytes : List ℕ) (r : List ℕ × List ℕ)
    : Type 0 where
  pub slice : List ℕ
  pub chunk : r.0 ≡ before ++ encoded p slice
  pub split : bytes ≡ slice ++ r.1
  pub bound : length r.0 ≤ budget

pub fill_chunk-Filled :
    (budget : ℕ) (p : Params) (chunk bytes : List ℕ)
    → length chunk ≤ budget
    → Filled budget p chunk bytes (fill_chunk budget p chunk bytes)
unfolding fill_chunk encode_byte
fill_chunk-Filled budget p chunk [] le = record {
  slice = [];
  chunk = sym (append-nil chunk);
  split = refl;
  bound = le;
}
fill_chunk-Filled budget p chunk (b ∷ bs) le = elim (Bool-cases (leb (length chunk + 4) budget)) [
  | inr full ↦
      rw full (record { slice = []; chunk = sym (append-nil chunk); split = refl; bound = le })
  | inl room ↦
      let next = chunk ++ encode_with p.qbin b p in
      let fits : length next ≤ budget =
        ground
          (arith, length-append chunk (encode_with p.qbin b p), length-encode_with p.qbin b p) in
      let more = fill_chunk-Filled budget p next bs fits in
      rw room (record {
        slice = b ∷ more.slice;
        chunk = more.chunk ∙ append_assoc chunk (encode_with p.qbin b p) (encoded p more.slice);
        split = ap (λ t. b ∷ t) more.split;
        bound = more.bound;
      })
]

-- The first chunk of what is left takes one byte at least.
pub fill_chunk-progress :
    (budget : ℕ) (p : Params) (b : ℕ) (bs : List ℕ)
    → 4 ≤ budget
    → length (fill_chunk budget p [] (b ∷ bs)).1 ≤ length bs
unfolding fill_chunk encode_byte
fill_chunk-progress budget p b bs le =
    let room : leb (0 + 4) budget ≡ true = ground arith in
    let first = encode_with p.qbin b p in
    let more = fill_chunk-Filled budget p first bs (omega (arith, length-encode_with p.qbin b p)) in
    rw room (
      omega
        (arith, ap length more.split, length-append more.slice (fill_chunk budget p first bs).1))
