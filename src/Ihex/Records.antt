-- ===== src/Ihex/Records.antt =====
-- src/ihex.rs: the records of a program, read by a loader.
use rosco_cli.Prelude.{
  ℕ, zero, suc, ◌+◌, ◌-◌, ◌*◌, ◌%◌, ◌<◌, ◌≤◌, ◌≡◌, ◌⊎◌, inl, inr, refl, sym, ap, ◌∙◌, arith, Option,
  none, some, ◌==◌, ltb, if◌then◌else◌, ◌>>=◌, List, [], ◌∷◌, ◌++◌, length, take, drop, All,
  length-take, Bool-cases,
}
use rosco_cli.Memory.{Mem, poke, poke_self, Holds, SameOutside}
use rosco_cli.Ihex.{end_of_file, chunks, records_from, records}
use rosco_cli.Ihex.Loader.{load_record, load_record-record_line}

-- memory with the bytes stored from `a` on
abbrev pub place : Mem → ℕ → List ℕ → Mem
place m a [] = m
place m a (b ∷ bs) = place (poke m a b) (a + 1) bs

-- A loader stores the data of each record at its address, up to the record that ends the file.
abbrev pub load : Mem → List (List ℕ) → Option Mem
load m [] = none
load m (line ∷ lines) = load_record line >>= (λ r.
    let rest = load (place m r.address r.content) lines in
    if r.kind == 1 then some m else if r.kind == 0 then rest else none)

place-split :
    (n : ℕ) (m : Mem) (a : ℕ) (bs : List ℕ)
    → place m a bs ≡ place (place m a (take n bs)) (a + n) (drop n bs)
place-split zero m a bs = ap (λ x. place m x bs) (omega arith)
place-split (suc n) m a [] = refl
place-split (suc n) m a (b ∷ bs) =
    place-split n (poke m a b) (a + 1) bs
    ∙ ap (λ x. place (place (poke m a b) (a + 1) (take n bs)) x (drop n bs)) (omega arith)

place-frame : (m : Mem) (a : ℕ) (bs : List ℕ) → SameOutside m (place m a bs) a (length bs)
unfolding poke
place-frame m a [] x out = refl
place-frame m a (b ∷ bs) x out = ground (arith, place-frame (poke m a b) (a + 1) bs x)

place-Holds : (m : Mem) (a : ℕ) (bs : List ℕ) → Holds (place m a bs) a bs
place-Holds m a [] = tt
place-Holds m a (b ∷ bs) = (
  place-frame (poke m a b) (a + 1) bs a (omega arith) ∙ poke_self m a b,
  place-Holds (poke m a b) (a + 1) bs,
)

All-take : (n : ℕ) (bs : List ℕ) → All (λ b. b < 256) bs → All (λ b. b < 256) (take n bs)
All-take zero bs h = tt
All-take (suc n) [] h = tt
All-take (suc n) (b ∷ bs) (lt, h) = (lt, All-take n bs h)

All-drop : (n : ℕ) (bs : List ℕ) → All (λ b. b < 256) bs → All (λ b. b < 256) (drop n bs)
All-drop zero bs h = h
All-drop (suc n) [] h = tt
All-drop (suc n) (b ∷ bs) (lt, h) = All-drop n bs h

length-drop : (n : ℕ) (bs : List ℕ) → length (drop n bs) ≡ length bs - n
length-drop zero bs = omega arith
length-drop (suc n) [] = omega arith
length-drop (suc n) (b ∷ bs) = omega (arith, length-drop n bs)

load-end_of_file : (m : Mem) → load m (end_of_file ∷ []) ≡ some m
unfolding end_of_file
load-end_of_file m =
    rw (load_record-record_line 0 1 [] (omega arith) (omega arith) (omega arith) tt) refl

-- the records of the bytes that are left, which end in memory
load-records_from :
    (f index load_address : ℕ) (m : Mem) (bytes : List ℕ)
    → length bytes ≤ f
    → (length bytes ≡ 0) ⊎ (load_address + index * 16 + length bytes ≤ 0x1_0000)
    → All (λ b. b < 256) bytes
    → load m (records_from load_address index (chunks f bytes) ++ end_of_file ∷ [])
      ≡ some (place m (load_address + index * 16) bytes)
unfolding chunks records_from
load-records_from f index load_address m [] le fits small = load-end_of_file m
load-records_from zero index load_address m (b ∷ bs) le fits small = absurd (omega arith)
load-records_from (suc f) index load_address m (b ∷ bs) le fits small =
    let chunk = take 16 (b ∷ bs) in
    let rest = drop 16 (b ∷ bs) in
    let a = load_address + index * 16 in
    let here : (load_address + index * 16 % 0x1_0000) % 0x1_0000 ≡ a = omega arith in
    let count : length rest ≡ length (b ∷ bs) - 16 = length-drop 16 (b ∷ bs) in
    let line =
      load_record-record_line a 0 chunk (omega arith) (omega arith)
        (omega (arith, length-take 16 (b ∷ bs))) (All-take 16 (b ∷ bs) small) in
    let ih =
      load-records_from f (index + 1) load_address (place m a chunk) rest (omega arith)
        (omega arith) (All-drop 16 (b ∷ bs) small) in
    let next : load_address + (index + 1) * 16 ≡ a + 16 = omega arith in
    rw here (
      rw line (
        ih
        ∙ ap some
            (ap (λ x. place (place m a chunk) x rest) next ∙ sym (place-split 16 m a (b ∷ bs)))))

-- If the program fits below 2^16, then a loader that reads its records and the record that ends the file finds every record sound, and leaves the bytes of the program from the load address on and all other memory as it was. If it does not fit, there are no records.
pub records-load :
    (bytes : List ℕ) (load_address : ℕ) (m : Mem)
    → All (λ b. b < 256) bytes
    → ((0x1_0000 < load_address + length bytes) × (records bytes load_address ≡ none))
      ⊎ ((lines : List (List ℕ)) × (m' : Mem) × (records bytes load_address ≡ some lines)
          × (load m (lines ++ end_of_file ∷ []) ≡ some m')
          × Holds m' load_address bytes
          × SameOutside m m' load_address (length bytes))
unfolding records
records-load bytes load_address m small =
    elim (Bool-cases (ltb 0x1_0000 (load_address + length bytes))) [
      | inl long ↦ inl (ground arith, rw long refl)
      | inr fits ↦
          let run =
            load-records_from (length bytes) 0 load_address m bytes (omega arith)
              (inr (ground arith)) small in
          let start : load_address + 0 * 16 ≡ load_address = omega arith in
          inr (
            records_from load_address 0 (chunks (length bytes) bytes),
            place m load_address bytes,
            rw fits refl,
            run ∙ ap (λ a. some (place m a bytes)) start,
            place-Holds m load_address bytes,
            place-frame m load_address bytes,
          )
    ]
