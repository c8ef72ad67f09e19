-- ===== src/Config/Edit/Set.antt =====
-- src/settings.rs: what a settings file reads behind `set`.
use rosco_cli.Prelude.{
  ℕ, ◌≡◌, ◌⊎◌, inl, inr, refl, ap, subst, ◌∙◌, arith, Bool, true, false, ◌&&◌, if◌then◌else◌,
  Option, none, some, ◌>>=◌, List, [], ◌∷◌, Bool-cases, bind-some,
}
use rosco_cli.Config.{Key, key_eq, Value, leaf, table, Table, empty, get, insert, as_table, lookup}
use rosco_cli.Config.Merge.{key_eq_refl, get-insert, key_eq_sound}
use rosco_cli.Config.Edit.{
  Toml, candidates, section, insert_key, check_key, SetOutcome, written, not_a_name, document,
  trial, try_all, set,
}

-- One of the two dotted keys goes on where the other ends, or they are the same.
abbrev pub related_parts : (parts parts' : List Key) → Bool
related_parts [] qs = true
related_parts (p ∷ ps) [] = true
related_parts (p ∷ ps) (q ∷ qs) = key_eq p q && related_parts ps qs

abbrev pub related : (first : Key) (parts : List Key) (first' : Key) (parts' : List Key) → Bool
related k ps j qs = key_eq k j && related_parts ps qs

-- The first candidate with which the schema accepts the file is chosen.
abbrev pub Chosen :
    Toml
    → Table
    → (first : Key) (parts : List Key) → List (List ℕ)
    → (c : List ℕ) (t' : Table) → Type 0
Chosen toml t k ps [] c t' = ⊥
Chosen toml t k ps (d ∷ ds) c t' =
    ((d ≡ c) × (insert_key t k ps (leaf c) ≡ some t') × (toml.accepts t' ≡ true))
    ⊎ ((other : Table) × (insert_key t k ps (leaf d) ≡ some other)
        × (toml.accepts other ≡ false)
        × Chosen toml t k ps ds c t')

insert_key-nested :
    (t : Table) (k p : Key) (ps : List Key) (v : Value) (t' : Table)
    → insert_key t k (p ∷ ps) v ≡ some t'
    → (c : Table) × (c' : Table) × (section (get t k) ≡ some c)
      × (insert_key c p ps v ≡ some c')
      × (t' ≡ insert t k (table c'))
unfolding insert_key
insert_key-nested t k p ps v t' h =
    let (c, e1, h1) =
      bind-some (section (get t k))
        (λ c. insert_key c p ps v >>= (λ c'. some (insert t k (table c')))) t' h in
    let (c', e2, h2) = bind-some (insert_key c p ps v) (λ c'. some (insert t k (table c'))) t' h1 in
    (c, c', e1, e2, cc)

get-insert_same : (t : Table) (k : Key) (v : Value) → get (insert t k v) k ≡ some v
get-insert_same t k v = rw (get-insert t k v k) (rw (key_eq_refl k) refl)

lookup-insert_key :
    (t : Table) (k : Key) (ps : List Key) (v : Value) (t' : Table)
    → insert_key t k ps v ≡ some t'
    → lookup t' k ps ≡ some v
unfolding insert_key lookup as_table
lookup-insert_key t k [] v t' h =
    let e : insert t k v ≡ t' = cc h in subst (λ u. get u k ≡ some v) e (get-insert_same t k v)
lookup-insert_key t k (p ∷ ps) v t' h =
    let (c, c', e1, e2, e3) = insert_key-nested t k p ps v t' h in
    rw e3 (rw (get-insert_same t k (table c')) (lookup-insert_key c p ps v c' e2))

-- the rest of a dotted key behind a value
abbrev below : Option Value → (first : Key) (parts : List Key) → Option Value
below o p ps = o >>= (λ v. as_table v >>= (λ t. lookup t p ps))

lookup-section :
    (o : Option Value) (c : Table) (p : Key) (ps : List Key)
    → section o ≡ some c
    → lookup c p ps ≡ below o p ps
unfolding section lookup get
lookup-section none c p [] h = let e : empty ≡ c = cc h in subst (λ u. lookup u p [] ≡ none) e refl
lookup-section none c p (q ∷ qs) h =
    let e : empty ≡ c = cc h in subst (λ u. lookup u p (q ∷ qs) ≡ none) e refl
lookup-section (some v) c p ps h = rw h refl

pub lookup-get :
    (t u : Table) (j : Key) (qs : List Key) → get t j ≡ get u j → lookup t j qs ≡ lookup u j qs
unfolding lookup
lookup-get t u j [] h = h
lookup-get t u j (q ∷ qs) h = ap (λ o. below o q qs) h

insert_key-insert :
    (t : Table) (k : Key) (ps : List Key) (v : Value) (t' : Table)
    → insert_key t k ps v ≡ some t'
    → (w : Value) × (t' ≡ insert t k w)
unfolding insert_key
insert_key-insert t k [] v t' h = (v, cc h)
insert_key-insert t k (p ∷ ps) v t' h =
    let (c, c', e1, e2, e3) = insert_key-nested t k p ps v t' h in (table c', e3)

lookup-other_first :
    (t : Table) (k : Key) (ps : List Key) (v : Value) (t' : Table) (j : Key) (qs : List Key)
    → insert_key t k ps v ≡ some t'
    → key_eq k j ≡ false
    → lookup t' j qs ≡ lookup t j qs
lookup-other_first t k ps v t' j qs h ne =
    let (w, e) = insert_key-insert t k ps v t' h in
    lookup-get t' t j qs (rw e (rw (get-insert t k w j) (rw ne refl)))

lookup-insert_key_other :
    (t : Table) (k : Key) (ps : List Key) (v : Value) (t' : Table) (j : Key) (qs : List Key)
    → insert_key t k ps v ≡ some t'
    → related k ps j qs ≡ false
    → lookup t' j qs ≡ lookup t j qs
unfolding lookup as_table
lookup-insert_key_other t k [] v t' j qs h apart =
    lookup-other_first t k [] v t' j qs h (ground arith)
lookup-insert_key_other t k (p ∷ ps) v t' j [] h apart =
    lookup-other_first t k (p ∷ ps) v t' j [] h (ground arith)
lookup-insert_key_other t k (p ∷ ps) v t' j (q ∷ qs) h apart = elim (Bool-cases (key_eq k j)) [
  | inl same ↦
      let e = key_eq_sound k j same in
      let (c, c', e1, e2, e3) = insert_key-nested t k p ps v t' h in
      let here : get t' j ≡ some (table c') =
        rw e3 (rw (get-insert t k (table c') j) (rw same refl)) in
      let deeper : related p ps q qs ≡ false = ground arith in
      rw here (
        lookup-insert_key_other c p ps v c' q qs e2 deeper
        ∙ lookup-section (get t k) c q qs e1
        ∙ ap (λ i. below (get t i) q qs) e)
  | inr ne ↦ lookup-other_first t k (p ∷ ps) v t' j (q ∷ qs) h ne
]

trial-written :
    (toml : Toml) (o : Option Table) (d : List ℕ) (rest : SetOutcome) (c : List ℕ) (t' : Table)
    → trial toml o d rest ≡ written c t'
    → ((d ≡ c) × (o ≡ some t') × (toml.accepts t' ≡ true))
      ⊎ ((other : Table) × (o ≡ some other) × (toml.accepts other ≡ false) × (rest ≡ written c t'))
unfolding trial
trial-written toml none d rest c t' h = absurd (ground arith)
trial-written toml (some u) d rest c t' h = elim (Bool-cases (toml.accepts u)) [
  | inl good ↦
      let e : written d u ≡ written c t' =
        subst (λ b. (if b then written d u else rest) ≡ written c t') good h in
      let same : u ≡ t' = cc e in
      inl (cc e, ap some same, subst (λ w. toml.accepts w ≡ true) same good)
  | inr bad ↦
      inr (u, refl, bad, subst (λ b. (if b then written d u else rest) ≡ written c t') bad h)
]

try_all-Chosen :
    (toml : Toml) (t : Table) (k : Key) (ps : List Key) (cs : List (List ℕ)) (c : List ℕ)
    (t' : Table)
    → try_all toml t k ps cs ≡ written c t'
    → Chosen toml t k ps cs c t'
unfolding try_all
try_all-Chosen toml t k ps [] c t' h = absurd (ground arith)
try_all-Chosen toml t k ps (d ∷ ds) c t' h =
    elim (trial-written toml (insert_key t k ps (leaf d)) d (try_all toml t k ps ds) c t' h) [
      | inl (same, made, good) ↦
          inl (same, subst (λ x. insert_key t k ps (leaf x) ≡ some t') same made, good)
      | inr (other, made, bad, rest) ↦
          inr (other, made, bad, try_all-Chosen toml t k ps ds c t' rest)
    ]

Chosen-made :
    (toml : Toml) (t : Table) (k : Key) (ps : List Key) (cs : List (List ℕ)) (c : List ℕ)
    (t' : Table)
    → Chosen toml t k ps cs c t'
    → (insert_key t k ps (leaf c) ≡ some t') × (toml.accepts t' ≡ true)
Chosen-made toml t k ps [] c t' h = absurd h
Chosen-made toml t k ps (d ∷ ds) c t' (inl (same, made, good)) = (made, good)
Chosen-made toml t k ps (d ∷ ds) c t' (inr (other, made, bad, rest)) =
    Chosen-made toml t k ps ds c t' rest

if_name :
    (b : Bool) (o : SetOutcome) (c : List ℕ) (t' : Table)
    → (if b then o else not_a_name) ≡ written c t'
    → (b ≡ true) × (o ≡ written c t')
if_name true o c t' h = (refl, h)
if_name false o c t' h = absurd (ground arith)

-- If `set` writes a file, then the key is a name, the value is the first candidate with which the schema accepts the file, the key reads that value in the new file, and a key that neither contains it nor is contained in it reads what it read before.
pub set-Chosen :
    (toml : Toml) (file : Option Table) (k : Key) (ps : List Key) (raw c : List ℕ) (t' : Table)
    (j : Key) (qs : List Key)
    → set toml file k ps raw ≡ written c t'
    → related k ps j qs ≡ false
    → (check_key k ps ≡ true)
      × Chosen toml (document file) k ps (candidates toml raw) c t'
      × (toml.accepts t' ≡ true)
      × (lookup t' k ps ≡ some (leaf c))
      × (lookup t' j qs ≡ lookup (document file) j qs)
unfolding set
set-Chosen toml file k ps raw c t' j qs h apart =
    let all = try_all toml (document file) k ps (candidates toml raw) in
    let (name, run) = if_name (check_key k ps) all c t' h in
    let chosen = try_all-Chosen toml (document file) k ps (candidates toml raw) c t' run in
    let (made, good) = Chosen-made toml (document file) k ps (candidates toml raw) c t' chosen in
    (
      name,
      chosen,
      good,
      lookup-insert_key (document file) k ps (leaf c) t' made,
      lookup-insert_key_other (document file) k ps (leaf c) t' j qs made apart,
    )
