-- ===== src/Config/Merge.antt =====
-- src/config.rs: what a key reads in two tables that were merged.
use rosco_cli.Prelude.{
  ◌≡◌, refl, sym, ap, ap₂, subst, ◌∙◌, arith, Bool, true, false, if◌then◌else◌, Option, none, some,
  ◌>>=◌, List, [], ◌∷◌, Bool-cases, inl, inr,
}
use rosco_cli.Config.{
  Key, key_eq, Value, leaf, table, Table, empty, entry, get, insert, merge_value, merge_tables,
  as_table, lookup,
}

-- No key stands twice in a table, and this holds of the tables inside it.
abbrev mutual
  pub IsMapValue : Value → Type 0
  IsMapValue (leaf x) = Unit
  IsMapValue (table t) = IsMap t

  pub IsMap : Table → Type 0
  IsMap empty = Unit
  IsMap (entry k v t) = (get t k ≡ none) × IsMapValue v × IsMap t

abbrev pub IsMapAt : Option Value → Type 0
IsMapAt none = Unit
IsMapAt (some v) = IsMapValue v

pub key_eq_refl : (k : Key) → key_eq k k ≡ true
unfolding key_eq
key_eq_refl [] = refl
key_eq_refl (c ∷ cs) = ground (arith, key_eq_refl cs)

pub key_eq_sound : (k j : Key) → key_eq k j ≡ true → k ≡ j
unfolding key_eq
key_eq_sound [] [] h = refl
key_eq_sound [] (d ∷ ds) h = ground arith
key_eq_sound (c ∷ cs) [] h = ground arith
key_eq_sound (c ∷ cs) (d ∷ ds) h =
    ap₂ (λ a l. a ∷ l) (ground arith) (key_eq_sound cs ds (ground arith))

pub if_twice :
    (b : Bool) (x y z : Option Value) → (if b then x else z) ≡ (if b then x else if b then y else z)
if_twice true x y z = refl
if_twice false x y z = refl

-- two tests that do not both hold
pub if_swap :
    (a b : Bool) (x y z : Option Value)
    → (a ≡ true → b ≡ true → ⊥)
    → (if a then x else if b then y else z) ≡ (if b then y else if a then x else z)
if_swap true true x y z h = absurd (h refl refl)
if_swap true false x y z h = refl
if_swap false true x y z h = refl
if_swap false false x y z h = refl

-- two names that differ are not both the same as a third
pub key_eq_apart : (k' k j : Key) → key_eq k' k ≡ false → key_eq k' j ≡ true → key_eq k j ≡ true → ⊥
key_eq_apart k' k j other e' e =
    let same : k' ≡ k = key_eq_sound k' j e' ∙ sym (key_eq_sound k j e) in
    let clash : key_eq k' k ≡ true = rw same (key_eq_refl k) in ground arith

pub get-insert :
    (t : Table) (k : Key) (v : Value) (j : Key)
    → get (insert t k v) j ≡ (if key_eq k j then some v else get t j)
unfolding get insert
get-insert empty k v j = refl
get-insert (entry k' v' t) k v j = elim (Bool-cases (key_eq k' k)) [
  | inl same ↦
      let e = key_eq_sound k' k same in
      rw same (rw e (if_twice (key_eq k j) (some v) (some v') (get t j)))
  | inr other ↦ rw other (
      rw (get-insert t k v j) (
        if_swap (key_eq k' j) (key_eq k j) (some v') (some v) (get t j)
          (key_eq_apart k' k j other)))
]

pub key_eq_flip : (k j : Key) → key_eq k j ≡ false → key_eq j k ≡ false
key_eq_flip k j h = elim (Bool-cases (key_eq j k)) [
  | inr other ↦ other
  | inl same ↦
      let e : k ≡ j = sym (key_eq_sound j k same) in
      let clash : key_eq k j ≡ true = rw e (key_eq_refl j) in ground arith
]

pub insert-IsMap : (t : Table) (k : Key) (v : Value) → IsMap t → IsMapValue v → IsMap (insert t k v)
unfolding insert get
insert-IsMap empty k v h one = (refl, one, tt)
insert-IsMap (entry k' v' t) k v (absent, h, rest) one = elim (Bool-cases (key_eq k' k)) [
  | inl same ↦ rw same (absent, one, rest)
  | inr other ↦
      let gone : get (insert t k v) k' ≡ none =
        get-insert t k v k' ∙ rw (key_eq_flip k' k other) absent in
      rw other (gone, h, insert-IsMap t k v rest one)
]

-- a value over what is below it
abbrev pub over : Option Value → Option Value → Option Value
over below none = below
over below (some v) = some (merge_value below v)

-- A key of two merged tables, at the top.
pub get-merge_tables :
    (base overlay : Table) (j : Key)
    → IsMap overlay
    → get (merge_tables base overlay) j ≡ over (get base j) (get overlay j)
unfolding get merge_value
get-merge_tables base empty j h = refl
get-merge_tables base (entry k v overlay) j (absent, one, rest) =
    let put = insert base k (merge_value (get base k) v) in
    get-merge_tables put overlay j rest
    ∙ rw (get-insert base k (merge_value (get base k) v) j) (elim (Bool-cases (key_eq k j)) [
      | inl same ↦
          let e = key_eq_sound k j same in
          let gone : get overlay j ≡ none = subst (λ i. get overlay i ≡ none) e absent in
          rw same (rw gone (rw e refl))
      | inr other ↦ rw other refl
    ])

pub get-IsMap : (t : Table) (k : Key) → IsMap t → IsMapAt (get t k)
unfolding get
get-IsMap empty k h = tt
get-IsMap (entry k' v t) k (absent, one, rest) = elim (Bool-cases (key_eq k' k)) [
  | inl same ↦ rw same one
  | inr other ↦ rw other (get-IsMap t k rest)
]

-- A value that is no table stands in the way of the key.
abbrev pub hides : Table → (first : Key) (parts : List Key) → Bool
hides t k [] = false
hides t k (p ∷ ps) = elim (get t k) [
  | none ↦ false
  | some v ↦ elim v as (λ _. Bool) [ leaf x ↦ true | table t' ↦ hides t' p ps ]
]

-- what is found on top of what is below; `hidden` says that nothing below can be seen
abbrev pub covered : (hidden : Bool) (below found : Option Value) → Option Value
covered hidden below (some v) = some (merge_value below v)
covered hidden below none = if hidden then none else below

-- what a key reads with a table on top of `below`
abbrev pub on_top : (below : Option Value) → Table → (first : Key) (parts : List Key) → Option Value
on_top below t k ps = covered (hides t k ps) below (lookup t k ps)

-- the rest of a dotted key behind the value of its first part
abbrev descend : Option Value → (first : Key) (parts : List Key) → Option Value
descend o p ps = o >>= (λ v. as_table v >>= (λ t. lookup t p ps))

abbrev pub hides_at : Option Value → (first : Key) (parts : List Key) → Bool
hides_at o p ps = elim o [
  | none ↦ false
  | some v ↦ elim v as (λ _. Bool) [ leaf x ↦ true | table t' ↦ hides t' p ps ]
]

merge_value-none : (v : Value) → merge_value none v ≡ v
unfolding merge_value
merge_value-none (leaf x) = refl
merge_value-none (table t) = refl

-- With nothing below there is what was found.
pub covered-none : (hidden : Bool) (found : Option Value) → covered hidden none found ≡ found
covered-none true none = refl
covered-none false none = refl
covered-none hidden (some v) = ap some (merge_value-none v)

over-covered : (below found : Option Value) → over below found ≡ covered false below found
over-covered below none = refl
over-covered below (some v) = refl

step :
    (below o : Option Value) (p : Key) (ps : List Key)
    → IsMapAt o
    → ((b t : Table) → IsMap t → lookup (merge_tables b t) p ps ≡ on_top (lookup b p ps) t p ps)
    → descend (over below o) p ps ≡ covered (hides_at o p ps) (descend below p ps) (descend o p ps)
unfolding as_table merge_value
step below none p ps h ih = refl
step below (some (leaf x)) p ps h ih = refl
step none (some (table t)) p ps h ih = sym (covered-none (hides t p ps) (lookup t p ps))
step (some (leaf x)) (some (table t)) p ps h ih = sym (covered-none (hides t p ps) (lookup t p ps))
step (some (table b)) (some (table t)) p ps h ih = ih b t h

-- A key of two merged tables reads what the upper one holds, a table being merged with what is below it; where the upper one holds nothing it reads the lower one, unless a value that is no table stands in the way. No key stands twice in a table of the upper one.
pub lookup-merge_tables :
    (base overlay : Table) (k : Key) (ps : List Key)
    → IsMap overlay
    → lookup (merge_tables base overlay) k ps ≡ on_top (lookup base k ps) overlay k ps
unfolding lookup
lookup-merge_tables base overlay k [] h =
    get-merge_tables base overlay k h ∙ over-covered (get base k) (get overlay k)
lookup-merge_tables base overlay k (p ∷ ps) h =
    ap (λ o. descend o p ps) (get-merge_tables base overlay k h)
    ∙ step (get base k) (get overlay k) p ps (get-IsMap overlay k h)
        (λ b t m. lookup-merge_tables b t p ps m)
