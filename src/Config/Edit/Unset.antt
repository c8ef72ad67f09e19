-- ===== src/Config/Edit/Unset.antt =====
-- src/settings.rs: what a settings file reads behind `unset`.
use rosco_cli.Prelude.{
  ◌≡◌, refl, sym, ap, subst, ◌∙◌, arith, Bool, true, false, ◌&&◌, if◌then◌else◌, Option, none, some,
  ◌>>=◌, List, [], ◌∷◌, Bool-cases, bind-some, inl, inr,
}
use rosco_cli.Config.{
  Key, key_eq, Value, leaf, table, Table, empty, entry, get, insert, as_table, is_some,
}
use rosco_cli.Config.Merge.{
  IsMap, IsMapAt, key_eq_sound, key_eq_apart, key_eq_flip, if_twice, if_swap, insert-IsMap,
  get-insert, get-IsMap,
}
use rosco_cli.Config.Edit.{
  Toml, check_key, remove, take_out, prune, UnsetOutcome, removed, unset_not_a_name,
  unset_not_accepted, pruned, unset_in, unset,
}
use rosco_cli.Config.Edit.Prune.{setting_at, setting, setting_at-none, setting-prune}

-- the second key is the first one or goes on from it
abbrev pub within_parts : (parts parts' : List Key) → Bool
within_parts [] qs = true
within_parts (p ∷ ps) [] = false
within_parts (p ∷ ps) (q ∷ qs) = key_eq p q && within_parts ps qs

abbrev pub within : (first : Key) (parts : List Key) (first' : Key) (parts' : List Key) → Bool
within k ps j qs = key_eq k j && within_parts ps qs

get-remove : (t : Table) (k j : Key) → get (remove t k) j ≡ (if key_eq k j then none else get t j)
unfolding get remove
get-remove empty k j = ground arith
get-remove (entry k' v t) k j = elim (Bool-cases (key_eq k' k)) [
  | inl same ↦
      let e = key_eq_sound k' k same in
      rw same (rw e (get-remove t k j ∙ if_twice (key_eq k j) none (some v) (get t j)))
  | inr other ↦ rw other (
      rw (get-remove t k j)
        (if_swap (key_eq k' j) (key_eq k j) (some v) none (get t j) (key_eq_apart k' k j other)))
]

remove-IsMap : (t : Table) (k : Key) → IsMap t → IsMap (remove t k)
unfolding remove
remove-IsMap empty k h = tt
remove-IsMap (entry k' v' t) k (absent, one, rest) = elim (Bool-cases (key_eq k' k)) [
  | inl same ↦ rw same (remove-IsMap t k rest)
  | inr other ↦
      let gone : get (remove t k) k' ≡ none =
        rw (get-remove t k k') (rw (key_eq_flip k' k other) absent) in
      rw other (gone, one, remove-IsMap t k rest)
]

as_table-some : (v : Value) (c : Table) → as_table v ≡ some c → v ≡ table c
unfolding as_table
as_table-some (leaf x) c h = absurd (ground arith)
as_table-some (table t) c h = cc h

if_some : (b : Bool) (u t' : Table) → (if b then some u else none) ≡ some t' → t' ≡ u
if_some true u t' h = cc h
if_some false u t' h = absurd (ground arith)

take_out-here : (t : Table) (k : Key) (t' : Table) → take_out t k [] ≡ some t' → t' ≡ remove t k
unfolding take_out
take_out-here t k t' h = if_some (is_some (get t k)) (remove t k) t' h

take_out-nested :
    (t : Table) (k p : Key) (ps : List Key) (t' : Table)
    → take_out t k (p ∷ ps) ≡ some t'
    → (c : Table) × (c' : Table) × (get t k ≡ some (table c))
      × (take_out c p ps ≡ some c')
      × (t' ≡ insert t k (table c'))
unfolding take_out
take_out-nested t k p ps t' h =
    let (v, e1, h1) =
      bind-some (get t k)
        (λ v. as_table v >>= (λ c. take_out c p ps >>= (λ c'. some (insert t k (table c'))))) t'
        h in
    let (c, e2, h2) =
      bind-some (as_table v) (λ c. take_out c p ps >>= (λ c'. some (insert t k (table c')))) t'
        h1 in
    let (c', e3, h3) = bind-some (take_out c p ps) (λ c'. some (insert t k (table c'))) t' h2 in
    (c, c', e1 ∙ ap some (as_table-some v c e2), e3, cc h3)

take_out-IsMap :
    (t : Table) (k : Key) (ps : List Key) (t' : Table)
    → IsMap t
    → take_out t k ps ≡ some t'
    → IsMap t'
take_out-IsMap t k [] t' h e = subst IsMap (sym (take_out-here t k t' e)) (remove-IsMap t k h)
take_out-IsMap t k (p ∷ ps) t' h e =
    let (c, c', e1, e2, e3) = take_out-nested t k p ps t' e in
    let inside : IsMap c = subst IsMapAt e1 (get-IsMap t k h) in
    subst IsMap (sym e3) (insert-IsMap t k (table c') h (take_out-IsMap c p ps c' inside e2))

inside_section :
    (p : Key) (ps : List Key) (c c' : Table) (qs : List Key)
    → ((q : Key) (rest : List Key)
        → setting c' q rest ≡ (if within p ps q rest then none else setting c q rest))
    → setting_at (some (table c')) qs
      ≡ (if within_parts (p ∷ ps) qs then none else setting_at (some (table c)) qs)
unfolding as_table
inside_section p ps c c' [] ih = refl
inside_section p ps c c' (q ∷ rest) ih = ih q rest

setting-take_out :
    (t : Table) (k : Key) (ps : List Key) (t' : Table) (j : Key) (qs : List Key)
    → take_out t k ps ≡ some t'
    → setting t' j qs ≡ (if within k ps j qs then none else setting t j qs)
unfolding as_table
setting-take_out t k [] t' j qs e = rw (take_out-here t k t' e) (
    rw (get-remove t k j) (elim (Bool-cases (key_eq k j)) [
      | inl same ↦ rw same (setting_at-none qs)
      | inr other ↦ rw other refl
    ]))
setting-take_out t k (p ∷ ps) t' j qs e =
    let (c, c', e1, e2, e3) = take_out-nested t k p ps t' e in
    rw e3 (
      rw (get-insert t k (table c') j) (elim (Bool-cases (key_eq k j)) [
        | inl same ↦
            let old : get t j ≡ some (table c) =
              subst (λ i. get t i ≡ some (table c)) (key_eq_sound k j same) e1 in
            rw same (
              rw old (inside_section p ps c c' qs (λ q rest. setting-take_out c p ps c' q rest e2)))
        | inr other ↦ rw other refl
      ]))

if_name :
    (b : Bool) (o : UnsetOutcome) (t' : Table)
    → (if b then o else unset_not_a_name) ≡ removed t'
    → (b ≡ true) × (o ≡ removed t')
if_name true o t' h = (refl, h)
if_name false o t' h = absurd (ground arith)

if_accepted :
    (b : Bool) (u t' : Table)
    → (if b then removed u else unset_not_accepted) ≡ removed t'
    → (b ≡ true) × (u ≡ t')
if_accepted true u t' h = (refl, cc h)
if_accepted false u t' h = absurd (ground arith)

pruned-removed :
    (toml : Toml) (o : Option Table) (t' : Table)
    → pruned toml o ≡ removed t'
    → (u : Table) × (o ≡ some u) × (toml.accepts (prune u) ≡ true) × (prune u ≡ t')
unfolding pruned
pruned-removed toml none t' h = absurd (ground arith)
pruned-removed toml (some u) t' h =
    let (good, e) = if_accepted (toml.accepts (prune u)) (prune u) t' h in (u, refl, good, e)

-- If `unset` writes a file, in which no key stood twice in a section, then the key is a name, the schema accepts the new file, the key and all settings inside it are unset, and every other setting is as it was.
pub unset-removed :
    (toml : Toml) (t : Table) (k : Key) (ps : List Key) (t' : Table) (j : Key) (qs : List Key)
    → IsMap t
    → unset toml (some t) k ps ≡ removed t'
    → (check_key k ps ≡ true)
      × (toml.accepts t' ≡ true)
      × (setting t' j qs ≡ (if within k ps j qs then none else setting t j qs))
unfolding unset unset_in
unset-removed toml t k ps t' j qs h e =
    let (name, e1) = if_name (check_key k ps) (pruned toml (take_out t k ps)) t' e in
    let (u, e2, good, e3) = pruned-removed toml (take_out t k ps) t' e1 in
    (
      name,
      subst (λ w. toml.accepts w ≡ true) e3 good,
      ap (λ w. setting w j qs) (sym e3)
          ∙ setting-prune qs u j (take_out-IsMap t k ps u h e2)
          ∙ setting-take_out t k ps u j qs e2,
    )
