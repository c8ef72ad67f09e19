-- ===== src/Config/Edit/Prune.antt =====
-- src/settings.rs: dropping empty sections changes no setting.
use rosco_cli.Prelude.{
  ℕ, ◌≡◌, refl, sym, ap, subst, ◌∙◌, arith, true, if◌then◌else◌, Option, none, some, ◌>>=◌, List,
  [], ◌∷◌, Bool-cases, inl, inr,
}
use rosco_cli.Config.{Key, key_eq, Value, leaf, table, Table, empty, entry, get, as_table}
use rosco_cli.Config.Merge.{IsMap, IsMapAt, key_eq_sound, get-IsMap}
use rosco_cli.Config.Edit.{is_empty, prune}

abbrev pub leaf_text : Value → Option (List ℕ)
leaf_text (leaf x) = some x
leaf_text (table t) = none

-- the setting at a value behind the rest of its key
abbrev pub setting_at : Option Value → (parts : List Key) → Option (List ℕ)
setting_at o [] = o >>= leaf_text
setting_at o (p ∷ ps) = o >>= (λ v. as_table v >>= (λ t. setting_at (get t p) ps))

-- what a key is set to, if it is a setting and no section
abbrev pub setting : Table → (first : Key) (parts : List Key) → Option (List ℕ)
setting t k ps = setting_at (get t k) ps

-- what prune leaves of a value
abbrev kept : Option Value → Option Value
kept none = none
kept (some (leaf x)) = some (leaf x)
kept (some (table c)) = if is_empty (prune c) then none else some (table (prune c))

-- a section behind the others
get-prune_section :
    (k : Key) (c t : Table) (j : Key)
    → get t k ≡ none
    → get (prune t) j ≡ kept (get t j)
    → get (prune (entry k (table c) t)) j ≡ kept (if key_eq k j then some (table c) else get t j)
unfolding get prune
get-prune_section k c t j absent ih = elim (Bool-cases (key_eq k j)) [
  | inl same ↦
      let e = key_eq_sound k j same in
      let gone : get t j ≡ none = subst (λ i. get t i ≡ none) e absent in
      rw same (elim (Bool-cases (is_empty (prune c))) [
        | inl bare ↦ rw bare (ih ∙ ap kept gone)
        | inr full ↦ rw full (rw same refl)
      ])
  | inr other ↦ rw other (elim (Bool-cases (is_empty (prune c))) [
    | inl bare ↦ rw bare ih
    | inr full ↦ rw full (rw other ih)
  ])
]

get-prune : (t : Table) (j : Key) → IsMap t → get (prune t) j ≡ kept (get t j)
unfolding get prune
get-prune empty j h = refl
get-prune (entry k (leaf x) t) j (absent, one, rest) = elim (Bool-cases (key_eq k j)) [
  | inl same ↦ rw same refl
  | inr other ↦ rw other (get-prune t j rest)
]
get-prune (entry k (table c) t) j (absent, one, rest) =
    get-prune_section k c t j absent (get-prune t j rest)

pub setting_at-none : (qs : List Key) → setting_at none qs ≡ none
setting_at-none [] = refl
setting_at-none (q ∷ qs) = refl

get-is_empty : (u : Table) (p : Key) → is_empty u ≡ true → get u p ≡ none
unfolding get is_empty
get-is_empty empty p h = refl
get-is_empty (entry k v t) p h = absurd (ground arith)

setting_at-kept :
    (o : Option Value) (qs : List Key)
    → IsMapAt o
    → ((c : Table) (q : Key) (rest : List Key)
        → qs ≡ q ∷ rest
        → IsMap c
        → setting (prune c) q rest ≡ setting c q rest)
    → setting_at (kept o) qs ≡ setting_at o qs
unfolding as_table
setting_at-kept none qs h ih = refl
setting_at-kept (some (leaf x)) qs h ih = refl
setting_at-kept (some (table c)) [] h ih = elim (Bool-cases (is_empty (prune c))) [
  | inl bare ↦ rw bare refl
  | inr full ↦ rw full refl
]
setting_at-kept (some (table c)) (q ∷ qs) h ih = elim (Bool-cases (is_empty (prune c))) [
  | inl bare ↦ rw bare (
      sym (ap (λ o. setting_at o qs) (get-is_empty (prune c) q bare) ∙ setting_at-none qs)
      ∙ ih c q qs refl h)
  | inr full ↦ rw full (ih c q qs refl h)
]

-- prune changes no setting.
pub setting-prune :
    (qs : List Key) (t : Table) (j : Key) → IsMap t → setting (prune t) j qs ≡ setting t j qs
setting-prune [] t j h =
    ap (λ o. setting_at o []) (get-prune t j h)
    ∙ setting_at-kept (get t j) [] (get-IsMap t j h) (λ c q rest e m. absurd (ground arith))
setting-prune (p ∷ ps) t j h =
    ap (λ o. setting_at o (p ∷ ps)) (get-prune t j h)
    ∙ setting_at-kept (get t j) (p ∷ ps) (get-IsMap t j h) (λ c q rest e m.
      let same : ps ≡ rest = cc e in
      subst (λ r. setting (prune c) q r ≡ setting c q r) same (setting-prune ps c q m))
