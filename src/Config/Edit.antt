-- ===== src/Config/Edit.antt =====
-- src/settings.rs: writing a setting into a settings file and taking one out. A section is a table; an inline
-- table or an array is a leaf, as `as_table_mut` has it. A missing file is `none`; one that is there can be read.
pub mod Set
pub mod Prune
pub mod Unset
use rosco_cli.Prelude.{
  ℕ, Bool, true, false, ◌&&◌, if◌then◌else◌, Option, none, some, ◌>>=◌, List, [], ◌∷◌,
}
use rosco_cli.Config.{
  Key, key_eq, Value, leaf, table, Table, empty, entry, get, insert, as_table, lookup, is_some,
}

-- what the code takes from the library for TOML and from the schema: the text of a value that was parsed, the
-- text of a string, and whether the schema accepts the settings
pub record Toml : Type 0 where
  pub parsed : List ℕ → Option (List ℕ)
  pub quoted : List ℕ → List ℕ
  pub accepts : Table → Bool

unfoldable pub add_literal : Option (List ℕ) → (literal : List ℕ) → List (List ℕ)
add_literal none literal = literal ∷ []
add_literal (some value) literal = if key_eq value literal then value ∷ [] else value ∷ literal ∷ []

unfoldable pub candidates : Toml → (raw : List ℕ) → List (List ℕ)
candidates toml raw = add_literal (toml.parsed raw) (toml.quoted raw)

-- `or_insert_with` and `as_table_mut`
unfoldable pub section : Option Value → Option Table
section none = some empty
section (some v) = as_table v

-- insert
unfoldable pub insert_key : Table → (first : Key) (parts : List Key) → Value → Option Table
insert_key t k [] v = some (insert t k v)
insert_key t k (p ∷ ps) v = do
  c ← section (get t k)
  c' ← insert_key c p ps v
  some (insert t k (table c'))

unfoldable pub is_blank : Key → Bool
is_blank [] = true
is_blank (c ∷ cs) = false

-- check_key: no part is empty
unfoldable pub check_key : (first : Key) (parts : List Key) → Bool
check_key k [] = if is_blank k then false else true
check_key k (p ∷ ps) = let rest = check_key p ps in if is_blank k then false else rest

pub data SetOutcome : Type 0 where
  written : List ℕ → Table → SetOutcome
  not_a_name : SetOutcome
  not_a_section : SetOutcome
  not_accepted : SetOutcome

unfoldable pub document : Option Table → Table
document none = empty
document (some t) = t

-- one round of the loop over the candidates
unfoldable pub trial : Toml → Option Table → (candidate : List ℕ) → (rest : SetOutcome) → SetOutcome
trial toml none c rest = not_a_section
trial toml (some t) c rest = if toml.accepts t then written c t else rest

unfoldable pub try_all :
    Toml → Table → (first : Key) (parts : List Key) → List (List ℕ) → SetOutcome
try_all toml t k ps [] = not_accepted
try_all toml t k ps (c ∷ cs) = trial toml (insert_key t k ps (leaf c)) c (try_all toml t k ps cs)

unfoldable pub set :
    Toml → (file : Option Table) (first : Key) (parts : List Key) (raw : List ℕ) → SetOutcome
set toml file k ps raw =
    if check_key k ps then try_all toml (document file) k ps (candidates toml raw) else not_a_name

-- `remove`
unfoldable pub remove : Table → Key → Table
remove empty k = empty
remove (entry k' v t) k = let rest = remove t k in if key_eq k' k then rest else entry k' v rest

-- the walk to the section of the key, and the removal there
unfoldable pub take_out : Table → (first : Key) (parts : List Key) → Option Table
take_out t k [] = if is_some (get t k) then some (remove t k) else none
take_out t k (p ∷ ps) = do
  v ← get t k
  c ← as_table v
  c' ← take_out c p ps
  some (insert t k (table c'))

unfoldable pub is_empty : Table → Bool
is_empty empty = true
is_empty (entry k v t) = false

unfoldable pub prune : Table → Table
prune empty = empty
prune (entry k (leaf x) t) = entry k (leaf x) (prune t)
prune (entry k (table c) t) =
    let rest = prune t in
    let child = prune c in if is_empty child then rest else entry k (table child) rest

pub data UnsetOutcome : Type 0 where
  removed : Table → UnsetOutcome
  unset_not_a_name : UnsetOutcome
  no_file : UnsetOutcome
  not_set : UnsetOutcome
  unset_not_accepted : UnsetOutcome

-- behind the removal
unfoldable pub pruned : Toml → Option Table → UnsetOutcome
pruned toml none = not_set
pruned toml (some t) = if toml.accepts (prune t) then removed (prune t) else unset_not_accepted

unfoldable pub unset_in :
    Toml → (file : Option Table) (first : Key) (parts : List Key) → UnsetOutcome
unset_in toml none k ps = no_file
unset_in toml (some t) k ps = pruned toml (take_out t k ps)

unfoldable pub unset : Toml → (file : Option Table) (first : Key) (parts : List Key) → UnsetOutcome
unset toml file k ps = if check_key k ps then unset_in toml file k ps else unset_not_a_name
