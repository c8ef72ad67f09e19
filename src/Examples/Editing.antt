-- ===== src/Examples/Editing.antt =====
-- settings.rs at concrete inputs.
use rosco_cli.Prelude.{◌≡◌, refl, Bool, true, false, ◌==◌, Option, none, some, [], ◌∷◌, ◌++◌, codes}
use rosco_cli.Config.{
  key_eq, Value, leaf, table, Table, empty, entry, get, insert, as_table, lookup, is_some,
}
use rosco_cli.Config.Merge.{IsMap}
use rosco_cli.Config.Edit.{
  Toml, add_literal, candidates, section, insert_key, is_blank, check_key, not_a_section, document,
  trial, try_all, set, remove, take_out, is_empty, prune, pruned, unset_in, unset,
}
use rosco_cli.Config.Edit.Set.{Chosen, set-Chosen}
use rosco_cli.Config.Edit.Prune.{setting}
use rosco_cli.Config.Edit.Unset.{unset-removed}

abbrev is_quoted : Option Value → Bool
is_quoted none = true
is_quoted (some (table t)) = false
is_quoted (some (leaf [])) = false
is_quoted (some (leaf (c ∷ cs))) = c == 0x22

abbrev port : Table → Option Value
port t = lookup t (codes "serial") (codes "port" ∷ [])

-- everything is parsed as it stands, and a port has to be a string
abbrev toml : Toml
toml = record {
  parsed = λ raw. some raw;
  quoted = λ raw. 0x22 ∷ (raw ++ 0x22 ∷ []);
  accepts = λ t. is_quoted (port t);
}

-- [serial] baud = 9600
-- [build.docker] platform = "arm"
abbrev file : Table
file = entry (codes "serial") (table (entry (codes "baud") (leaf (codes "9600")) empty)) (
    entry (codes "build")
      (table (
        entry (codes "docker") (table (entry (codes "platform") (leaf (codes "\"arm\"")) empty))
          empty))
      empty)

abbrev with_port : Table
with_port =
    entry (codes "serial")
      (table (
        entry (codes "baud") (leaf (codes "9600"))
          (entry (codes "port") (leaf (codes "\"7\"")) empty)))
      (entry (codes "build")
        (table (
          entry (codes "docker") (table (entry (codes "platform") (leaf (codes "\"arm\"")) empty))
            empty))
        empty)

set-Chosen_example :
    (check_key (codes "serial") (codes "port" ∷ []) ≡ true)
    × Chosen toml file
        (codes "serial")
        (codes "port" ∷ [])
        (candidates toml (codes "7"))
        (codes "\"7\"")
        with_port
    × (true ≡ true)
    × (lookup with_port (codes "serial") (codes "port" ∷ []) ≡ some (leaf (codes "\"7\"")))
    × (lookup with_port (codes "serial") (codes "baud" ∷ [])
        ≡ lookup file (codes "serial") (codes "baud" ∷ []))
unfolding set check_key is_blank document try_all trial candidates add_literal insert_key section
    insert get key_eq as_table lookup
set-Chosen_example =
    set-Chosen toml (some file) (codes "serial") (codes "port" ∷ []) (codes "7") (codes "\"7\"")
      with_port (codes "serial") (codes "baud" ∷ []) refl refl

-- a setting below a value that is no section
set_below :
    set toml (some file) (codes "serial") (codes "baud" ∷ codes "x" ∷ []) (codes "1")
    ≡ not_a_section
unfolding set check_key is_blank document try_all trial candidates add_literal insert_key section
    insert get key_eq as_table
set_below = refl

file-IsMap : IsMap file
unfolding get key_eq
file-IsMap = (refl, (refl, tt, tt), (refl, (refl, (refl, tt, tt), tt), tt))

-- both sections that are left empty go
abbrev without_platform : Table
without_platform =
    entry (codes "serial") (table (entry (codes "baud") (leaf (codes "9600")) empty)) empty

unset-removed_example :
    (check_key (codes "build") (codes "docker" ∷ codes "platform" ∷ []) ≡ true)
    × (true ≡ true)
    × (setting without_platform (codes "serial") (codes "baud" ∷ [])
        ≡ setting file (codes "serial") (codes "baud" ∷ []))
unfolding unset unset_in check_key is_blank take_out remove prune pruned is_empty insert get key_eq
    as_table lookup is_some
unset-removed_example =
    unset-removed toml file (codes "build") (codes "docker" ∷ codes "platform" ∷ [])
      without_platform (codes "serial") (codes "baud" ∷ []) file-IsMap refl
