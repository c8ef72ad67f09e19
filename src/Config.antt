-- ===== src/Config.antt =====
-- src/config.rs: the settings files folded together. A key is the list of its characters; a TOML value that
-- is no table is a leaf with its text. A table is an association list; the order of its keys is not used.
pub mod Merge
pub mod Layering
pub mod Edit
use rosco_cli.Prelude.{
  ℕ, Bool, true, false, ◌==◌, ◌&&◌, if◌then◌else◌, Option, none, some, ◌>>=◌, List, [], ◌∷◌, codes,
}

abbrev pub Key : Type 0
Key = List ℕ

unfoldable pub key_eq : Key → Key → Bool
key_eq [] [] = true
key_eq [] (d ∷ ds) = false
key_eq (c ∷ cs) [] = false
key_eq (c ∷ cs) (d ∷ ds) = c == d && key_eq cs ds

mutual
  pub data Value : Type 0 where
    leaf : List ℕ → Value
    table : Table → Value

  pub data Table : Type 0 where
    empty : Table
    entry : Key → Value → Table → Table

unfoldable pub get : Table → Key → Option Value
get empty k = none
get (entry k' v t) k = let rest = get t k in if key_eq k' k then some v else rest

-- `insert`: a key that is there keeps its place
unfoldable pub insert : Table → Key → Value → Table
insert empty k v = entry k v empty
insert (entry k' v' t) k v =
    let rest = insert t k v in if key_eq k' k then entry k' v t else entry k' v' rest

-- the arms of the `match`: two tables are merged, anything else replaces
unfoldable mutual
  pub merge_value : Option Value → Value → Value
  merge_value old (leaf x) = leaf x
  merge_value old (table incoming) = elim old [
    | none ↦ table incoming
    | some value ↦ elim value as (λ _. Value) [
      | leaf x ↦ table incoming
      | table existing ↦ table (merge_tables existing incoming)
    ]
  ]

  -- `for (key, value) in overlay`
  pub merge_tables : Table → Table → Table
  merge_tables base empty = base
  merge_tables base (entry k v overlay) =
      merge_tables (insert base k (merge_value (get base k) v)) overlay

unfoldable pub as_table : Value → Option Table
as_table (leaf x) = none
as_table (table t) = some t

-- the parts of a dotted key, of which there is one at least
unfoldable pub lookup : Table → (first : Key) (parts : List Key) → Option Value
lookup t k [] = get t k
lookup t k (p ∷ ps) = do v ← get t k; t' ← as_table v; lookup t' p ps

pub data Board : Type 0 where
  rosco_m68k : Board
  rosco_6502 : Board

unfoldable pub docker_image : Board → List ℕ
docker_image rosco_m68k = codes "solderdemon/rosco_m68k:latest"
docker_image rosco_6502 = codes "solderdemon/rosco_6502:latest"

unfoldable pub machine : Board → List ℕ
machine rosco_m68k = codes "rosco_m68k_010"
machine rosco_6502 = codes "rosco_6502"

unfoldable pub board_defaults : Board → Table
board_defaults board =
    entry (codes "build")
      (table (
        entry (codes "docker") (table (entry (codes "image") (leaf (docker_image board)) empty))
          empty))
      (entry (codes "emulator") (table (entry (codes "machine") (leaf (machine board)) empty))
        empty)

-- how the schema reads the leaf of a board
unfoldable pub read_board : Value → Option Board
read_board (table t) = none
read_board (leaf x) =
    if key_eq x (codes "rosco_m68k")
    then some rosco_m68k
    else if key_eq x (codes "rosco_6502")
    then some rosco_6502
    else none

-- unwrap_or_default
unfoldable pub board_or_default : Option Board → Board
board_or_default none = rosco_m68k
board_or_default (some b) = b

unfoldable pub board_in : Table → Board
board_in t = board_or_default (lookup t (codes "project") (codes "board" ∷ []) >>= read_board)

-- the tables of the files that exist
pub record Layers : Type 0 where
  pub global : Option Table
  pub project : Option Table

-- one round of the loop over the layers
unfoldable pub fold_layer : Table → Option Table → Table
fold_layer files none = files
fold_layer files (some t) = merge_tables files t

unfoldable pub files_of : Layers → Table
files_of l = fold_layer (fold_layer empty l.global) l.project

-- `config`, up to the schema
unfoldable pub merged : Layers → Table
merged l = merge_tables (board_defaults (board_in (files_of l))) (files_of l)

pub data Origin : Type 0 where
  default_value : Origin
  global_file : Origin
  project_file : Origin

unfoldable pub is_some : Option Value → Bool
is_some none = false
is_some (some v) = true

unfoldable pub has : Option Table → (first : Key) (parts : List Key) → Bool
has none k ps = false
has (some t) k ps = is_some (lookup t k ps)

unfoldable pub origin : Layers → (first : Key) (parts : List Key) → Origin
origin l k ps =
    if has l.project k ps
    then project_file
    else if has l.global k ps
    then global_file
    else default_value
