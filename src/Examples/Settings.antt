-- ===== src/Examples/Settings.antt =====
-- config.rs and emulator.rs at concrete inputs.
use rosco_cli.Prelude.{◌≡◌, refl, codes, some, List, [], ◌∷◌, All, arith}
use rosco_cli.Config.{
  key_eq, leaf, table, Table, empty, entry, get, merge_tables, as_table, lookup, Layers, merged,
  files_of, board_in, board_defaults, docker_image, machine, insert, fold_layer, board_or_default,
  read_board, origin, project_file,
}
use rosco_cli.Ansi.{Piece, plain, csi, IsPiece, strip_ansi, strip_ansi-visible}
use rosco_cli.Config.Merge.{IsMap, on_top, lookup-merge_tables}
use rosco_cli.Config.Layering.{origin-Decided}

-- [serial] port = "COM3"
-- [build.docker] image = "mine"
abbrev user_file : Table
user_file = entry (codes "serial") (table (entry (codes "port") (leaf (codes "COM3")) empty)) (
    entry (codes "build")
      (table
        (entry (codes "docker") (table (entry (codes "image") (leaf (codes "mine")) empty)) empty))
      empty)

-- [project] board = "rosco_6502"
-- [serial] port = "COM7"
abbrev project_table : Table
project_table =
    entry (codes "project") (table (entry (codes "board") (leaf (codes "rosco_6502")) empty))
      (entry (codes "serial") (table (entry (codes "port") (leaf (codes "COM7")) empty)) empty)

abbrev layers : Layers
layers = record { global = some user_file; project = some project_table }

user_file-IsMap : IsMap user_file
unfolding get key_eq
user_file-IsMap = (refl, (refl, tt, tt), (refl, (refl, (refl, tt, tt), tt), tt))

project_table-IsMap : IsMap project_table
unfolding get key_eq
project_table-IsMap = (refl, (refl, tt, tt), (refl, (refl, tt, tt), tt))

lookup-merge_tables_example :
    lookup (merge_tables user_file project_table) (codes "serial") (codes "port" ∷ [])
    ≡ on_top
        (lookup user_file (codes "serial") (codes "port" ∷ []))
        project_table
        (codes "serial")
        (codes "port" ∷ [])
lookup-merge_tables_example =
    lookup-merge_tables user_file project_table (codes "serial") (codes "port" ∷ [])
      project_table-IsMap

origin-Decided_example :
    (lookup (merged layers) (codes "serial") (codes "port" ∷ []) ≡ some (leaf (codes "COM7")))
    × (origin layers (codes "serial") (codes "port" ∷ []) ≡ project_file)
unfolding lookup get key_eq as_table
origin-Decided_example =
    origin-Decided layers (codes "serial") (codes "port" ∷ []) user_file-IsMap project_table-IsMap
      refl refl

-- The board decides which machine the emulator runs.
machine_of_board :
    lookup (merged layers) (codes "emulator") (codes "machine" ∷ [])
    ≡ some (leaf (codes "rosco_6502"))
unfolding lookup get key_eq as_table merged files_of fold_layer merge_tables insert board_in
    board_or_default read_board board_defaults docker_image machine
machine_of_board = refl

-- a word in green
abbrev coloured : List Piece
coloured = plain (codes "a") ∷ csi (codes "32") 0x6D ∷ plain (codes "ok") ∷ []

coloured-IsPiece : All IsPiece coloured
coloured-IsPiece = (
  ((λ e. omega arith), tt),
  (
    ((omega arith, (omega arith, tt)), omega arith, omega arith),
    (((λ e. omega arith), ((λ e. omega arith), tt)), tt),
  ),
)

strip_ansi-visible_example : strip_ansi (codes "a\u{1b}[32mok") ≡ codes "aok"
strip_ansi-visible_example = strip_ansi-visible coloured coloured-IsPiece
