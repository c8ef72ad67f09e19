-- ===== src/Config/Layering.antt =====
-- src/config.rs: which file decides a setting, and what the setting is then.
use rosco_cli.Prelude.{◌≡◌, refl, ap, ◌∙◌, false, Option, none, some, List, [], ◌∷◌}
use rosco_cli.Config.{
  Key, Value, leaf, table, Table, empty, entry, get, insert, merge_value, merge_tables, lookup,
  board_defaults, board_in, Layers, fold_layer, files_of, merged, default_value, global_file,
  project_file, is_some, has, origin,
}
use rosco_cli.Config.Merge.{
  IsMap, IsMapValue, IsMapAt, insert-IsMap, get-IsMap, get-merge_tables, over, hides, hides_at,
  covered, lookup-merge_tables, covered-none,
}

-- a layer that is not there is an empty table
abbrev pub table_of : Option Table → Table
table_of none = empty
table_of (some t) = t

fold_layer-merge :
    (files : Table) (o : Option Table) → fold_layer files o ≡ merge_tables files (table_of o)
unfolding fold_layer merge_tables
fold_layer-merge files none = refl
fold_layer-merge files (some t) = refl

mutual
  unfolding merge_value

  merge_value-IsMap :
      (old : Option Value) (v : Value) → IsMapAt old → IsMapValue v → IsMapValue (merge_value old v)
  merge_value-IsMap old (leaf x) ho hv = tt
  merge_value-IsMap none (table t) ho hv = hv
  merge_value-IsMap (some (leaf x)) (table t) ho hv = hv
  merge_value-IsMap (some (table b)) (table t) ho hv = merge_tables-IsMap b t ho hv

  merge_tables-IsMap :
      (base overlay : Table) → IsMap base → IsMap overlay → IsMap (merge_tables base overlay)
  merge_tables-IsMap base empty hb ho = hb
  merge_tables-IsMap base (entry k v overlay) hb (absent, one, rest) =
      merge_tables-IsMap (insert base k (merge_value (get base k) v)) overlay
        (insert-IsMap base k (merge_value (get base k) v) hb
          (merge_value-IsMap (get base k) v (get-IsMap base k hb) one))
        rest

hides-step :
    (below o : Option Value) (p : Key) (ps : List Key)
    → hides_at below p ps ≡ false
    → hides_at o p ps ≡ false
    → ((b t : Table)
        → IsMap t
        → hides b p ps ≡ false
        → hides t p ps ≡ false
        → hides (merge_tables b t) p ps ≡ false)
    → IsMapAt o
    → hides_at (over below o) p ps ≡ false
unfolding merge_value
hides-step below none p ps hb ho ih h = hb
hides-step below (some (leaf x)) p ps hb ho ih h = ho
hides-step none (some (table t)) p ps hb ho ih h = ho
hides-step (some (leaf x)) (some (table t)) p ps hb ho ih h = ho
hides-step (some (table b)) (some (table t)) p ps hb ho ih h = ih b t h hb ho

-- Nothing stands in the way in two merged tables if it does in neither.
hides-merge_tables :
    (base overlay : Table) (k : Key) (ps : List Key)
    → IsMap overlay
    → hides base k ps ≡ false
    → hides overlay k ps ≡ false
    → hides (merge_tables base overlay) k ps ≡ false
hides-merge_tables base overlay k [] h hb ho = refl
hides-merge_tables base overlay k (p ∷ ps) h hb ho =
    ap (λ o. hides_at o p ps) (get-merge_tables base overlay k h)
    ∙ hides-step (get base k) (get overlay k) p ps hb ho (λ b t m. hides-merge_tables b t p ps m)
        (get-IsMap overlay k h)

-- the two files in one table
files-merged :
    (l : Layers)
    → files_of l ≡ merge_tables (merge_tables empty (table_of l.global)) (table_of l.project)
unfolding files_of
files-merged l =
    fold_layer-merge (fold_layer empty l.global) l.project
    ∙ ap (λ t. merge_tables t (table_of l.project)) (fold_layer-merge empty l.global)

has-table_of :
    (o : Option Table) (k : Key) (ps : List Key) → has o k ps ≡ is_some (lookup (table_of o) k ps)
unfolding has is_some lookup get
has-table_of none k [] = refl
has-table_of none k (p ∷ ps) = refl
has-table_of (some t) k ps = refl

lookup-empty : (k : Key) (ps : List Key) → lookup empty k ps ≡ none
unfolding lookup get
lookup-empty k [] = refl
lookup-empty k (p ∷ ps) = refl

hides-empty : (k : Key) (ps : List Key) → hides empty k ps ≡ false
unfolding get
hides-empty k [] = refl
hides-empty k (p ∷ ps) = refl

-- What a setting is to be, from what the project's file and the user's file say: a value in the project's file, or else one in the user's file, or else what the board brings with it.
abbrev pub Decided :
    Layers → (first : Key) (parts : List Key) → (project global : Option Value) → Type 0
Decided l k ps (some (leaf x)) global =
    (lookup (merged l) k ps ≡ some (leaf x)) × (origin l k ps ≡ project_file)
Decided l k ps (some (table t)) global = origin l k ps ≡ project_file
Decided l k ps none (some (leaf x)) =
    (lookup (merged l) k ps ≡ some (leaf x)) × (origin l k ps ≡ global_file)
Decided l k ps none (some (table t)) = origin l k ps ≡ global_file
Decided l k ps none none =
    (lookup (merged l) k ps ≡ lookup (board_defaults (board_in (files_of l))) k ps)
    × (origin l k ps ≡ default_value)

module _ (l : Layers) (k : Key) (ps : List Key) (global_map : IsMap (table_of l.global))
    (project_map : IsMap (table_of l.project))
    (global_open : hides (table_of l.global) k ps ≡ false)
    (project_open : hides (table_of l.project) k ps ≡ false) where
  abbrev under : Table
  under = merge_tables empty (table_of l.global)

  abbrev both : Table
  both = merge_tables under (table_of l.project)

  lookup-under : lookup under k ps ≡ lookup (table_of l.global) k ps
  lookup-under =
      lookup-merge_tables empty (table_of l.global) k ps global_map
      ∙ rw (lookup-empty k ps)
          (covered-none (hides (table_of l.global) k ps) (lookup (table_of l.global) k ps))

  lookup-both :
      lookup both k ps
      ≡ covered false (lookup (table_of l.global) k ps) (lookup (table_of l.project) k ps)
  lookup-both =
      lookup-merge_tables under (table_of l.project) k ps project_map
      ∙ rw project_open (rw lookup-under refl)

  hides-both : hides both k ps ≡ false
  hides-both =
      hides-merge_tables under (table_of l.project) k ps project_map
        (hides-merge_tables empty (table_of l.global) k ps global_map (hides-empty k ps)
          global_open)
        project_open

  lookup-merged :
      lookup (merged l) k ps
      ≡ covered false
          (lookup (board_defaults (board_in (files_of l))) k ps)
          (covered false (lookup (table_of l.global) k ps) (lookup (table_of l.project) k ps))
  unfolding merged
  lookup-merged =
      let d = board_defaults (board_in (files_of l)) in
      let map : IsMap both =
        merge_tables-IsMap under (table_of l.project)
          (merge_tables-IsMap empty (table_of l.global) tt global_map) project_map in
      ap (λ t. lookup (merge_tables d t) k ps) (files-merged l)
      ∙ lookup-merge_tables d both k ps map
      ∙ rw hides-both (rw lookup-both refl)

  decide :
      (project global : Option Value)
      → lookup (table_of l.project) k ps ≡ project
      → lookup (table_of l.global) k ps ≡ global
      → Decided l k ps project global
  unfolding origin is_some merge_value
  decide (some (leaf x)) global ep eg =
      (lookup-merged ∙ rw ep refl, rw (has-table_of l.project k ps) (rw ep refl))
  decide (some (table t)) global ep eg = rw (has-table_of l.project k ps) (rw ep refl)
  decide none (some (leaf x)) ep eg = (
    lookup-merged ∙ rw ep (rw eg refl),
    rw (has-table_of l.project k ps) (rw ep (rw (has-table_of l.global k ps) (rw eg refl))),
  )
  decide none (some (table t)) ep eg =
      rw (has-table_of l.project k ps) (rw ep (rw (has-table_of l.global k ps) (rw eg refl)))
  decide none none ep eg = (
    lookup-merged ∙ rw ep (rw eg refl),
    rw (has-table_of l.project k ps) (rw ep (rw (has-table_of l.global k ps) (rw eg refl))),
  )

-- The file that origin names is the one that decides: a setting of the project's file is the one in the merged tables, or else one of the user's file, or else what the board brings with it. The files hold no key twice, and nothing that is no section stands where the setting's sections should be.
pub origin-Decided :
    (l : Layers) (k : Key) (ps : List Key)
    → IsMap (table_of l.global)
    → IsMap (table_of l.project)
    → hides (table_of l.global) k ps ≡ false
    → hides (table_of l.project) k ps ≡ false
    → Decided l k ps (lookup (table_of l.project) k ps) (lookup (table_of l.global) k ps)
origin-Decided l k ps gm pm go po =
    decide l k ps gm pm go po (lookup (table_of l.project) k ps) (lookup (table_of l.global) k ps)
      refl refl
