-- ===== src/Named/Listing.antt =====
-- The listings of the system plane: splitLeaf and ListActive of version.go, ListCells of cell.go.
pub mod Entries
mod Tests
use scrinium.Base.{
  ℕ, Text, Bool, true, false, Option, none, some, List, [], ◌∷◌, ◌++◌, ltb, ◌==◌, if◌then◌else◌,
  length, drop, text_eq, has_prefix,
}
use scrinium.Base.Order.{text_ltb}
use scrinium.Cut.{cut_last}
use scrinium.Driver.{Exec, pure, ◌>>=◌, list_objects}
use scrinium.Named.{parse_seq, root_slash, dot, cell_leaf}

-- Active; a cell has the number 0.
pub record Active : Type 0 where
  pub name : Text
  pub seq : ℕ
  pub path : Text

unfoldable pub split_leaf : Text → Option (Text × Text)
split_leaf rel = cut_last dot rel

-- The part of a listed path after the root, where it is under the prefix and not empty.
unfoldable pub rel_of : Text → Text → Option Text
rel_of prefix path =
    let rel = drop (length root_slash) path in
    if has_prefix path (root_slash ++ prefix)
    then (if text_eq rel [] then none else some rel)
    else none

abbrev pub version_leaf : Text → Text × Text → Option Active
version_leaf path (name, leaf) = elim (parse_seq leaf) [
  | none ↦ none
  | some seq ↦ some (record { name = name; seq = seq; path = path })
]

abbrev pub cell_leaf_of : Text → Text × Text → Option Active
cell_leaf_of path (name, leaf) =
    if text_eq leaf cell_leaf then some (record { name = name; seq = 0; path = path }) else none

abbrev pub then_leaf : (Text × Text → Option Active) → Option Text → Option Active
then_leaf f none = none
then_leaf f (some rel) = elim (split_leaf rel) [ none ↦ none | some parts ↦ f parts ]

-- What the callback of ListActive takes from a path.
unfoldable pub active_entry : Text → Text → Option Active
active_entry prefix path = then_leaf (version_leaf path) (rel_of prefix path)

-- What the callback of ListCells takes from a path.
unfoldable pub cell_entry : Text → Text → Option Active
cell_entry prefix path = then_leaf (cell_leaf_of path) (rel_of prefix path)

-- sort.Slice by the name.
unfoldable pub insert_name : Active → List Active → List Active
insert_name a [] = a ∷ []
insert_name a (b ∷ bs) =
    let rest = insert_name a bs in if text_ltb b.name a.name then b ∷ rest else a ∷ b ∷ bs

unfoldable pub sort_names : List Active → List Active
sort_names [] = []
sort_names (a ∷ others) = insert_name a (sort_names others)

-- The map `best`: one entry a name, replaced by a greater number.
unfoldable pub keep_best : Active → List Active → List Active
keep_best a [] = a ∷ []
keep_best a (b ∷ bs) =
    let rest = keep_best a bs in
    if text_eq a.name b.name then (if ltb b.seq a.seq then a ∷ bs else b ∷ bs) else b ∷ rest

unfoldable pub best_of : Text → List Text → List Active → List Active
best_of prefix [] best = best
best_of prefix (p ∷ rest) best = elim (active_entry prefix p) [
  | none ↦ best_of prefix rest best
  | some a ↦ best_of prefix rest (keep_best a best)
]

unfoldable pub list_active : Text → Exec (List Active)
list_active prefix = do listed ← list_objects; pure (sort_names (best_of prefix listed []))

unfoldable pub cells_of : Text → List Text → List Active
cells_of prefix [] = []
cells_of prefix (p ∷ rest) =
    let others = cells_of prefix rest in
    elim (cell_entry prefix p) [ none ↦ others | some a ↦ a ∷ others ]

unfoldable pub list_cells : Text → Exec (List Active)
list_cells prefix = do listed ← list_objects; pure (sort_names (cells_of prefix listed))
