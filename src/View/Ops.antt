-- ===== src/View/Ops.antt =====
-- The state of a view (types.go) and the arbitration of its paths (collisions.go). A mutator runs under
-- the write lock, so it is one function. The maps that have a root as their first key are one record for
-- each root.
pub mod Mutators
pub mod Indexing
use scrinium.Base.{
  ℕ, ◌+◌, ◌-◌, Text, Bool, true, false, not, Option, none, some, List, [], ◌∷◌, ◌++◌, ltb, ◌==◌,
  if◌then◌else◌, lookup, set, erase, text_eq, ◌⊎◌, ◌||◌,
}
use scrinium.Base.Order.{text_ltb}
use scrinium.View.Nodes.{Manifest, Tree, insert_artifact, closed}
use scrinium.View.Placement.{ViewDef, Fallback, Filter}

pub record ArtifactRecord : Type 0 where
  pub manifest : Manifest
  pub paths : List (Text × Text)

pub record LoserEntry : Type 0 where
  pub id : Text
  pub created_at : ℕ

-- EventPathCollision
pub record Collision : Type 0 where
  pub path : Text
  pub winner : Text
  pub loser : Text

-- trees, pathOwner, pathLosers, collide and seenKeys at one root.
pub record Root : Type 0 where
  pub tree : Tree
  pub owner : List (Text × Text)
  pub losers : List (Text × List LoserEntry)
  pub collide : Bool
  pub seen : Option (List Text)

pub record Stats : Type 0 where
  pub total_nodes : ℕ
  pub total_bytes : ℕ
  pub session_count : ℕ
  pub view_counts : List (Text × ℕ)
  pub orphaned_count : ℕ
  pub collision_count : ℕ

pub record View : Type 0 where
  pub created_at : ℕ
  pub defs : List ViewDef
  pub fallback : Fallback
  pub filter : Filter
  pub root_view : Text
  pub roots : List (Text × Root)
  pub artifacts : List (Text × ArtifactRecord)
  pub stats : Stats
  pub closed : Bool

unfoldable pub is_fresher_winner : Manifest → Manifest → Bool
is_fresher_winner candidate incumbent =
    if ltb incumbent.created_at candidate.created_at
    then true
    else if candidate.created_at == incumbent.created_at
    then text_ltb incumbent.artifact_id candidate.artifact_id
    else false

unfoldable pub losers_at : Text → Root → List LoserEntry
losers_at path s = elim (lookup path s.losers) [ none ↦ [] | some ls ↦ ls ]

abbrev pub entry_of : Manifest → LoserEntry
entry_of m = record { id = m.artifact_id; created_at = m.created_at }

-- The predicate of sort.Search: the entry belongs before `l`.
unfoldable pub belongs_before : LoserEntry → LoserEntry → Bool
belongs_before entry l =
    if ltb entry.created_at l.created_at
    then false
    else if l.created_at == entry.created_at
    then not (text_ltb entry.id l.id)
    else true

unfoldable pub insert_loser : LoserEntry → List LoserEntry → List LoserEntry
insert_loser entry [] = entry ∷ []
insert_loser entry (l ∷ ls) =
    let rest = insert_loser entry ls in if belongs_before entry l then entry ∷ l ∷ ls else l ∷ rest

unfoldable pub push_loser : Text → Manifest → Root → Root
push_loser path m s = record s {
  losers = set path (insert_loser (entry_of m) (losers_at path s)) s.losers;
}

unfoldable pub drop_loser : Text → List LoserEntry → List LoserEntry
drop_loser id [] = []
drop_loser id (l ∷ ls) = let rest = drop_loser id ls in if text_eq l.id id then ls else l ∷ rest

-- The losers of a path; the key of an empty list is deleted.
unfoldable pub put_losers : Text → List LoserEntry → Root → Root
put_losers path [] s = record s { losers = erase path s.losers }
put_losers path (l ∷ ls) s = record s { losers = set path (l ∷ ls) s.losers }

unfoldable pub remove_loser : Text → Text → Root → Root
remove_loser path id s = put_losers path (drop_loser id (losers_at path s)) s

-- An unclaimed path, or one whose owner has no record.
unfoldable pub claim : ℕ → Text → Manifest → Bool → Root → Root
claim now path m declared_dir s = record s {
  owner = set path m.artifact_id s.owner;
  tree = insert_artifact now path m declared_dir s.tree;
}

-- applyCollisionInsert, with the collision that it reports.
unfoldable pub apply_collision_insert :
    ℕ → List (Text × ArtifactRecord) → Text → Manifest → Bool → Root → Root × List Collision
apply_collision_insert now artifacts path m declared_dir s = elim (lookup path s.owner) [
  | none ↦ (claim now path m declared_dir s, [])
  | some current ↦ (elim (lookup current artifacts) [
    | none ↦ (claim now path m declared_dir s, [])
    | some rec ↦
        if is_fresher_winner m rec.manifest
        then (
          push_loser path rec.manifest (claim now path m declared_dir s),
          record { path = path; winner = m.artifact_id; loser = current } ∷ [],
        )
        else (
          push_loser path m s,
          record { path = path; winner = current; loser = m.artifact_id } ∷ [],
        )
  ])
]
