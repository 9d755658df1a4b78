-- ===== src/View/Ops/Mutators.antt =====
-- Taking an artifact out of the trees, and the mutators of a view (mutate.go, backfill.go, refresh.go,
-- construct.go), with the listing of a directory (read.go).
use scrinium.Base.{
  ℕ, ◌-◌, Text, Bool, true, false, not, Option, none, some, List, [], ◌∷◌, ◌++◌, if◌then◌else◌,
  lookup, set, erase, text_eq, ◌⊎◌, inl, ◌||◌,
}
use scrinium.View.Nodes.{
  Manifest, Tree, new_dir_node, insert_file, detach_artifact, remove_file, ReadError, closed,
  path_not_found, ViewNode, snapshot_children,
}
use scrinium.View.Placement.{ViewDef, by_orphaned, passes_filter}
use scrinium.View.Ops.{
  ArtifactRecord, LoserEntry, Collision, Root, View, losers_at, put_losers, remove_loser,
}
use scrinium.View.Ops.Indexing.{at_root, index_artifact}

-- The owner of the path goes: its node survives as a directory where it has children.
unfoldable pub released : Text → Tree → Tree
released path t = elim (detach_artifact path t) [ some t' ↦ t' | none ↦ remove_file path t ]

-- The freshest loser, where it has a record, takes the path over.
unfoldable pub promote : ℕ → List (Text × ArtifactRecord) → Text → List LoserEntry → Root → Root
promote now artifacts path [] s = s
promote now artifacts path (l ∷ ls) s =
    let s' : Root = put_losers path ls s in
    elim (lookup l.id artifacts) [
      | none ↦ s'
      | some rec ↦ record s' {
        owner = set path l.id s'.owner;
        tree = insert_file now path rec.manifest s'.tree;
      }
    ]

unfoldable pub remove_from_collision_tree :
    ℕ → List (Text × ArtifactRecord) → Text → Text → Root → Root
remove_from_collision_tree now artifacts id path s =
    let as_loser : Root = remove_loser path id s in
    let as_owner : Root =
      promote now artifacts path (losers_at path s)
        (record s { tree = released path s.tree; owner = erase path s.owner }) in
    elim (lookup path s.owner) [
      | none ↦ as_loser
      | some o ↦ if text_eq o id then as_owner else as_loser
    ]

unfoldable pub remove_at : ℕ → List (Text × ArtifactRecord) → Text → Text → Root → Root
remove_at now artifacts id path s =
    if s.collide
    then remove_from_collision_tree now artifacts id path s
    else record s { tree = remove_file path s.tree }

-- The roots that the artifact has a path in; an empty path is skipped.
unfoldable pub remove_all :
    ℕ
    → List (Text × ArtifactRecord)
    → Text
    → List (Text × Text)
    → List (Text × Root)
    → List (Text × Root)
remove_all now artifacts id [] roots = roots
remove_all now artifacts id ((r, path) ∷ paths) roots =
    remove_all now artifacts id paths
      (if text_eq path [] then roots else at_root r (remove_at now artifacts id path) roots)

unfoldable pub is_orphaned : ArtifactRecord → Bool
is_orphaned rec = elim (lookup by_orphaned rec.paths) [ none ↦ false | some p ↦ not (text_eq p []) ]

unfoldable pub remove_artifact_from_trees : Text → ArtifactRecord → View → View
remove_artifact_from_trees id rec v = record v {
  roots = remove_all v.created_at v.artifacts id rec.paths v.roots;
  artifacts = erase id v.artifacts;
  stats = record v.stats {
    total_nodes = v.stats.total_nodes - 1;
    total_bytes = v.stats.total_bytes - rec.manifest.original_size;
    orphaned_count = if is_orphaned rec then v.stats.orphaned_count - 1 else v.stats.orphaned_count;
  };
}

pub data Result : Type 0 where
  done err_closed : Result

abbrev pub known : Text → View → Bool
known id v = elim (lookup id v.artifacts) [ none ↦ false | some rec ↦ true ]

-- Where the artifact passes the filter and is not known yet.
unfoldable pub add_new : Manifest → View → View × List Collision
add_new m v =
    if not (passes_filter v.filter v.fallback v.defs m) || known m.artifact_id v
    then (v, [])
    else index_artifact m v

-- Add, Remove and Move, with the events that they publish after the lock is released.
unfoldable pub add : Manifest → View → Result × View × List Collision
add m v = if v.closed then (err_closed, v, []) else (let (v', e) = add_new m v in (done, v', e))

unfoldable pub dropped : Text → View → View
dropped id v = elim (lookup id v.artifacts) [
  | none ↦ v
  | some rec ↦ remove_artifact_from_trees id rec v
]

unfoldable pub remove : Text → View → Result × View
remove id v = if v.closed then (err_closed, v) else (done, dropped id v)

-- The owner of a path in the root view.
unfoldable pub owner_of : Text → View → Option Text
owner_of path v = elim (lookup v.root_view v.roots) [ none ↦ none | some s ↦ lookup path s.owner ]

unfoldable pub move : Text → Manifest → View → Result × View × List Collision
move old_path m v =
    let left : View = elim (owner_of old_path v) [ none ↦ v | some o ↦ dropped o v ] in
    let (v', e) = add_new m left in if v.closed then (err_closed, v, []) else (done, v', e)

-- applyDelta; `populate` is populateExt, which asks the source.
unfoldable pub apply_change : (Manifest → Manifest) → Manifest → View → View × List Collision
apply_change populate change v =
    let keep : Bool = passes_filter v.filter v.fallback v.defs change in
    let m : Manifest = if keep then populate change else change in
    let left : View = dropped m.artifact_id v in if keep then index_artifact m left else (left, [])

unfoldable pub apply_delta : (Manifest → Manifest) → List Manifest → View → View × List Collision
apply_delta populate [] v = (v, [])
apply_delta populate (c ∷ cs) v =
    let (v', e) = apply_change populate c v in
    let (v'', es) = apply_delta populate cs v' in (v'', e ++ es)

-- backfill over the manifests that Walk yields.
unfoldable pub backfill : (Manifest → Manifest) → List Manifest → View → View × List Collision
backfill populate [] v = (v, [])
backfill populate (c ∷ cs) v =
    let (v', e) =
      if passes_filter v.filter v.fallback v.defs c
      then index_artifact (populate c) v
      else (v, []) in
    let (v'', es) = backfill populate cs v' in (v'', e ++ es)

-- initTrees: an empty tree for each root and for the orphans.
abbrev pub empty_root : ℕ → Bool → Bool → Root
empty_root now collide counts = record {
  tree = ([], new_dir_node [] [] now) ∷ [];
  owner = [];
  losers = [];
  collide = collide;
  seen = if counts then some [] else none;
}

abbrev pub counts_keys : ViewDef → Bool
counts_keys d = elim d.count_key [ none ↦ false | some key ↦ true ]

-- Some definition of the root has the flag.
unfoldable pub any_def : (ViewDef → Bool) → Text → List ViewDef → Bool
any_def flag root [] = false
any_def flag root (d ∷ ds) =
    let rest = any_def flag root ds in if text_eq d.root root then rest || flag d else rest

abbrev pub collides : ViewDef → Bool
collides d = d.collide

unfoldable pub init_trees : ℕ → List ViewDef → List (Text × Root)
init_trees now [] = (by_orphaned, empty_root now false false) ∷ []
init_trees now (d ∷ ds) =
    set d.root
      (empty_root now (any_def collides d.root ds || d.collide)
        (any_def counts_keys d.root ds || counts_keys d))
      (init_trees now ds)

unfoldable pub snapshot_in : Text → Text → View → ReadError ⊎ List ViewNode
snapshot_in r path v = if v.closed then inl closed else (elim (lookup r v.roots) [
  | none ↦ inl path_not_found
  | some s ↦ snapshot_children path s.tree
])
