-- ===== src/View/Ops/Indexing.antt =====
-- indexArtifact (backfill.go): one artifact on its way into every tree.
use scrinium.Base.{
  ℕ, ◌+◌, Text, false, Option, none, some, List, [], ◌∷◌, ◌++◌, if◌then◌else◌, length, lookup, set,
  text_eq,
}
use scrinium.View.Nodes.{Manifest, insert_artifact}
use scrinium.View.Placement.{
  ViewDef, Fallback, fallback_orphaned, fallback_synthetic, by_artifact_path, synthetic_path,
  by_orphaned, by_session, placement, declared,
}
use scrinium.View.Ops.{ArtifactRecord, Collision, Root, View, apply_collision_insert}

-- A change at one root.
unfoldable pub at_root : Text → (Root → Root) → List (Text × Root) → List (Text × Root)
at_root r f roots = elim (lookup r roots) [ none ↦ roots | some s ↦ set r (f s) roots ]

-- One artifact on its way into the trees.
pub record Placing : Type 0 where
  pub roots : List (Text × Root)
  pub paths : List (Text × Text)
  pub orphaned : ℕ
  pub events : List Collision

abbrev reported : Option Root → (Root → Root × List Collision) → List Collision
reported none f = []
reported (some s) f = (f s).1

-- The artifact at one path of one root.
unfoldable pub place_at :
    ℕ → List (Text × ArtifactRecord) → Manifest → ViewDef → Text → Placing → Placing
place_at now artifacts m d path w =
    if d.collide
    then record w {
      roots =
          at_root d.root (λ s. (apply_collision_insert now artifacts path m (declared d m) s).0)
            w.roots;
      paths = set d.root path w.paths;
      events =
          w.events
          ++ reported (lookup d.root w.roots)
              (apply_collision_insert now artifacts path m (declared d m));
    }
    else record w {
      roots =
          at_root d.root (λ s. record s { tree = insert_artifact now path m (declared d m) s.tree })
            w.roots;
      paths = set d.root path w.paths;
    }

unfoldable pub place_orphan : ℕ → Manifest → Placing → Placing
place_orphan now m w =
    let path : Text = by_artifact_path m.artifact_id in
    record w {
      roots =
          at_root by_orphaned (λ s. record s { tree = insert_artifact now path m false s.tree })
            w.roots;
      paths = set by_orphaned path w.paths;
      orphaned = w.orphaned + 1;
    }

abbrev with_key : Text → List Text → List Text
with_key k [] = k ∷ []
with_key k (j ∷ js) = let rest = with_key k js in if text_eq j k then j ∷ js else j ∷ rest

abbrev seen_with : Text → Option (List Text) → Option (List Text)
seen_with k none = none
seen_with k (some ks) = some (with_key k ks)

unfoldable pub count_seen : ViewDef → Manifest → Placing → Placing
count_seen d m w = elim d.count_key [
  | none ↦ w
  | some key ↦ (elim (key m) [
    | none ↦ w
    | some k ↦ record w {
      roots = at_root d.root (λ s. record s { seen = seen_with k s.seen }) w.roots;
    }
  ])
]

-- One definition of the view.
unfoldable pub place_in :
    ℕ → Fallback → List (Text × ArtifactRecord) → Manifest → ViewDef → Placing → Placing
place_in now fb artifacts m d w = elim (placement d m) [
  | some path ↦ count_seen d m (place_at now artifacts m d path w)
  | none ↦
      if d.orphans
      then (elim fb [
        | fallback_synthetic ↦ place_at now artifacts m d (synthetic_path m) w
        | fallback_orphaned ↦ place_orphan now m w
      ])
      else w
]

unfoldable pub place_all :
    ℕ → Fallback → List (Text × ArtifactRecord) → Manifest → List ViewDef → Placing → Placing
place_all now fb artifacts m [] w = w
place_all now fb artifacts m (d ∷ ds) w =
    place_all now fb artifacts m ds (place_in now fb artifacts m d w)

unfoldable pub seen_count : Text → List (Text × Root) → ℕ
seen_count r roots = elim (lookup r roots) [
  | none ↦ 0
  | some s ↦ (elim s.seen [ none ↦ 0 | some ks ↦ length ks ])
]

-- The counters of the counting views other than by-session.
unfoldable pub counted_views : List (Text × Root) → List (Text × ℕ) → List (Text × ℕ)
counted_views [] counts = counts
counted_views ((r, s) ∷ roots) counts = counted_views roots (
    if text_eq r by_session
    then counts
    else (elim s.seen [ none ↦ counts | some ks ↦ set r (length ks) counts ]))

unfoldable pub index_artifact : Manifest → View → View × List Collision
index_artifact m v =
    let start : Placing = record { roots = v.roots; paths = []; orphaned = 0; events = [] } in
    let w : Placing = place_all v.created_at v.fallback v.artifacts m v.defs start in
    (
      record v {
        roots = w.roots;
        artifacts = set m.artifact_id (record { manifest = m; paths = w.paths }) v.artifacts;
        stats = record {
          total_nodes = v.stats.total_nodes + 1;
          total_bytes = v.stats.total_bytes + m.original_size;
          session_count = seen_count by_session w.roots;
          view_counts = counted_views w.roots v.stats.view_counts;
          orphaned_count = v.stats.orphaned_count + w.orphaned;
          collision_count = v.stats.collision_count + length w.events;
        };
      },
      w.events,
    )
