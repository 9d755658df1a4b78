-- ===== src/View/Tests.antt =====
-- The view at concrete inputs: artifacts whose Ext is their path.
use scrinium.Base.{
  ℕ, Text, true, false, Option, none, some, List, [], ◌∷◌, ◌≡◌, ◌⊎◌, ◌↔◌, lookup, inl, inr, refl,
  arith, codes, text_eq, if◌then◌else◌, Bool-cases,
}
use scrinium.Pathx.{join}
use scrinium.View.Nodes.{
  Manifest, ViewNode, artifact_facet_from, insert_artifact, snapshot_children, not_a_directory,
}
use scrinium.View.Shown.{shown}
use scrinium.View.Placement.{ViewDef, passes_filter, fallback_orphaned, build_view_defs, placement}
use scrinium.View.Ops.{View}
use scrinium.View.Ops.Mutators.{init_trees, backfill, add}
use scrinium.View.Roots.{placed_path}
use scrinium.View.Arbitration.{Claims, IsOnly, PlacesBelow, Sound}
use scrinium.View.Records.{add-Claims}
use scrinium.View.Members.{member_unlisted}
use scrinium.View.History.{adding, removing, run, fresh-Sound}
use scrinium.View.History.Runs.{ShowsFreshest, run-ShowsFreshest}

abbrev path_of : Manifest → Option Text
path_of m = if text_eq m.ext [] then none else some m.ext

abbrev by_path : ViewDef
by_path = record {
  root = codes "by-path";
  path = some path_of;
  collide = true;
  orphans = true;
  count_key = none;
  is_dir = none;
}

abbrev no_format : ℕ → Text
no_format n = codes "2026/01/01/00-00-00-"

abbrev no_schema : Text → Option Text
no_schema t = none

abbrev all_defs : List ViewDef
all_defs = build_view_defs no_format no_schema (by_path ∷ [])

abbrev new_view : View
new_view = record {
  created_at = 1;
  defs = all_defs;
  fallback = fallback_orphaned;
  filter = record { session_id = []; prefix = [] };
  root_view = codes "by-path";
  roots = init_trees 1 all_defs;
  artifacts = [];
  stats = record {
    total_nodes = 0;
    total_bytes = 0;
    session_count = 0;
    view_counts = [];
    orphaned_count = 0;
    collision_count = 0;
  };
  closed = false;
}

abbrev artifact : Text → Text → ℕ → Manifest
artifact id path time = record {
  artifact_id = id;
  content_hash = codes "h";
  blob_ref = codes "b";
  session_id = [];
  created_at = time;
  original_size = 3;
  ext = path;
}

abbrev older : Manifest
older = artifact (codes "sha-aaaa1111") (codes "a/b") 5

abbrev newer : Manifest
newer = artifact (codes "sha-bbbb2222") (codes "a/b") 7

by_path-IsOnly : IsOnly by_path all_defs
unfolding build_view_defs text_eq
by_path-IsOnly = record {
  before = build_view_defs no_format no_schema [];
  after = [];
  split = refl;
  others_before = (refl, (refl, (refl, tt)));
  others_after = tt;
  not_orphans = refl;
  collides = refl;
}

by_path-PlacesBelow : PlacesBelow by_path new_view
unfolding placed_path placement
by_path-PlacesBelow m p h = elim (Bool-cases (text_eq m.ext [])) [
  | inl e ↦ absurd (ground (arith, h, e))
  | inr e ↦ ground (arith, h, e)
]

run-ShowsFreshest_example :
    ShowsFreshest
      (codes "by-path")
      (run
        (λ m. m)
        (adding newer ∷ removing newer.artifact_id ∷ [])
        (backfill (λ m. m) (older ∷ []) new_view).0)
      (codes "a/b")
run-ShowsFreshest_example =
    run-ShowsFreshest (λ m. m) by_path new_view (older ∷ [])
      (adding newer ∷ removing newer.artifact_id ∷ []) (codes "a/b")
      (record { roots = refl; artifacts = refl }) by_path-IsOnly by_path-PlacesBelow (tt, tt)

abbrev third : Manifest
third = artifact (codes "sha-cccc3333") (codes "a/c") 6

by_path-Sound : Sound (codes "by-path") new_view
by_path-Sound =
    fresh-Sound by_path new_view by_path-IsOnly (record { roots = refl; artifacts = refl })

add-Claims_example : Claims (codes "by-path") (add older new_view).1 (codes "a/b") older ↔ (
    Claims (codes "by-path") new_view (codes "a/b") older
    ⊎ ((older ≡ older) × (placed_path new_view.fallback by_path older ≡ some (codes "a/b"))))
unfolding passes_filter text_eq lookup
add-Claims_example =
    add-Claims by_path new_view older (codes "a/b") older by_path-Sound by_path-IsOnly refl refl
      refl

member_unlisted_example :
    (shown (join (codes "a") (codes "b")) (
        insert_artifact 1
          (join (codes "a") (codes "b"))
          newer
          false
          (insert_artifact 1 (codes "a") older false []))
      ≡ some (artifact_facet_from newer))
    × (snapshot_children (codes "a") (
          insert_artifact 1
            (join (codes "a") (codes "b"))
            newer
            false
            (insert_artifact 1 (codes "a") older false []))
        ≡ inl not_a_directory)
    × ((ns : List ViewNode) × (snapshot_children (codes "a") (
            insert_artifact 1
              (codes "a")
              older
              false
              (insert_artifact 1 (join (codes "a") (codes "b")) newer false []))
          ≡ inr ns))
unfolding lookup
member_unlisted_example =
    member_unlisted 1 (codes "a") (codes "b") older newer false [] (λ e. ground (arith, e), tt)
      (λ e. ground (arith, e)) (λ e. ground (arith, e), tt) (λ e. ground (arith, e)) refl
