-- ===== src/View/Changes.antt =====
-- indexArtifact and removeArtifactFromTrees keep the invariant.
pub mod Removals
use scrinium.Base.{
  Text, false, Option, none, some, List, [], ◌∷◌, ◌≡◌, refl, sym, subst, ◌∙◌, if◌then◌else◌, lookup,
  set, text_eq,
}
use scrinium.View.Nodes.{Manifest}
use scrinium.View.Placement.{ViewDef, declared}
use scrinium.View.Ops.{Root, View, losers_at}
use scrinium.View.Ops.Indexing.{Placing, place_all, index_artifact}
use scrinium.View.Freshness.{insert_fresh}
use scrinium.View.Queues.{Queue, Alike, Alike-refl, insert-Queue, insert-Alike, insert-collide}
use scrinium.View.Roots.{placed_path}
use scrinium.View.Roots.Landing.{Landed, place_all-Landed}
use scrinium.View.Arbitration.{IsOnly, PlacesBelow, Sound, recorded, apart, grow-Sound}

abbrev pub start : View → Placing
start v = record { roots = v.roots; paths = []; orphaned = 0; events = [] }

abbrev pub placed : View → Manifest → Placing
placed v m = place_all v.created_at v.fallback v.artifacts m v.defs (start v)

pub nothing : (r : Text) → lookup {A = Text} r [] ≡ none
unfolding lookup
nothing r = refl

-- The set of seen keys plays no part.
reseen :
    (p : Text) (s : Root) (seen : Option (List Text)) (ms : List Manifest)
    → Queue p s ms
    → Queue p (record s { seen = seen }) ms
unfolding losers_at
reseen p s seen [] q = q
reseen p s seen (m ∷ ms) q = q

reseen-Alike :
    (p : Text) (s t : Root) (seen : Option (List Text))
    → Alike p s t
    → Alike p s (record t { seen = seen })
unfolding losers_at
reseen-Alike p s t seen a = record { owner = a.owner; losers = a.losers; tree = a.tree }

module _ (d : ViewDef) (v : View) (h : Sound d.root v) (m : Manifest)
    (fresh : lookup m.artifact_id v.artifacts ≡ none) where
  Landed-Sound :
      (v' : View) (path : Option Text) (w : Placing)
      → ((p : Text) → path ≡ some p → text_eq p [] ≡ false)
      → Landed v.created_at v.artifacts m (declared d m) d.root h.state path w
      → Sound d.root (record v' {
        roots = w.roots;
        artifacts = set m.artifact_id (record { manifest = m; paths = w.paths }) v.artifacts;
      })
  Landed-Sound v' none w f (a, b, o) =
      grow-Sound d.root v h m (record { manifest = m; paths = w.paths }) fresh refl w.roots h.state
        v' none a h.collides b f o (λ q. Alike-refl q h.state)
  Landed-Sound v' (some p) w f (seen, a, b, o) =
      let now = v.created_at in
      let dir = declared d m in
      grow-Sound d.root v h m (record { manifest = m; paths = w.paths }) fresh refl w.roots _ v'
        (some p) a (insert-collide now v.artifacts p m dir h.state ∙ h.collides) b f o
        (
          reseen p _ seen (insert_fresh m (h.queue p)) (
              insert-Queue now v.artifacts p m dir h.state (h.queue p) (h.queued p) (h.descends p)
                (recorded d.root v h p) (apart d.root v h p m fresh)),
          λ q e. reseen-Alike q h.state _ seen (insert-Alike now v.artifacts p q m dir h.state e),
        )

  pub index-Sound : IsOnly d v.defs → PlacesBelow d v → Sound d.root (index_artifact m v).0
  unfolding index_artifact
  index-Sound only below =
      Landed-Sound (index_artifact m v).0 (placed_path v.fallback d m) (placed v m)
        (λ p e. below m p e)
        (subst
          (λ ds.
            Landed v.created_at v.artifacts m (declared d m) d.root h.state
              (placed_path v.fallback d m)
              (place_all v.created_at v.fallback v.artifacts m ds (start v)))
          (sym only.split)
          (place_all-Landed v.created_at v.fallback v.artifacts m only.before only.after d h.state
            (start v) only.collides only.not_orphans only.others_before only.others_after h.at
            (nothing d.root) tt))
