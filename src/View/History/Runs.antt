-- ===== src/View/History/Runs.antt =====
-- The invariant over the mutators, and what a view shows after them.
use scrinium.Base.{
  Text, false, not, ◌||◌, Option, none, some, List, [], ◌∷◌, ◌≡◌, ◌⊎◌, inl, inr, refl, sym, ap,
  subst, ◌∙◌, lookup, text_eq, Bool-cases, Option-cases,
}
use scrinium.View.Nodes.{Manifest, ArtifactFacet, artifact_facet_from}
use scrinium.View.Shown.{shown}
use scrinium.View.Placement.{ViewDef, passes_filter}
use scrinium.View.Ops.{View}
use scrinium.View.Ops.Indexing.{index_artifact}
use scrinium.View.Ops.Mutators.{
  known, add_new, add, dropped, remove, owner_of, move, apply_change, apply_delta, backfill,
}
use scrinium.View.Freshness.{Beats, Descends, In}
use scrinium.View.Freshness.Dropping.{All-In}
use scrinium.View.Queues.{Queue}
use scrinium.View.Roots.{placed_path}
use scrinium.View.Arbitration.{Claims, IsOnly, PlacesBelow, Sound}
use scrinium.View.Changes.{index-Sound}
use scrinium.View.Changes.Removals.{removal-Sound}
use scrinium.View.History.{
  IsFresh, fresh-Sound, Op, adding, removing, moving, delta, step, run, index-defs, index-fallback,
  removed-defs, removed-fallback, removed_gone, unknown, gated, gated_pair, AreNew, AreDifferent,
  still_new,
}

module _ (d : ViewDef) where
  -- The invariant, over unchanged definitions.
  abbrev Good : View → View → Type 0
  Good v0 v = (v.defs ≡ v0.defs) × (v.fallback ≡ v0.fallback) × Sound d.root v

  module _ (v0 : View) (only : IsOnly d v0.defs) (below : PlacesBelow d v0) where
    index-Good :
        (m : Manifest) (v : View)
        → Good v0 v
        → lookup m.artifact_id v.artifacts ≡ none
        → Good v0 (index_artifact m v).0
    index-Good m v g n = (
      index-defs m v ∙ g.0,
      index-fallback m v ∙ g.1,
      index-Sound d v g.2 m n (subst (IsOnly d) (sym g.0) only) (
          subst
            (λ fb. (m : Manifest) (p : Text) → placed_path fb d m ≡ some p → text_eq p [] ≡ false)
            (sym g.1) below),
    )

    dropped-Good : (id : Text) (v : View) → Good v0 v → Good v0 (dropped id v)
    unfolding dropped
    dropped-Good id v g = elim (Option-cases (lookup id v.artifacts)) [
      | inl e ↦ rw (e, dropped) g
      | inr (rec, e) ↦
          rw (e, dropped)
            (
              removed-defs id rec v ∙ g.0,
              removed-fallback id rec v ∙ g.1,
              removal-Sound d v g.2 id rec e,
            )
    ]

    gone : (id : Text) (v : View) → lookup id (dropped id v).artifacts ≡ none
    unfolding dropped
    gone id v = elim (Option-cases (lookup id v.artifacts)) [
      | inl e ↦ rw (e, dropped) e
      | inr (rec, e) ↦ rw (e, dropped) (removed_gone id rec v)
    ]

    add_new-Good : (m : Manifest) (v : View) → Good v0 v → Good v0 (add_new m v).0
    unfolding add_new
    add_new-Good m v g =
        elim (Bool-cases
          (not (passes_filter v.filter v.fallback v.defs m) || known m.artifact_id v)) [
            | inl e ↦ rw (e, add_new) g
            | inr e ↦ rw (e, add_new) (index-Good m v g (unknown m v e))
          ]

    change-Good :
        (populate : Manifest → Manifest) (c : Manifest) (v : View)
        → Good v0 v
        → Good v0 (apply_change populate c v).0
    unfolding apply_change
    change-Good populate c v g = elim (Bool-cases (passes_filter v.filter v.fallback v.defs c)) [
      | inl e ↦
          let id : Text = (populate c).artifact_id in
          rw (e, apply_change)
            (index-Good (populate c) (dropped id v) (dropped-Good id v g) (gone id v))
      | inr e ↦ rw (e, apply_change) (dropped-Good c.artifact_id v g)
    ]

    delta-Good :
        (populate : Manifest → Manifest) (cs : List Manifest) (v : View)
        → Good v0 v
        → Good v0 (apply_delta populate cs v).0
    unfolding apply_delta
    delta-Good populate [] v g = g
    delta-Good populate (c ∷ cs) v g = delta-Good populate cs _ (change-Good populate c v g)

    left-Good :
        (old_path : Text) (v : View)
        → Good v0 v
        → Good v0 (elim (owner_of old_path v) [ none ↦ v | some o ↦ dropped o v ])
    left-Good old_path v g =
        elim (owner_of old_path v) as (λ x. Good v0 (elim x [ none ↦ v | some o ↦ dropped o v ])) [
          | none ↦ g
          | some o ↦ dropped-Good o v g
        ]

    step-Good :
        (populate : Manifest → Manifest) (op : Op) (v : View)
        → Good v0 v
        → Good v0 (step populate op v)
    unfolding step add remove move
    step-Good populate (adding m) v g = gated v.closed (Good v0) _ _ g (add_new-Good m v g)
    step-Good populate (removing id) v g = gated_pair v.closed (Good v0) _ _ g (dropped-Good id v g)
    step-Good populate (moving old_path m) v g =
        gated v.closed (Good v0) _ _ g (add_new-Good m _ (left-Good old_path v g))
    step-Good populate (delta changes) v g = delta-Good populate changes v g

    run-Good :
        (populate : Manifest → Manifest) (ops : List Op) (v : View)
        → Good v0 v
        → Good v0 (run populate ops v)
    unfolding run
    run-Good populate [] v g = g
    run-Good populate (op ∷ ops) v g = run-Good populate ops _ (step-Good populate op v g)

    -- The backfill of artifacts that are all different and not there yet.
    backfill-Good :
        (populate : Manifest → Manifest) (cs : List Manifest) (v : View)
        → Good v0 v
        → AreNew populate v cs
        → AreDifferent populate cs
        → Good v0 (backfill populate cs v).0
    unfolding backfill
    backfill-Good populate [] v g n a = g
    backfill-Good populate (c ∷ cs) v g n a =
        elim (Bool-cases (passes_filter v.filter v.fallback v.defs c)) [
          | inl e ↦
              rw (backfill, e)
                (backfill-Good populate cs _ (index-Good (populate c) v g n.0)
                  (still_new populate c cs v n.1 a.0) a.1)
          | inr e ↦ rw (backfill, e) (backfill-Good populate cs v g n.1 a.1)
        ]

-- What the tree of a root shows at a path.
abbrev pub shown_at : Text → Text → View → Option ArtifactFacet
shown_at r p v = elim (lookup r v.roots) [ none ↦ none | some s ↦ shown p s.tree ]

-- The path shows the freshest of the artifacts that claim it, or nothing where none does.
abbrev pub ShowsFreshest : Text → View → Text → Type 0
ShowsFreshest r v p =
    (((m : Manifest) → ¬ Claims r v p m) × (shown_at r p v ≡ none))
    ⊎ ((m : Manifest) × Claims r v p m
        × (shown_at r p v ≡ some (artifact_facet_from m))
        × ((k : Manifest) → Claims r v p k → (k ≡ m) ⊎ Beats m k))

Queue-shows :
    (r : Text) (v : View) (h : Sound r v) (p : Text) (ms : List Manifest)
    → Queue p h.state ms
    → Descends ms
    → ((m : Manifest) → In m ms → Claims r v p m)
    → ((m : Manifest) → Claims r v p m → In m ms)
    → ShowsFreshest r v p
Queue-shows r v h p [] q d f g = inl (λ m c. g m c, rw (h.at, shown_at) q.2)
Queue-shows r v h p (m ∷ ms) q d f g = inr (
  m,
  f m (inl refl),
  rw (h.at, shown_at) q.2,
  λ k c. elim (g k c) [ inl e ↦ inl e | inr i ↦ inr (All-In (Beats m) ms k d.0 i) ],
)

all_new :
    (populate : Manifest → Manifest) (v : View) (cs : List Manifest)
    → IsFresh v
    → AreNew populate v cs
unfolding lookup
all_new populate v [] f = tt
all_new populate v (c ∷ cs) f =
    (ap (lookup (populate c).artifact_id) f.artifacts, all_new populate v cs f)

-- A view shows at each path the freshest artifact that claims it, whatever has happened since New: the
-- backfill of artifacts with different identifiers, then any Adds, Removes, Moves and deltas in any
-- order. For a root that only one definition has, that is not the root of the orphans, where artifacts
-- collide, and whose paths are not empty; a claim is the path that the artifact's record has there, and later creation, then the
-- greater identifier, makes an artifact fresher.
pub run-ShowsFreshest :
    (populate : Manifest → Manifest) (d : ViewDef) (v : View) (backfilled : List Manifest)
    (ops : List Op) (p : Text)
    → IsFresh v
    → IsOnly d v.defs
    → PlacesBelow d v
    → AreDifferent populate backfilled
    → ShowsFreshest d.root (run populate ops (backfill populate backfilled v).0) p
run-ShowsFreshest populate d v backfilled ops p fresh only below different =
    let start : Good d v v = (refl, refl, fresh-Sound d v only fresh) in
    let new : AreNew populate v backfilled = all_new populate v backfilled fresh in
    let filled = backfill-Good d v only below populate backfilled v start new different in
    let (_, _, h) =
      run-Good d v only below populate ops (backfill populate backfilled v).0 filled in
    Queue-shows d.root _ h p (h.queue p) (h.queued p) (h.descends p) (h.has_record p) (h.complete p)
