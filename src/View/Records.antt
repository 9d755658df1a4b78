-- ===== src/View/Records.antt =====
-- What Add and Remove do to the claims: the set that the arbitration stands on.
use scrinium.Base.{
  ℕ, Text, Bool, true, false, Option, none, some, List, ◌≡◌, ◌↔◌, ◌⊎◌, inl, inr, refl, sym, ap,
  subst, ◌∙◌, arith, lookup, text_eq, text_eq_iff, Option-cases, Bool-cases,
}
use scrinium.View.Nodes.{Manifest}
use scrinium.View.Placement.{ViewDef, declared, passes_filter}
use scrinium.View.Ops.{ArtifactRecord, Root, View}
use scrinium.View.Ops.Indexing.{Placing, place_all, index_artifact}
use scrinium.View.Ops.Mutators.{add_new, add, dropped, remove, remove_artifact_from_trees}
use scrinium.View.Roots.{placed_path}
use scrinium.View.Roots.Landing.{Landed, place_all-Landed}
use scrinium.View.Arbitration.{Claims, IsOnly, Sound, grown, still_there, there}
use scrinium.View.Changes.{start, placed, nothing}
use scrinium.View.Changes.Removals.{kept, keeps}

Landed-path :
    (now : ℕ) (arts : List (Text × ArtifactRecord)) (m : Manifest) (dir : Bool) (r : Text)
    (s : Root) (path : Option Text) (w : Placing)
    → Landed now arts m dir r s path w
    → lookup r w.paths ≡ path
Landed-path now arts m dir r s none w h = h.1
Landed-path now arts m dir r s (some p) w h = h.2

module _ (d : ViewDef) (v : View) (sound : Sound d.root v) (m : Manifest) (p : Text)
    (k : Manifest) where
  abbrev new_record : ArtifactRecord
  new_record = record { manifest = m; paths = (placed v m).paths }

  placed_at : IsOnly d v.defs → lookup d.root new_record.paths ≡ placed_path v.fallback d m
  placed_at only =
      Landed-path v.created_at v.artifacts m (declared d m) d.root sound.state
        (placed_path v.fallback d m) (placed v m)
        (subst
          (λ ds.
            Landed v.created_at v.artifacts m (declared d m) d.root sound.state
              (placed_path v.fallback d m)
              (place_all v.created_at v.fallback v.artifacts m ds (start v)))
          (sym only.split)
          (place_all-Landed v.created_at v.fallback v.artifacts m only.before only.after d
            sound.state (start v) only.collides only.not_orphans only.others_before
            only.others_after sound.at (nothing d.root) tt))

  index-Claims :
      IsOnly d v.defs
      → lookup m.artifact_id v.artifacts ≡ none
      → Claims d.root (index_artifact m v).0 p k
        ↔ (Claims d.root v p k ⊎ ((k ≡ m) × (placed_path v.fallback d m ≡ some p)))
  unfolding index_artifact
  index-Claims only fresh = (
    λ (rec, found, same, at).
        elim (grown v.artifacts m new_record fresh refl k.artifact_id rec found) [
          | inr f ↦ inl (rec, f, same, at)
          | inl (_, f) ↦ inr (
            sym same ∙ sym (ap (λ (x : ArtifactRecord). x.manifest) f),
            sym (placed_at only) ∙ ap (λ (x : ArtifactRecord). lookup d.root x.paths) f ∙ at,
          )
        ],
    λ c. elim c [
      | inl (rec, found, same, at) ↦
          (rec, still_there v.artifacts m new_record fresh refl k.artifact_id rec found, same, at)
      | inr (same, path) ↦
          subst (Claims d.root (index_artifact m v).0 p) (sym same)
            (new_record, there v.artifacts m new_record fresh refl, refl, placed_at only ∙ path)
    ],
  )

removed-Claims :
    (r id : Text) (rec : ArtifactRecord) (v : View) (p : Text) (k : Manifest)
    → Claims r (remove_artifact_from_trees id rec v) p k
      ↔ (Claims r v p k × (text_eq k.artifact_id id ≡ false))
unfolding remove_artifact_from_trees
removed-Claims r id rec v p k = (
  λ (rec', f, same, at).
      let (g, e) = kept v.artifacts id k.artifact_id rec' f in ((rec', g, same, at), e),
  λ ((rec', f, same, at), e). (rec', keeps v.artifacts id k.artifact_id rec' f e, same, at),
)

added :
    (m : Manifest) (v : View)
    → v.closed ≡ false
    → passes_filter v.filter v.fallback v.defs m ≡ true
    → lookup m.artifact_id v.artifacts ≡ none
    → (add m v).1 ≡ (index_artifact m v).0
unfolding add add_new
added m v live passes fresh = ground (arith, live, passes, fresh)

-- For a root that exactly one definition has, where artifacts collide, and which is not the root of the
-- orphans: Add of an artifact that passes the filter and is not known yet adds exactly its own claim, at
-- the path that the definition or the fallback gives it, where there is one; every other claim of the
-- root is as it was. The view is open and the books of the root agree with the records.
pub add-Claims :
    (d : ViewDef) (v : View) (m : Manifest) (p : Text) (k : Manifest)
    → Sound d.root v
    → IsOnly d v.defs
    → v.closed ≡ false
    → passes_filter v.filter v.fallback v.defs m ≡ true
    → lookup m.artifact_id v.artifacts ≡ none
    → Claims d.root (add m v).1 p k
      ↔ (Claims d.root v p k ⊎ ((k ≡ m) × (placed_path v.fallback d m ≡ some p)))
add-Claims d v m p k sound only live passes fresh =
    subst
      (λ (x : View).
        Claims d.root x p k
        ↔ (Claims d.root v p k ⊎ ((k ≡ m) × (placed_path v.fallback d m ≡ some p))))
      (sym (added m v live passes fresh)) (index-Claims d v sound m p k only fresh)

removed : (id : Text) (v : View) → v.closed ≡ false → (remove id v).1 ≡ dropped id v
unfolding remove
removed id v live = ground (arith, live)

absent_id :
    (id : Text) (k : Manifest) (arts : List (Text × ArtifactRecord)) (rec : ArtifactRecord)
    → lookup id arts ≡ none
    → lookup k.artifact_id arts ≡ some rec
    → text_eq k.artifact_id id ≡ false
absent_id id k arts rec e f = elim (Bool-cases (text_eq k.artifact_id id)) [
  | inr x ↦ x
  | inl x ↦ absurd (ground (arith, e, f, x, text_eq_iff k.artifact_id id))
]

dropped-Claims :
    (r id : Text) (v : View) (p : Text) (k : Manifest)
    → Claims r (dropped id v) p k ↔ (Claims r v p k × (text_eq k.artifact_id id ≡ false))
unfolding dropped
dropped-Claims r id v p k = elim (Option-cases (lookup id v.artifacts)) [
  | inr (rec, e) ↦ rw (e, dropped) (removed-Claims r id rec v p k)
  | inl e ↦
      rw (e, dropped)
        (λ (rec, f, same, at). ((rec, f, same, at), absent_id id k v.artifacts rec e f), λ c. c.0)
]

-- Remove takes away exactly the claims of the artifact: every other claim is as it was. The view is
-- open.
pub remove-Claims :
    (r id : Text) (v : View) (p : Text) (k : Manifest)
    → v.closed ≡ false
    → Claims r (remove id v).1 p k ↔ (Claims r v p k × (text_eq k.artifact_id id ≡ false))
remove-Claims r id v p k live =
    subst (λ (x : View). Claims r x p k ↔ (Claims r v p k × (text_eq k.artifact_id id ≡ false)))
      (sym (removed id v live)) (dropped-Claims r id v p k)
