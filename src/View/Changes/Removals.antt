-- ===== src/View/Changes/Removals.antt =====
-- removeArtifactFromTrees keeps the invariant.
use scrinium.Base.{
  ℕ, Text, true, false, Option, none, some, List, ◌≡◌, inl, inr, refl, sym, ap, subst, ◌∙◌, arith,
  if◌then◌else◌, lookup, erase, lookup-erase, text_eq, text_eq_sound, text_eq_iff, Bool-cases,
}
use scrinium.View.Nodes.{Manifest, remove_file}
use scrinium.View.Placement.{ViewDef}
use scrinium.View.Ops.{ArtifactRecord, Root, View}
use scrinium.View.Ops.Mutators.{
  remove_at, remove_all, remove_from_collision_tree, remove_artifact_from_trees,
}
use scrinium.View.Freshness.{Descends, In}
use scrinium.View.Freshness.Dropping.{
  drop_claim, drop_claim-Descends, drop_claim-Apart, drop_claim-kept,
}
use scrinium.View.Queues.{Queue, Queue-Alike}
use scrinium.View.Queues.Removals.{remove-Queue, remove-Alike, remove-collide}
use scrinium.View.Roots.Landing.{remove_all_at}
use scrinium.View.Arbitration.{Claims, Sound, recorded, apart}

-- The records after one is erased.
module _ (arts : List (Text × ArtifactRecord)) (id : Text) where
  pub kept :
      (k : Text) (rec : ArtifactRecord)
      → lookup k (erase id arts) ≡ some rec
      → (lookup k arts ≡ some rec) × (text_eq k id ≡ false)
  kept k rec h = elim (Bool-cases (text_eq id k)) [
    | inl e ↦ absurd (ground (arith, h, lookup-erase id k arts, e))
    | inr e ↦ (
      ground (arith, h, lookup-erase id k arts, e),
      ground (arith, e, text_eq_iff id k, text_eq_iff k id, Bool-cases (text_eq k id)),
    )
  ]

  pub keeps :
      (k : Text) (rec : ArtifactRecord)
      → lookup k arts ≡ some rec
      → text_eq k id ≡ false
      → lookup k (erase id arts) ≡ some rec
  keeps k rec h e = ground (
    arith,
    h,
    lookup-erase id k arts,
    e,
    text_eq_iff id k,
    text_eq_iff k id,
    Bool-cases (text_eq id k),
  )

abbrev queue_without : Text → Option Text → (Text → List Manifest) → Text → List Manifest
queue_without id none queue q = queue q
queue_without id (some p) queue q = if text_eq p q then drop_claim id (queue q) else queue q

abbrev Leaves : ℕ → List (Text × ArtifactRecord) → Text → Option Text → Root → Root
Leaves now arts id none s = s
Leaves now arts id (some p) s = remove_at now arts id p s

claim_id :
    (r id : Text) (v : View) (rec : ArtifactRecord) (q : Text) (k : Manifest)
    → lookup id v.artifacts ≡ some rec
    → text_eq k.artifact_id id ≡ true
    → Claims r v q k
    → (k ≡ rec.manifest) × (lookup r rec.paths ≡ some q)
claim_id r id v rec q k found e (rec', f, same, at) =
    let it : rec' ≡ rec =
      ground (arith, found, f, ap (λ x. lookup x v.artifacts) (text_eq_sound k.artifact_id id e)) in
    (
      sym same ∙ ap (λ (x : ArtifactRecord). x.manifest) it,
      subst (λ (x : ArtifactRecord). lookup r x.paths ≡ some q) it at,
    )

module _ (d : ViewDef) (v : View) (h : Sound d.root v) (id : Text) (rec : ArtifactRecord)
    (found : lookup id v.artifacts ≡ some rec) where
  abbrev left : Option Text → Root
  left path = Leaves v.created_at v.artifacts id path h.state

  as_collision :
      (p : Text)
      → remove_at v.created_at v.artifacts id p h.state
        ≡ remove_from_collision_tree v.created_at v.artifacts id p h.state
  unfolding remove_at
  as_collision p =
      ap
        (λ b.
          if b
          then remove_from_collision_tree v.created_at v.artifacts id p h.state
          else record h.state { tree = remove_file p h.state.tree })
        h.collides

  left-collide : (path : Option Text) → (left path).collide ≡ true
  left-collide none = h.collides
  left-collide (some p) =
      ap (λ (s : Root). s.collide) (as_collision p)
      ∙ remove-collide v.created_at v.artifacts id p h.state
      ∙ h.collides

  queued_without :
      (path : Option Text) (q : Text) → Queue q (left path) (queue_without id path h.queue q)
  queued_without none q = h.queued q
  queued_without (some p) q =
      subst (λ s. Queue q s (queue_without id (some p) h.queue q)) (sym (as_collision p))
        (elim (Bool-cases (text_eq p q)) [
          | inl e ↦ rw e (
              subst
                (λ x.
                  Queue x (remove_from_collision_tree v.created_at v.artifacts id p h.state)
                    (drop_claim id (h.queue x)))
                (text_eq_sound p q e)
                (remove-Queue v.created_at v.artifacts id p h.state (h.queue p) (h.queued p)
                  (recorded d.root v h p)))
          | inr e ↦ rw e (
              Queue-Alike q h.state _ (h.queue q)
                (remove-Alike v.created_at v.artifacts id p q h.state e) (h.queued q))
        ])

  Descends-without : (path : Option Text) (q : Text) → Descends (queue_without id path h.queue q)
  Descends-without none q = h.descends q
  Descends-without (some p) q = elim (Bool-cases (text_eq p q)) [
    | inl e ↦ rw e (drop_claim-Descends id (h.queue q) (h.descends q))
    | inr e ↦ rw e (h.descends q)
  ]

  -- The view without the record.
  abbrev shrunk : View → List (Text × Root) → View
  shrunk v' roots' = record v' { roots = roots'; artifacts = erase id v.artifacts }

  lives :
      (v' : View) (roots' : List (Text × Root)) (q : Text) (k : Manifest)
      → text_eq k.artifact_id id ≡ false
      → Claims d.root v q k
      → Claims d.root (shrunk v' roots') q k
  lives v' roots' q k e (rec', f, same, at) =
      (rec', keeps v.artifacts id k.artifact_id rec' f e, same, at)

  -- A claimant at a path that is not the removed artifact's is another artifact.
  elsewhere :
      (path : Option Text) (q : Text) (k : Manifest)
      → lookup d.root rec.paths ≡ path
      → (path ≡ some q → ⊥)
      → In k (h.queue q)
      → text_eq k.artifact_id id ≡ false
  elsewhere path q k at n i = elim (Bool-cases (text_eq k.artifact_id id)) [
    | inr e ↦ e
    | inl e ↦ absurd (n (sym at ∙ (claim_id d.root id v rec q k found e (h.has_record q k i)).1))
  ]

  has_record_without :
      (v' : View) (roots' : List (Text × Root)) (path : Option Text) (q : Text) (k : Manifest)
      → lookup d.root rec.paths ≡ path
      → In k (queue_without id path h.queue q)
      → Claims d.root (shrunk v' roots') q k
  has_record_without v' roots' none q k at i =
      lives v' roots' q k (elsewhere none q k at (λ x. ground (arith, x)) i) (h.has_record q k i)
  has_record_without v' roots' (some p) q k at i = elim (Bool-cases (text_eq p q)) [
    | inr e ↦
        let j : In k (h.queue q) = rw e at i in
        lives v' roots' q k
          (elsewhere (some p) q k at (λ x. ground (arith, x, e, text_eq_iff p q)) j)
          (h.has_record q k j)
    | inl e ↦
        let (j, f) =
          drop_claim-Apart id rec.manifest (h.queue q) (h.descends q)
            (λ a x y. (claim_id d.root id v rec q a found y (h.has_record q a x)).0) k
            (rw e at i) in
        lives v' roots' q k f (h.has_record q k j)
  ]

  complete_without :
      (v' : View) (roots' : List (Text × Root)) (path : Option Text) (q : Text) (k : Manifest)
      → Claims d.root (shrunk v' roots') q k
      → In k (queue_without id path h.queue q)
  complete_without v' roots' none q k (rec', f, same, at) =
      h.complete q k (rec', (kept v.artifacts id k.artifact_id rec' f).0, same, at)
  complete_without v' roots' (some p) q k (rec', f, same, at) =
      let (g, apart) = kept v.artifacts id k.artifact_id rec' f in
      let old = h.complete q k (rec', g, same, at) in
      elim (Bool-cases (text_eq p q)) [
        | inl e ↦ rw e (drop_claim-kept id (h.queue q) k old apart)
        | inr e ↦ rw e old
      ]

  shrink-Sound :
      (v' : View) (roots' : List (Text × Root)) (path : Option Text)
      → lookup d.root rec.paths ≡ path
      → lookup d.root roots' ≡ some (left path)
      → Sound d.root (shrunk v' roots')
  shrink-Sound v' roots' path at r = record {
    state = left path;
    at = r;
    collides = left-collide path;
    queue = queue_without id path h.queue;
    queued = λ q. queued_without path q;
    descends = λ q. Descends-without path q;
    has_record = λ q k i. has_record_without v' roots' path q k at i;
    complete = λ q k c. complete_without v' roots' path q k c;
    keyed = λ k rec' f. h.keyed k rec' (kept v.artifacts id k rec' f).0;
    below = λ k p rec' f. h.below k p rec' (kept v.artifacts id k rec' f).0;
    once = λ k rec' f. h.once k rec' (kept v.artifacts id k rec' f).0;
  }

  books :
      lookup d.root (remove_all v.created_at v.artifacts id rec.paths v.roots)
      ≡ some (elim (lookup d.root rec.paths) [
        | none ↦ h.state
        | some p ↦ remove_at v.created_at v.artifacts id p h.state
      ])
  books =
      remove_all_at v.created_at v.artifacts id d.root rec.paths v.roots h.state
        (h.once id rec found) h.at (λ p e. h.below id p rec found e)

  removed_books :
      (path : Option Text)
      → lookup d.root rec.paths ≡ path
      → lookup d.root (remove_all v.created_at v.artifacts id rec.paths v.roots) ≡ some (left path)
  removed_books none at = books ∙ rw at refl
  removed_books (some p) at = books ∙ rw at refl

  pub removal-Sound : Sound d.root (remove_artifact_from_trees id rec v)
  unfolding remove_artifact_from_trees
  removal-Sound =
      shrink-Sound (remove_artifact_from_trees id rec v)
        (remove_all v.created_at v.artifacts id rec.paths v.roots) (lookup d.root rec.paths) refl
        (removed_books (lookup d.root rec.paths) refl)
