-- ===== src/View/Arbitration.antt =====
-- The invariant of a collidable root: its books and its tree agree with the records of the artifacts.
use scrinium.Base.{
  Text, true, false, Option, none, some, List, [], ◌∷◌, ◌++◌, ◌≡◌, ◌⊎◌, inl, inr, refl, sym, ap,
  subst, ◌∙◌, arith, All, if◌then◌else◌, lookup, set, lookup-set, text_eq, text_eq_sound,
  text_eq_refl, text_eq_iff, Bool-cases,
}
use scrinium.View.Nodes.{Manifest}
use scrinium.View.Placement.{ViewDef, by_orphaned}
use scrinium.View.Ops.{ArtifactRecord, Root, View}
use scrinium.View.Freshness.{
  Apart, Descends, In, insert_fresh, insert_fresh-In, insert_fresh-Descends,
}
use scrinium.View.Freshness.Dropping.{All-of}
use scrinium.View.Queues.{Queue, Alike, Queue-Alike, Recorded}
use scrinium.View.Roots.{Once, placed_path}

-- The artifact has a record that places it at the path.
abbrev pub Claims : Text → View → Text → Manifest → Type 0
Claims r v p m =
    (rec : ArtifactRecord) × (lookup m.artifact_id v.artifacts ≡ some rec)
    × (rec.manifest ≡ m)
    × (lookup r rec.paths ≡ some p)

-- Only one definition has the root; it collides, and it never places an artifact at the tree's root.
pub record IsOnly (d : ViewDef) (defs : List ViewDef) : Type 0 where
  pub before : List ViewDef
  pub after : List ViewDef
  pub split : defs ≡ before ++ (d ∷ after)
  pub others_before : All (λ (e : ViewDef). text_eq e.root d.root ≡ false) before
  pub others_after : All (λ (e : ViewDef). text_eq e.root d.root ≡ false) after
  pub not_orphans : text_eq by_orphaned d.root ≡ false
  pub collides : d.collide ≡ true

abbrev pub PlacesBelow : ViewDef → View → Type 0
PlacesBelow d v =
    (m : Manifest) (p : Text) → placed_path v.fallback d m ≡ some p → text_eq p [] ≡ false

pub record Sound (r : Text) (v : View) : Type 0 where
  pub state : Root
  pub at : lookup r v.roots ≡ some state
  pub collides : state.collide ≡ true
  pub queue : Text → List Manifest
  pub queued : (p : Text) → Queue p state (queue p)
  pub descends : (p : Text) → Descends (queue p)
  pub has_record : (p : Text) (m : Manifest) → In m (queue p) → Claims r v p m
  pub complete : (p : Text) (m : Manifest) → Claims r v p m → In m (queue p)
  pub keyed :
      (id : Text) (rec : ArtifactRecord)
      → lookup id v.artifacts ≡ some rec
      → rec.manifest.artifact_id ≡ id
  pub below :
      (id p : Text) (rec : ArtifactRecord)
      → lookup id v.artifacts ≡ some rec
      → lookup r rec.paths ≡ some p
      → text_eq p [] ≡ false
  pub once :
      (id : Text) (rec : ArtifactRecord) → lookup id v.artifacts ≡ some rec → Once r rec.paths

pub recorded :
    (r : Text) (v : View) (h : Sound r v) (p : Text) → All (Recorded v.artifacts) (h.queue p)
recorded r v h p =
    All-of (Recorded v.artifacts) (h.queue p)
      (λ m i. let (rec, found, same, path) = h.has_record p m i in (rec, found, same))

-- A new artifact's identifier is none of those in a queue.
pub apart :
    (r : Text) (v : View) (h : Sound r v) (p : Text) (m : Manifest)
    → lookup m.artifact_id v.artifacts ≡ none
    → All (Apart m) (h.queue p)
apart r v h p m n = All-of (Apart m) (h.queue p) (λ k i.
    let (rec, found, same, path) = h.has_record p k i in
    elim (Bool-cases (text_eq m.artifact_id k.artifact_id)) [
      | inr e ↦ e
      | inl e ↦ absurd (ground (arith, n, found, text_eq_iff m.artifact_id k.artifact_id, e))
    ])

-- The records after one is added under a new identifier.
module _ (arts : List (Text × ArtifactRecord)) (m : Manifest) (new : ArtifactRecord)
    (fresh : lookup m.artifact_id arts ≡ none) (own : new.manifest ≡ m) where
  pub grown :
      (id : Text) (rec : ArtifactRecord)
      → lookup id (set m.artifact_id new arts) ≡ some rec
      → ((id ≡ m.artifact_id) × (new ≡ rec)) ⊎ (lookup id arts ≡ some rec)
  grown id rec h = elim (Bool-cases (text_eq m.artifact_id id)) [
    | inl e ↦ inl (
      sym (text_eq_sound m.artifact_id id e),
      ground (arith, h, lookup-set m.artifact_id id new arts, e),
    )
    | inr e ↦ inr (ground (arith, h, lookup-set m.artifact_id id new arts, e))
  ]

  pub still_there :
      (id : Text) (rec : ArtifactRecord)
      → lookup id arts ≡ some rec
      → lookup id (set m.artifact_id new arts) ≡ some rec
  still_there id rec h = elim (Bool-cases (text_eq m.artifact_id id)) [
    | inl e ↦ absurd (ground (arith, h, fresh, e, text_eq_iff m.artifact_id id))
    | inr e ↦ ground (arith, h, lookup-set m.artifact_id id new arts, e)
  ]

  pub there : lookup m.artifact_id (set m.artifact_id new arts) ≡ some new
  there = rw (lookup-set m.artifact_id m.artifact_id new arts, text_eq_refl m.artifact_id) refl

-- The queue of each path after a claimant has come to the one path, or after one has gone.
abbrev queue_with : Manifest → Option Text → (Text → List Manifest) → Text → List Manifest
queue_with m none queue q = queue q
queue_with m (some p) queue q = if text_eq p q then insert_fresh m (queue q) else queue q

abbrev pub Arrives : Manifest → Option Text → (Text → List Manifest) → Root → Root → Type 0
Arrives m none queue s s' = (q : Text) → Alike q s s'
Arrives m (some p) queue s s' =
    Queue p s' (insert_fresh m (queue p)) × ((q : Text) → text_eq p q ≡ false → Alike q s s')

module _ (r : Text) (v : View) (h : Sound r v) (m : Manifest) (new : ArtifactRecord)
    (fresh : lookup m.artifact_id v.artifacts ≡ none) (own : new.manifest ≡ m)
    (roots' : List (Text × Root)) (s' : Root) where
  -- The view with the new record and the new books of the root.
  abbrev pub grown_view : View → View
  grown_view v' = record v' { roots = roots'; artifacts = set m.artifact_id new v.artifacts }

  queued_with :
      (path : Option Text) (q : Text)
      → Arrives m path h.queue h.state s'
      → Queue q s' (queue_with m path h.queue q)
  queued_with none q a = Queue-Alike q h.state s' (h.queue q) (a q) (h.queued q)
  queued_with (some p) q a = elim (Bool-cases (text_eq p q)) [
    | inl e ↦ rw e (subst (λ x. Queue x s' (insert_fresh m (h.queue x))) (text_eq_sound p q e) a.0)
    | inr e ↦ rw e (Queue-Alike q h.state s' (h.queue q) (a.1 q e) (h.queued q))
  ]

  Descends-with : (path : Option Text) (q : Text) → Descends (queue_with m path h.queue q)
  Descends-with none q = h.descends q
  Descends-with (some p) q = elim (Bool-cases (text_eq p q)) [
    | inl e ↦ rw e (insert_fresh-Descends m (h.queue q) (apart r v h q m fresh) (h.descends q))
    | inr e ↦ rw e (h.descends q)
  ]

  old_claim : (v' : View) (q : Text) (k : Manifest) → Claims r v q k → Claims r (grown_view v') q k
  old_claim v' q k (rec, found, same, path) =
      (rec, still_there v.artifacts m new fresh own k.artifact_id rec found, same, path)

  new_claim : (v' : View) (q : Text) → lookup r new.paths ≡ some q → Claims r (grown_view v') q m
  new_claim v' q e = (new, there v.artifacts m new fresh own, own, e)

  has_record_with :
      (v' : View) (path : Option Text) (q : Text) (k : Manifest)
      → lookup r new.paths ≡ path
      → In k (queue_with m path h.queue q)
      → Claims r (grown_view v') q k
  has_record_with v' none q k e i = old_claim v' q k (h.has_record q k i)
  has_record_with v' (some p) q k e i = elim (Bool-cases (text_eq p q)) [
    | inr f ↦ old_claim v' q k (h.has_record q k (rw f at i))
    | inl f ↦ (elim ((insert_fresh-In m k (h.queue q)).0 (rw f at i)) [
      | inl same ↦
          subst (Claims r (grown_view v') q) (sym same)
            (new_claim v' q (e ∙ ap some (text_eq_sound p q f)))
      | inr j ↦ old_claim v' q k (h.has_record q k j)
    ])
  ]

  complete_with :
      (v' : View) (path : Option Text) (q : Text) (k : Manifest)
      → lookup r new.paths ≡ path
      → Claims r (grown_view v') q k
      → In k (queue_with m path h.queue q)
  complete_with v' none q k e (rec, found, same, at) =
      elim (grown v.artifacts m new fresh own k.artifact_id rec found) [
        | inl (_, f) ↦
            absurd (ground (arith, e, at, ap (λ (x : ArtifactRecord). lookup r x.paths) f))
        | inr f ↦ h.complete q k (rec, f, same, at)
      ]
  complete_with v' (some p) q k e (rec, found, same, at) =
      elim (grown v.artifacts m new fresh own k.artifact_id rec found) [
        | inl (_, f) ↦
            let there : p ≡ q =
              ground (arith, e, at, ap (λ (x : ArtifactRecord). lookup r x.paths) f) in
            let it : k ≡ m = sym same ∙ sym (ap (λ (x : ArtifactRecord). x.manifest) f) ∙ own in
            rw ((text_eq_iff p q).1 there) ((insert_fresh-In m k (h.queue q)).1 (inl it))
        | inr f ↦
            let old = h.complete q k (rec, f, same, at) in
            elim (Bool-cases (text_eq p q)) [
              | inl g ↦ rw g ((insert_fresh-In m k (h.queue q)).1 (inr old))
              | inr g ↦ rw g old
            ]
      ]

  pub grow-Sound :
      (v' : View) (path : Option Text)
      → lookup r roots' ≡ some s'
      → s'.collide ≡ true
      → lookup r new.paths ≡ path
      → ((p : Text) → path ≡ some p → text_eq p [] ≡ false)
      → Once r new.paths
      → Arrives m path h.queue h.state s'
      → Sound r (grown_view v')
  grow-Sound v' path at c e f o a = record {
    state = s';
    at = at;
    collides = c;
    queue = queue_with m path h.queue;
    queued = λ q. queued_with path q a;
    descends = λ q. Descends-with path q;
    has_record = λ q k i. has_record_with v' path q k e i;
    complete = λ q k x. complete_with v' path q k e x;
    keyed = λ id rec x. elim (grown v.artifacts m new fresh own id rec x) [
      | inl (y, z) ↦
          ap (λ (x : ArtifactRecord). x.manifest.artifact_id) (sym z)
          ∙ ap (λ (x : Manifest). x.artifact_id) own
          ∙ sym y
      | inr y ↦ h.keyed id rec y
    ];
    below = λ id p rec x y. elim (grown v.artifacts m new fresh own id rec x) [
      | inl (_, z) ↦ f p (sym e ∙ ap (λ (x : ArtifactRecord). lookup r x.paths) z ∙ y)
      | inr z ↦ h.below id p rec z y
    ];
    once = λ id rec x. elim (grown v.artifacts m new fresh own id rec x) [
      | inl (_, z) ↦ subst (λ (x : ArtifactRecord). Once r x.paths) z o
      | inr z ↦ h.once id rec z
    ];
  }
