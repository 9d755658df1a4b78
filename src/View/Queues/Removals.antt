-- ===== src/View/Queues/Removals.antt =====
-- The removal of an artifact at one root, from the queue of its path.
use scrinium.Base.{
  ℕ, Text, false, none, some, List, [], ◌∷◌, ◌≡◌, inl, inr, refl, ap, ◌∙◌, All, if◌then◌else◌,
  lookup, set, erase, lookup-set, lookup-erase, text_eq, text_eq_refl, Bool-cases, Option-cases,
}
use scrinium.View.Nodes.{Manifest, Tree, artifact_facet_from, insert_file, detach_artifact}
use scrinium.View.Shown.{shown, shown-insert, shown-remove, shown-detach}
use scrinium.View.Ops.{
  ArtifactRecord, LoserEntry, Root, losers_at, put_losers, drop_loser, remove_loser,
}
use scrinium.View.Ops.Mutators.{released, promote, remove_from_collision_tree}
use scrinium.View.Freshness.{entries}
use scrinium.View.Freshness.Dropping.{drop_claim, drop_loser-entries}
use scrinium.View.Queues.{
  Queue, Alike, Alike-refl, Alike-trans, Recorded, losers-put, put-owner, put-tree,
}

shown-released :
    (p q : Text) (t : Tree) → shown q (released p t) ≡ (if text_eq p q then none else shown q t)
unfolding released
shown-released p q t = elim (Option-cases (detach_artifact p t)) [
  | inl e ↦ rw (e, released) (shown-remove p q t)
  | inr (t', e) ↦ rw (e, released) (shown-detach p q t t' e)
]

shown-insert_file :
    (now : ℕ) (p q : Text) (m : Manifest) (t : Tree)
    → shown q (insert_file now p m t)
      ≡ (if text_eq p q then some (artifact_facet_from m) else shown q t)
unfolding insert_file
shown-insert_file now p q m t = shown-insert now m false p q t

-- The root after its owner of the path is gone.
abbrev orphaned_path : Text → Root → Root
orphaned_path p s = record s { tree = released p s.tree; owner = erase p s.owner }

-- The books of losers do not depend on the owner and the tree.
put_then :
    (p : Text) (t : List Manifest) (k : Manifest) (s : Root) (now : ℕ)
    → losers_at p s ≡ entries t
    → losers_at p
        (record s { owner = set p k.artifact_id s.owner; tree = insert_file now p k s.tree })
      ≡ entries t
unfolding losers_at
put_then p t k s now h = h

promote-Queue :
    (now : ℕ) (artifacts : List (Text × ArtifactRecord)) (p : Text) (t : List Manifest) (s : Root)
    → lookup p s.owner ≡ none
    → shown p s.tree ≡ none
    → losers_at p s ≡ entries t
    → All (Recorded artifacts) t
    → Queue p (promote now artifacts p (entries t) s) t
unfolding promote
promote-Queue now artifacts p [] s o w l r = (o, l, w)
promote-Queue now artifacts p (k ∷ t) s o w l r =
    let (rec, found, same) = r.0 in
    let s' : Root = put_losers p (entries t) s in
    rw (found, promote, same)
      (
        rw (lookup-set p p k.artifact_id s'.owner, text_eq_refl p) refl,
        put_then p t k s' now (rw (losers-put p p (entries t) s, text_eq_refl p) refl),
        rw (shown-insert_file now p p k s'.tree, text_eq_refl p) refl,
      )

loser_gone :
    (p id : Text) (h : Manifest) (t : List Manifest) (s : Root)
    → Queue p s (h ∷ t)
    → Queue p (remove_loser p id s) (h ∷ drop_claim id t)
unfolding remove_loser
loser_gone p id h t s q =
    let ls : List LoserEntry = drop_loser id (losers_at p s) in
    (
      ap (lookup p) (put-owner p ls s) ∙ q.0,
      rw (losers-put p p ls s, text_eq_refl p) refl
          ∙ ap (drop_loser id) q.1
          ∙ drop_loser-entries id t,
      ap (shown p) (put-tree p ls s) ∙ q.2,
    )

none_gone : (p id : Text) (s : Root) → Queue p s [] → Queue p (remove_loser p id s) []
unfolding remove_loser drop_loser
none_gone p id s q =
    let ls : List LoserEntry = drop_loser id (losers_at p s) in
    (
      ap (lookup p) (put-owner p ls s) ∙ q.0,
      rw (losers-put p p ls s, text_eq_refl p) refl ∙ ap (drop_loser id) q.1,
      ap (shown p) (put-tree p ls s) ∙ q.2,
    )

orphaned_losers : (p : Text) (s : Root) → losers_at p (orphaned_path p s) ≡ losers_at p s
unfolding losers_at
orphaned_losers p s = refl

-- A removal takes the artifact out of the queue of its path, wherever it stands in it.
pub remove-Queue :
    (now : ℕ) (artifacts : List (Text × ArtifactRecord)) (id p : Text) (s : Root)
    (ms : List Manifest)
    → Queue p s ms
    → All (Recorded artifacts) ms
    → Queue p (remove_from_collision_tree now artifacts id p s) (drop_claim id ms)
unfolding remove_from_collision_tree drop_claim
remove-Queue now artifacts id p s [] q r = rw (q.0, remove_from_collision_tree) (none_gone p id s q)
remove-Queue now artifacts id p s (h ∷ t) q r = elim (Bool-cases (text_eq h.artifact_id id)) [
  | inr e ↦ rw (q.0, remove_from_collision_tree, e) (loser_gone p id h t s q)
  | inl e ↦
      rw (q.0, remove_from_collision_tree, e, q.1)
        (promote-Queue now artifacts p t (orphaned_path p s)
          (rw (lookup-erase p p s.owner, text_eq_refl p) refl)
          (rw (shown-released p p s.tree, text_eq_refl p) refl) (orphaned_losers p s ∙ q.1) r.1)
]

put-Alike :
    (p q : Text) (ls : List LoserEntry) (s : Root)
    → text_eq p q ≡ false
    → Alike q s (put_losers p ls s)
put-Alike p q ls s e = record {
  owner = ap (lookup q) (put-owner p ls s);
  losers = rw (losers-put p q ls s, e) refl;
  tree = ap (shown q) (put-tree p ls s);
}

promote-Alike :
    (now : ℕ) (artifacts : List (Text × ArtifactRecord)) (p q : Text) (ls : List LoserEntry)
    (s : Root)
    → text_eq p q ≡ false
    → Alike q s (promote now artifacts p ls s)
unfolding promote losers_at
promote-Alike now artifacts p q [] s e = Alike-refl q s
promote-Alike now artifacts p q (l ∷ ls) s e =
    let s' : Root = put_losers p ls s in
    let a = put-Alike p q ls s e in
    elim (Option-cases (lookup l.id artifacts)) [
      | inl f ↦ rw (f, promote) a
      | inr (rec, f) ↦
          rw (f, promote)
            (Alike-trans q s s' _ a (record {
              owner = rw (lookup-set p q l.id s'.owner, e) refl;
              losers = refl;
              tree = rw (shown-insert_file now p q rec.manifest s'.tree, e) refl;
            }))
    ]

pub remove-Alike :
    (now : ℕ) (artifacts : List (Text × ArtifactRecord)) (id p q : Text) (s : Root)
    → text_eq p q ≡ false
    → Alike q s (remove_from_collision_tree now artifacts id p s)
unfolding remove_from_collision_tree remove_loser losers_at
remove-Alike now artifacts id p q s e =
    let loser = put-Alike p q (drop_loser id (losers_at p s)) s e in
    elim (Option-cases (lookup p s.owner)) [
      | inl o ↦ rw (o, remove_from_collision_tree) loser
      | inr (current, o) ↦ (elim (Bool-cases (text_eq current id)) [
        | inr f ↦ rw (o, remove_from_collision_tree, f) loser
        | inl f ↦
            rw (o, remove_from_collision_tree, f)
              (Alike-trans q s (orphaned_path p s) _
                (record {
                  owner = rw (lookup-erase p q s.owner, e) refl;
                  losers = refl;
                  tree = rw (shown-released p q s.tree, e) refl;
                })
                (promote-Alike now artifacts p q (losers_at p s) (orphaned_path p s) e))
      ])
    ]

put-collide : (p : Text) (ls : List LoserEntry) (s : Root) → (put_losers p ls s).collide ≡ s.collide
unfolding put_losers
put-collide p [] s = refl
put-collide p (l ∷ ls) s = refl

promote-collide :
    (now : ℕ) (artifacts : List (Text × ArtifactRecord)) (p : Text) (ls : List LoserEntry)
    (s : Root)
    → (promote now artifacts p ls s).collide ≡ s.collide
unfolding promote
promote-collide now artifacts p [] s = refl
promote-collide now artifacts p (l ∷ ls) s = elim (Option-cases (lookup l.id artifacts)) [
  | inl f ↦ rw (f, promote) (put-collide p ls s)
  | inr (rec, f) ↦ rw (f, promote) (put-collide p ls s)
]

pub remove-collide :
    (now : ℕ) (artifacts : List (Text × ArtifactRecord)) (id p : Text) (s : Root)
    → (remove_from_collision_tree now artifacts id p s).collide ≡ s.collide
unfolding remove_from_collision_tree remove_loser
remove-collide now artifacts id p s = elim (Option-cases (lookup p s.owner)) [
  | inl o ↦ rw (o, remove_from_collision_tree) (put-collide p _ s)
  | inr (current, o) ↦ (elim (Bool-cases (text_eq current id)) [
    | inr f ↦ rw (o, remove_from_collision_tree, f) (put-collide p _ s)
    | inl f ↦
        rw (o, remove_from_collision_tree, f)
          (promote-collide now artifacts p _ (orphaned_path p s))
  ])
]
