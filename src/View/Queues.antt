-- ===== src/View/Queues.antt =====
-- The arbitration at one root: the books and the tree hold, for each path, one queue of claimants.
pub mod Removals
use scrinium.Base.{
  ℕ, Text, Bool, false, none, some, List, [], ◌∷◌, ◌≡◌, inl, inr, refl, ap, ◌∙◌, All, if◌then◌else◌,
  lookup, lookup-set, lookup-erase, text_eq, text_eq_refl, Bool-cases, Option-cases,
}
use scrinium.View.Nodes.{Manifest, artifact_facet_from}
use scrinium.View.Shown.{shown, shown-insert}
use scrinium.View.Ops.{
  ArtifactRecord, LoserEntry, Root, entry_of, losers_at, insert_loser, push_loser, put_losers,
  claim, is_fresher_winner, apply_collision_insert,
}
use scrinium.View.Freshness.{Apart, Descends, entries, insert_fresh, insert_loser-entries, demoted}

-- The owner, the losers and the tree hold the queue `ms` at the path: its first claimant is shown.
abbrev pub Queue : Text → Root → List Manifest → Type 0
Queue p s [] = (lookup p s.owner ≡ none) × (losers_at p s ≡ []) × (shown p s.tree ≡ none)
Queue p s (m ∷ ms) =
    (lookup p s.owner ≡ some m.artifact_id)
    × (losers_at p s ≡ entries ms)
    × (shown p s.tree ≡ some (artifact_facet_from m))

-- A path that the change from `s` to `s'` leaves alone.
pub record Alike (p : Text) (s s' : Root) : Type 0 where
  pub owner : lookup p s'.owner ≡ lookup p s.owner
  pub losers : losers_at p s' ≡ losers_at p s
  pub tree : shown p s'.tree ≡ shown p s.tree

pub Queue-Alike :
    (p : Text) (s s' : Root) (ms : List Manifest) → Alike p s s' → Queue p s ms → Queue p s' ms
Queue-Alike p s s' [] a q = (a.owner ∙ q.0, a.losers ∙ q.1, a.tree ∙ q.2)
Queue-Alike p s s' (m ∷ ms) a q = (a.owner ∙ q.0, a.losers ∙ q.1, a.tree ∙ q.2)

pub Alike-refl : (p : Text) (s : Root) → Alike p s s
Alike-refl p s = record { owner = refl; losers = refl; tree = refl }

pub Alike-trans : (p : Text) (s s' s'' : Root) → Alike p s s' → Alike p s' s'' → Alike p s s''
Alike-trans p s s' s'' a b = record {
  owner = b.owner ∙ a.owner;
  losers = b.losers ∙ a.losers;
  tree = b.tree ∙ a.tree;
}

-- The artifact has a record.
abbrev pub Recorded : List (Text × ArtifactRecord) → Manifest → Type 0
Recorded artifacts m =
    (rec : ArtifactRecord) × (lookup m.artifact_id artifacts ≡ some rec) × (rec.manifest ≡ m)

losers-push :
    (p q : Text) (m : Manifest) (s : Root)
    → losers_at q (push_loser p m s)
      ≡ (if text_eq p q then insert_loser (entry_of m) (losers_at p s) else losers_at q s)
unfolding losers_at push_loser
losers-push p q m s = elim (Bool-cases (text_eq p q)) [
  | inl e ↦
      rw (lookup-set p q (insert_loser (entry_of m) (losers_at p s)) s.losers, losers_at, e) refl
  | inr e ↦
      rw (lookup-set p q (insert_loser (entry_of m) (losers_at p s)) s.losers, losers_at, e) refl
]

losers-push_self :
    (p : Text) (m : Manifest) (s : Root)
    → losers_at p (push_loser p m s) ≡ insert_loser (entry_of m) (losers_at p s)
losers-push_self p m s = rw (losers-push p p m s, text_eq_refl p) refl

pub losers-put :
    (p q : Text) (ls : List LoserEntry) (s : Root)
    → losers_at q (put_losers p ls s) ≡ (if text_eq p q then ls else losers_at q s)
unfolding losers_at put_losers
losers-put p q [] s = elim (Bool-cases (text_eq p q)) [
  | inl e ↦ rw (lookup-erase p q s.losers, losers_at, e) refl
  | inr e ↦ rw (lookup-erase p q s.losers, losers_at, e) refl
]
losers-put p q (l ∷ ls) s = elim (Bool-cases (text_eq p q)) [
  | inl e ↦ rw (lookup-set p q (l ∷ ls) s.losers, losers_at, e) refl
  | inr e ↦ rw (lookup-set p q (l ∷ ls) s.losers, losers_at, e) refl
]

pub put-owner : (p : Text) (ls : List LoserEntry) (s : Root) → (put_losers p ls s).owner ≡ s.owner
unfolding put_losers
put-owner p [] s = refl
put-owner p (l ∷ ls) s = refl

pub put-tree : (p : Text) (ls : List LoserEntry) (s : Root) → (put_losers p ls s).tree ≡ s.tree
unfolding put_losers
put-tree p [] s = refl
put-tree p (l ∷ ls) s = refl

claim-Alike :
    (now : ℕ) (p q : Text) (m : Manifest) (dir : Bool) (s : Root)
    → text_eq p q ≡ false
    → Alike q s (claim now p m dir s)
unfolding claim losers_at
claim-Alike now p q m dir s e = record {
  owner = rw (lookup-set p q m.artifact_id s.owner, e) refl;
  losers = refl;
  tree = rw (shown-insert now m dir p q s.tree, e) refl;
}

push-Alike :
    (p q : Text) (m : Manifest) (s : Root) → text_eq p q ≡ false → Alike q s (push_loser p m s)
unfolding push_loser
push-Alike p q m s e = record {
  owner = refl;
  losers = rw (losers-push p q m s, e) refl;
  tree = refl;
}

-- What a claim makes of its own path.
claimed :
    (now : ℕ) (p : Text) (m : Manifest) (dir : Bool) (s : Root)
    → (lookup p (claim now p m dir s).owner ≡ some m.artifact_id)
      × (shown p (claim now p m dir s).tree ≡ some (artifact_facet_from m))
      × (losers_at p (claim now p m dir s) ≡ losers_at p s)
unfolding claim losers_at
claimed now p m dir s = (
  rw (lookup-set p p m.artifact_id s.owner, text_eq_refl p) refl,
  rw (shown-insert now m dir p p s.tree, text_eq_refl p) refl,
  refl,
)

-- An insertion puts the newcomer into the queue of its path by freshness.
pub insert-Queue :
    (now : ℕ) (artifacts : List (Text × ArtifactRecord)) (p : Text) (m : Manifest) (dir : Bool)
    (s : Root) (ms : List Manifest)
    → Queue p s ms
    → Descends ms
    → All (Recorded artifacts) ms
    → All (Apart m) ms
    → Queue p (apply_collision_insert now artifacts p m dir s).0 (insert_fresh m ms)
unfolding apply_collision_insert insert_fresh push_loser claim
insert-Queue now artifacts p m dir s [] q d r a =
    let c = claimed now p m dir s in rw (q.0, apply_collision_insert) (c.0, c.2 ∙ q.1, c.1)
insert-Queue now artifacts p m dir s (h ∷ t) q d r a =
    let (rec, found, same) = r.0 in
    let c = claimed now p m dir s in
    elim (Bool-cases (is_fresher_winner m h)) [
      | inl e ↦
          rw (q.0, apply_collision_insert, found, same, e)
            (
              c.0,
              losers-push_self p h (claim now p m dir s)
                  ∙ ap (insert_loser (entry_of h)) (c.2 ∙ q.1)
                  ∙ demoted h t d.0,
              c.1,
            )
      | inr e ↦
          rw (q.0, apply_collision_insert, found, same, e)
            (
              q.0,
              losers-push_self p m s
                  ∙ ap (insert_loser (entry_of m)) q.1
                  ∙ insert_loser-entries m t a.1,
              q.2,
            )
    ]

-- And it leaves the other paths alone.
pub insert-Alike :
    (now : ℕ) (artifacts : List (Text × ArtifactRecord)) (p q : Text) (m : Manifest) (dir : Bool)
    (s : Root)
    → text_eq p q ≡ false
    → Alike q s (apply_collision_insert now artifacts p m dir s).0
unfolding apply_collision_insert
insert-Alike now artifacts p q m dir s e =
    let c = claim-Alike now p q m dir s e in
    elim (Option-cases (lookup p s.owner)) [
      | inl o ↦ rw (o, apply_collision_insert) c
      | inr (current, o) ↦ (elim (Option-cases (lookup current artifacts)) [
        | inl f ↦ rw (o, apply_collision_insert, f) c
        | inr (rec, f) ↦ (elim (Bool-cases (is_fresher_winner m rec.manifest)) [
          | inl w ↦
              rw (o, apply_collision_insert, f, w)
                (Alike-trans q s (claim now p m dir s) _ c
                  (push-Alike p q rec.manifest (claim now p m dir s) e))
          | inr w ↦ rw (o, apply_collision_insert, f, w) (push-Alike p q m s e)
        ])
      ])
    ]

pub insert-collide :
    (now : ℕ) (artifacts : List (Text × ArtifactRecord)) (p : Text) (m : Manifest) (dir : Bool)
    (s : Root)
    → (apply_collision_insert now artifacts p m dir s).0.collide ≡ s.collide
unfolding apply_collision_insert claim push_loser
insert-collide now artifacts p m dir s = elim (Option-cases (lookup p s.owner)) [
  | inl o ↦ rw (o, apply_collision_insert) refl
  | inr (current, o) ↦ (elim (Option-cases (lookup current artifacts)) [
    | inl f ↦ rw (o, apply_collision_insert, f) refl
    | inr (rec, f) ↦ (elim (Bool-cases (is_fresher_winner m rec.manifest)) [
      | inl w ↦ rw (o, apply_collision_insert, f, w) refl
      | inr w ↦ rw (o, apply_collision_insert, f, w) refl
    ])
  ])
]
