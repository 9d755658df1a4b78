-- ===== src/View/History.antt =====
-- A view over its whole life: the backfill, then any mutators in any order.
pub mod Runs
use scrinium.Base.{
  ℕ, Text, Bool, true, false, not, ◌||◌, none, some, List, [], ◌∷◌, ◌++◌, ◌≡◌, ◌⊎◌, inl, inr, refl,
  ap, subst, ◌∙◌, arith, All, if◌then◌else◌, lookup, lookup-set, lookup-erase, text_eq,
  text_eq_refl, Bool-cases, Option-cases,
}
use scrinium.View.Nodes.{Manifest, new_dir_node}
use scrinium.View.Shown.{shown}
use scrinium.View.Placement.{ViewDef, by_orphaned, passes_filter}
use scrinium.View.Ops.{ArtifactRecord, View, losers_at}
use scrinium.View.Ops.Indexing.{index_artifact}
use scrinium.View.Ops.Mutators.{
  init_trees, any_def, collides, empty_root, counts_keys, known, add, remove, move, apply_delta,
  remove_artifact_from_trees,
}
use scrinium.View.Queues.{Queue}
use scrinium.View.Arbitration.{IsOnly, Sound}

-- The view that New begins with.
pub record IsFresh (v : View) : Type 0 where
  pub roots : v.roots ≡ init_trees v.created_at v.defs
  pub artifacts : v.artifacts ≡ []

module _ (now : ℕ) (d : ViewDef) (apart : text_eq by_orphaned d.root ≡ false) where
  no_other :
      (flag : ViewDef → Bool) (ds : List ViewDef)
      → All (λ (e : ViewDef). text_eq e.root d.root ≡ false) ds
      → any_def flag d.root ds ≡ false
  unfolding any_def
  no_other flag [] h = refl
  no_other flag (e ∷ ds) h = rw (h.0, no_other flag ds h.1) refl

  init_books :
      (before after : List ViewDef)
      → All (λ (e : ViewDef). text_eq e.root d.root ≡ false) before
      → All (λ (e : ViewDef). text_eq e.root d.root ≡ false) after
      → lookup d.root (init_trees now (before ++ (d ∷ after)))
        ≡ some (empty_root now d.collide (counts_keys d))
  unfolding init_trees
  init_books [] after h k =
      rw (no_other collides after k, no_other counts_keys after k)
        (lookup-set d.root d.root (empty_root now d.collide (counts_keys d)) (init_trees now after)
          ∙ rw (text_eq_refl d.root) refl)
  init_books (e ∷ before) after h k =
      lookup-set e.root d.root _ (init_trees now (before ++ (d ∷ after)))
      ∙ rw (h.0) (init_books before after h.1 k)

empty-Queue : (now : ℕ) (c n : Bool) (p : Text) → Queue p (empty_root now c n) []
unfolding lookup losers_at shown new_dir_node
empty-Queue now c n p =
    (refl, refl, (elim (Bool-cases (text_eq [] p)) [ inl e ↦ rw e refl | inr e ↦ rw e refl ]))

no_record : (k : Text) (rec : ArtifactRecord) → lookup k [] ≡ some rec → ⊥
unfolding lookup
no_record k rec h = ground (arith, h)

-- The invariant holds of a view without artifacts.
pub fresh-Sound : (d : ViewDef) (v : View) → IsOnly d v.defs → IsFresh v → Sound d.root v
fresh-Sound d v only fresh =
    let none_found : (k : Text) (rec : ArtifactRecord) → lookup k v.artifacts ≡ some rec → ⊥ =
      λ k rec f. no_record k rec (subst (λ xs. lookup k xs ≡ some rec) fresh.artifacts f) in
    record {
      state = empty_root v.created_at d.collide (counts_keys d);
      at =
          ap (lookup d.root) fresh.roots
          ∙ ap (λ ds. lookup d.root (init_trees v.created_at ds)) only.split
          ∙ init_books v.created_at d only.not_orphans only.before only.after only.others_before
              only.others_after;
      collides = only.collides;
      queue = λ p. [];
      queued = λ p. empty-Queue v.created_at d.collide (counts_keys d) p;
      descends = λ p. tt;
      has_record = λ p m i. elim i [ ];
      complete = λ p m c. none_found m.artifact_id c.0 c.1;
      keyed = λ id rec f. absurd (none_found id rec f);
      below = λ id p rec f. absurd (none_found id rec f);
      once = λ id rec f. absurd (none_found id rec f);
    }

-- The mutators.
pub data Op : Type 0 where
  adding : Manifest → Op
  removing : Text → Op
  moving : Text → Manifest → Op
  delta : List Manifest → Op

unfoldable pub step : (Manifest → Manifest) → Op → View → View
step populate (adding m) v = (add m v).1
step populate (removing id) v = (remove id v).1
step populate (moving old_path m) v = (move old_path m v).1
step populate (delta changes) v = (apply_delta populate changes v).0

unfoldable pub run : (Manifest → Manifest) → List Op → View → View
run populate [] v = v
run populate (op ∷ ops) v = run populate ops (step populate op v)

pub index-defs : (m : Manifest) (v : View) → (index_artifact m v).0.defs ≡ v.defs
unfolding index_artifact
index-defs m v = refl

pub index-fallback : (m : Manifest) (v : View) → (index_artifact m v).0.fallback ≡ v.fallback
unfolding index_artifact
index-fallback m v = refl

pub removed-defs :
    (id : Text) (rec : ArtifactRecord) (v : View)
    → (remove_artifact_from_trees id rec v).defs ≡ v.defs
unfolding remove_artifact_from_trees
removed-defs id rec v = refl

pub removed-fallback :
    (id : Text) (rec : ArtifactRecord) (v : View)
    → (remove_artifact_from_trees id rec v).fallback ≡ v.fallback
unfolding remove_artifact_from_trees
removed-fallback id rec v = refl

pub removed_gone :
    (id : Text) (rec : ArtifactRecord) (v : View)
    → lookup id (remove_artifact_from_trees id rec v).artifacts ≡ none
unfolding remove_artifact_from_trees
removed_gone id rec v = rw (lookup-erase id id v.artifacts, text_eq_refl id) refl

pub unknown :
    (m : Manifest) (v : View)
    → (not (passes_filter v.filter v.fallback v.defs m) || known m.artifact_id v) ≡ false
    → lookup m.artifact_id v.artifacts ≡ none
unknown m v e = elim (Option-cases (lookup m.artifact_id v.artifacts)) [
  | inl n ↦ n
  | inr (rec, f) ↦
      absurd (ground (arith, e, f, Bool-cases (passes_filter v.filter v.fallback v.defs m)))
]

pub gated :
    {A B : Type 0} (b : Bool) (P : View → Type 0) (x y : A × View × B)
    → P x.1
    → P y.1
    → P (if b then x else y).1
gated true P x y p q = p
gated false P x y p q = q

pub gated_pair :
    {A : Type 0} (b : Bool) (P : View → Type 0) (x y : A × View)
    → P x.1
    → P y.1
    → P (if b then x else y).1
gated_pair true P x y p q = p
gated_pair false P x y p q = q

-- None of the manifests is in the view, under the identifier that it is indexed by.
abbrev pub AreNew : (Manifest → Manifest) → View → List Manifest → Type 0
AreNew populate v = All (λ c. lookup (populate c).artifact_id v.artifacts ≡ none)

-- The identifiers of the manifests are pairwise different.
abbrev pub AreDifferent : (Manifest → Manifest) → List Manifest → Type 0
AreDifferent populate [] = Unit {0}
AreDifferent populate (c ∷ cs) =
    All (λ k. text_eq (populate c).artifact_id (populate k).artifact_id ≡ false) cs
    × AreDifferent populate cs

pub still_new :
    (populate : Manifest → Manifest) (c : Manifest) (cs : List Manifest) (v : View)
    → AreNew populate v cs
    → All (λ k. text_eq (populate c).artifact_id (populate k).artifact_id ≡ false) cs
    → AreNew populate (index_artifact (populate c) v).0 cs
unfolding index_artifact
still_new populate c [] v n a = tt
still_new populate c (k ∷ cs) v n a = (
  rw (lookup-set (populate c).artifact_id (populate k).artifact_id _ v.artifacts, a.0) n.0,
  still_new populate c cs v n.1 a.1,
)
