-- ===== src/View/Roots/Landing.antt =====
-- What a whole placing, and a whole removal, has made of one root.
use scrinium.Base.{
  ℕ, Text, Bool, true, false, Option, none, some, List, [], ◌∷◌, ◌++◌, ◌≡◌, inl, inr, refl, ◌∙◌,
  All, if◌then◌else◌, lookup, lookup-set, text_eq, text_eq_sound, text_eq_refl, Bool-cases,
  Option-cases,
}
use scrinium.View.Nodes.{Manifest}
use scrinium.View.Placement.{
  ViewDef, Fallback, fallback_orphaned, fallback_synthetic, synthetic_path, by_orphaned, placement,
  declared,
}
use scrinium.View.Ops.{ArtifactRecord, Root, apply_collision_insert}
use scrinium.View.Ops.Indexing.{
  Placing, at_root, place_at, place_orphan, count_seen, place_in, place_all,
}
use scrinium.View.Ops.Mutators.{remove_at, remove_all}
use scrinium.View.Roots.{
  at_root_self, at_root_other, Absent, Once, set-Once, placed_path, Untouched, place_orphan_other,
  place_in_other, place_all_other,
}

-- What placing has made of the root `r`, which had the books `s`: where it has a path for the artifact,
-- the arbitration has run there, and only the set of seen keys differs from what it left.
abbrev pub Landed :
    ℕ
    → List (Text × ArtifactRecord)
    → Manifest
    → Bool
    → Text
    → Root
    → Option Text
    → Placing
    → Type 0
Landed now artifacts m dir r s none w =
    (lookup r w.roots ≡ some s) × (lookup r w.paths ≡ none) × Once r w.paths
Landed now artifacts m dir r s (some p) w =
    (seen : Option (List Text)) × (lookup r w.roots
      ≡ some (record (apply_collision_insert now artifacts p m dir s).0 { seen = seen }))
    × (lookup r w.paths ≡ some p)
    × Once r w.paths

Landed-Untouched :
    (now : ℕ) (artifacts : List (Text × ArtifactRecord)) (m : Manifest) (dir : Bool) (r : Text)
    (s : Root) (p : Option Text) (w w' : Placing)
    → Untouched r w w'
    → Landed now artifacts m dir r s p w
    → Landed now artifacts m dir r s p w'
Landed-Untouched now artifacts m dir r s none w w' u h = (u.roots ∙ h.0, u.paths ∙ h.1, u.once h.2)
Landed-Untouched now artifacts m dir r s (some p) w w' u (seen, a, b, o) =
    (seen, u.roots ∙ a, u.paths ∙ b, u.once o)

module _ (now : ℕ) (fb : Fallback) (artifacts : List (Text × ArtifactRecord)) (m : Manifest)
    (d : ViewDef) (collides : d.collide ≡ true) (s : Root) where
  place_at_own :
      (p : Text) (w : Placing)
      → lookup d.root w.roots ≡ some s
      → Once d.root w.paths
      → Landed now artifacts m (declared d m) d.root s (some p) (place_at now artifacts m d p w)
  unfolding place_at declared apply_collision_insert
  place_at_own p w h o = rw collides (
    ((apply_collision_insert now artifacts p m (declared d m) s).0).seen,
    at_root_self d.root (λ s. (apply_collision_insert now artifacts p m (declared d m) s).0) w.roots
        s h,
    rw (lookup-set d.root d.root p w.paths, text_eq_refl d.root) refl,
    set-Once d.root d.root p w.paths o,
  )

  count_seen_own :
      (p : Text) (w : Placing)
      → Landed now artifacts m (declared d m) d.root s (some p) w
      → Landed now artifacts m (declared d m) d.root s (some p) (count_seen d m w)
  unfolding count_seen declared
  count_seen_own p w (seen, a, b, o) = elim (Option-cases d.count_key) [
    | inl c ↦ rw (c, count_seen) (seen, a, b, o)
    | inr (key, c) ↦ (elim (Option-cases (key m)) [
      | inl k ↦ rw (c, count_seen, k) (seen, a, b, o)
      | inr (k', k) ↦ rw (c, count_seen, k) (_, at_root_self d.root _ w.roots _ a, b, o)
    ])
  ]

  fallen :
      (w : Placing)
      → lookup d.root w.roots ≡ some s
      → lookup d.root w.paths ≡ none
      → Once d.root w.paths
      → text_eq by_orphaned d.root ≡ false
      → (fb' : Fallback)
      → Landed now artifacts m
          (declared d m)
          d.root
          s
          (elim fb' [ fallback_synthetic ↦ some (synthetic_path m) | fallback_orphaned ↦ none ])
          (elim fb' [
            | fallback_synthetic ↦ place_at now artifacts m d (synthetic_path m) w
            | fallback_orphaned ↦ place_orphan now m w
          ])
  fallen w h n o apart fallback_synthetic = place_at_own (synthetic_path m) w h o
  fallen w h n o apart fallback_orphaned =
      let u = place_orphan_other now fb artifacts m d.root apart w in
      (u.roots ∙ h, u.paths ∙ n, u.once o)

  place_in_own :
      (w : Placing)
      → lookup d.root w.roots ≡ some s
      → lookup d.root w.paths ≡ none
      → Once d.root w.paths
      → text_eq by_orphaned d.root ≡ false
      → Landed now artifacts m
          (declared d m)
          d.root
          s
          (placed_path fb d m)
          (place_in now fb artifacts m d w)
  unfolding place_in placed_path declared
  place_in_own w h n o apart = elim (Option-cases (placement d m)) [
    | inr (p, f) ↦ rw (f, place_in, placed_path) (count_seen_own p _ (place_at_own p w h o))
    | inl f ↦ (elim (Bool-cases d.orphans) [
      | inr e ↦ rw (f, place_in, placed_path, e) (h, n, o)
      | inl e ↦ rw (f, place_in, placed_path, e) (fallen w h n o apart fb)
    ])
  ]

-- The whole set of definitions, of which only `d` has the root.
pub place_all-Landed :
    (now : ℕ) (fb : Fallback) (artifacts : List (Text × ArtifactRecord)) (m : Manifest)
    (before after : List ViewDef) (d : ViewDef) (s : Root) (w : Placing)
    → d.collide ≡ true
    → text_eq by_orphaned d.root ≡ false
    → All (λ (e : ViewDef). text_eq e.root d.root ≡ false) before
    → All (λ (e : ViewDef). text_eq e.root d.root ≡ false) after
    → lookup d.root w.roots ≡ some s
    → lookup d.root w.paths ≡ none
    → Once d.root w.paths
    → Landed now artifacts m
        (declared d m)
        d.root
        s
        (placed_path fb d m)
        (place_all now fb artifacts m (before ++ (d ∷ after)) w)
unfolding place_all
place_all-Landed now fb artifacts m [] after d s w c apart hb ha h n o =
    let w' : Placing = place_in now fb artifacts m d w in
    Landed-Untouched now artifacts m (declared d m) d.root s (placed_path fb d m) w' _
      (place_all_other now fb artifacts m d.root apart after w' ha)
      (place_in_own now fb artifacts m d c s w h n o apart)
place_all-Landed now fb artifacts m (e ∷ before) after d s w c apart hb ha h n o =
    let u = place_in_other now fb artifacts m d.root apart e w hb.0 in
    place_all-Landed now fb artifacts m before after d s (place_in now fb artifacts m e w) c apart
      hb.1 ha (u.roots ∙ h) (u.paths ∙ n) (u.once o)

skipped :
    (now : ℕ) (artifacts : List (Text × ArtifactRecord)) (id r k p : Text)
    (roots : List (Text × Root))
    → text_eq k r ≡ false
    → lookup r (if text_eq p [] then roots else at_root k (remove_at now artifacts id p) roots)
      ≡ lookup r roots
skipped now artifacts id r k p roots e = elim (Bool-cases (text_eq p [])) [
  | inl f ↦ rw f refl
  | inr f ↦ rw f (at_root_other k r (remove_at now artifacts id p) roots e)
]

remove_all-Absent :
    (now : ℕ) (artifacts : List (Text × ArtifactRecord)) (id r : Text) (paths : List (Text × Text))
    (roots : List (Text × Root))
    → Absent r paths
    → lookup r (remove_all now artifacts id paths roots) ≡ lookup r roots
unfolding remove_all
remove_all-Absent now artifacts id r [] roots h = refl
remove_all-Absent now artifacts id r ((k, p) ∷ paths) roots h =
    remove_all-Absent now artifacts id r paths _ h.1 ∙ skipped now artifacts id r k p roots h.0

-- The removal at the root `r` is that of the path that the artifact has there.
pub remove_all_at :
    (now : ℕ) (artifacts : List (Text × ArtifactRecord)) (id r : Text) (paths : List (Text × Text))
    (roots : List (Text × Root)) (s : Root)
    → Once r paths
    → lookup r roots ≡ some s
    → ((p : Text) → lookup r paths ≡ some p → text_eq p [] ≡ false)
    → lookup r (remove_all now artifacts id paths roots)
      ≡ some (elim (lookup r paths) [ none ↦ s | some p ↦ remove_at now artifacts id p s ])
unfolding remove_all lookup
remove_all_at now artifacts id r [] roots s o h f = h
remove_all_at now artifacts id r ((k, p) ∷ paths) roots s o h f = elim o [
  | inl (e, a) ↦
      let filled : text_eq p [] ≡ false = f p (rw e refl) in
      remove_all-Absent now artifacts id r paths _ a
      ∙ rw (e, filled, text_eq_sound k r e)
          (at_root_self r (remove_at now artifacts id p) roots s h)
  | inr (e, more) ↦ rw e (
      remove_all_at now artifacts id r paths _ s more (skipped now artifacts id r k p roots e ∙ h)
        (λ q g. f q (rw e g)))
]
