-- ===== src/View/Roots.antt =====
-- What placing and removing an artifact does at one root, and what it leaves alone there.
pub mod Landing
use scrinium.Base.{
  ℕ, Text, true, false, Option, none, some, List, [], ◌∷◌, ◌++◌, ◌≡◌, ◌⊎◌, inl, inr, refl, subst,
  ◌∙◌, arith, All, if◌then◌else◌, lookup, set, lookup-set, text_eq, text_eq_sound, text_eq_refl,
  text_eq_iff, Bool-cases, Option-cases,
}
use scrinium.View.Nodes.{Manifest}
use scrinium.View.Placement.{
  ViewDef, Fallback, fallback_orphaned, fallback_synthetic, synthetic_path, by_orphaned, placement,
}
use scrinium.View.Ops.{ArtifactRecord, Root}
use scrinium.View.Ops.Indexing.{
  Placing, at_root, place_at, place_orphan, count_seen, place_in, place_all,
}

pub at_root_self :
    (r : Text) (f : Root → Root) (roots : List (Text × Root)) (s : Root)
    → lookup r roots ≡ some s
    → lookup r (at_root r f roots) ≡ some (f s)
unfolding at_root
at_root_self r f roots s h = rw (h, at_root, lookup-set r r (f s) roots, text_eq_refl r) refl

pub at_root_other :
    (k r : Text) (f : Root → Root) (roots : List (Text × Root))
    → text_eq k r ≡ false
    → lookup r (at_root k f roots) ≡ lookup r roots
unfolding at_root
at_root_other k r f roots e = elim (Option-cases (lookup k roots)) [
  | inl n ↦ rw (n, at_root) refl
  | inr (s, n) ↦ rw (n, at_root, lookup-set k r (f s) roots, e) refl
]

-- The key stands at most once in the list.
abbrev pub Absent : Text → List (Text × Text) → Type 0
Absent r xs = All (λ (e : Text × Text). text_eq e.0 r ≡ false) xs

abbrev pub Once : Text → List (Text × Text) → Type 0
Once r [] = Unit {0}
Once r ((k, p) ∷ xs) = ((text_eq k r ≡ true) × Absent r xs) ⊎ ((text_eq k r ≡ false) × Once r xs)

set-Absent :
    (r k p : Text) (xs : List (Text × Text))
    → text_eq k r ≡ false
    → Absent r xs
    → Absent r (set k p xs)
unfolding set
set-Absent r k p [] e h = (e, tt)
set-Absent r k p ((j, q) ∷ xs) e h = elim (Bool-cases (text_eq j k)) [
  | inl f ↦ rw f (e, h.1)
  | inr f ↦ rw f (h.0, set-Absent r k p xs e h.1)
]

pub set-Once : (r k p : Text) (xs : List (Text × Text)) → Once r xs → Once r (set k p xs)
unfolding set
set-Once r k p [] h = elim (Bool-cases (text_eq k r)) [ inl e ↦ inl (e, tt) | inr e ↦ inr (e, tt) ]
set-Once r k p ((j, q) ∷ xs) h = elim (Bool-cases (text_eq j k)) [
  | inl f ↦ rw f (
      subst (λ x. ((text_eq x r ≡ true) × Absent r xs) ⊎ ((text_eq x r ≡ false) × Once r xs))
        (text_eq_sound j k f) h)
  | inr f ↦ rw f (elim h [
    | inl (e, a) ↦ inl (
      e,
      set-Absent r k p xs (ground (arith, e, f, text_eq_iff j r, text_eq_iff k r, text_eq_iff j k))
          a,
    )
    | inr (e, o) ↦ inr (e, set-Once r k p xs o)
  ])
]

-- Where the definition places the artifact, the fallback included.
unfoldable pub placed_path : Fallback → ViewDef → Manifest → Option Text
placed_path fb d m = elim (placement d m) [
  | some p ↦ some p
  | none ↦
      if d.orphans
      then (elim fb [ fallback_synthetic ↦ some (synthetic_path m) | fallback_orphaned ↦ none ])
      else none
]

-- The books of the root `r` are the same before and after.
pub record Untouched (r : Text) (w w' : Placing) : Type 0 where
  pub roots : lookup r w'.roots ≡ lookup r w.roots
  pub paths : lookup r w'.paths ≡ lookup r w.paths
  pub once : Once r w.paths → Once r w'.paths

module _ (now : ℕ) (fb : Fallback) (artifacts : List (Text × ArtifactRecord)) (m : Manifest)
    (r : Text) (orphans_apart : text_eq by_orphaned r ≡ false) where
  place_at_other :
      (d : ViewDef) (p : Text) (w : Placing)
      → text_eq d.root r ≡ false
      → Untouched r w (place_at now artifacts m d p w)
  unfolding place_at
  place_at_other d p w e = elim (Bool-cases d.collide) [
    | inl c ↦ rw c (record {
      roots = at_root_other d.root r _ w.roots e;
      paths = rw (lookup-set d.root r p w.paths, e) refl;
      once = set-Once r d.root p w.paths;
    })
    | inr c ↦ rw c (record {
      roots = at_root_other d.root r _ w.roots e;
      paths = rw (lookup-set d.root r p w.paths, e) refl;
      once = set-Once r d.root p w.paths;
    })
  ]

  pub place_orphan_other : (w : Placing) → Untouched r w (place_orphan now m w)
  unfolding place_orphan
  place_orphan_other w = record {
    roots = at_root_other by_orphaned r _ w.roots orphans_apart;
    paths = rw (lookup-set by_orphaned r _ w.paths, orphans_apart) refl;
    once = set-Once r by_orphaned _ w.paths;
  }

  count_seen_other :
      (d : ViewDef) (w w' : Placing)
      → text_eq d.root r ≡ false
      → Untouched r w w'
      → Untouched r w (count_seen d m w')
  unfolding count_seen
  count_seen_other d w w' e u = elim (Option-cases d.count_key) [
    | inl c ↦ rw (c, count_seen) u
    | inr (key, c) ↦ (elim (Option-cases (key m)) [
      | inl k ↦ rw (c, count_seen, k) u
      | inr (k', k) ↦
          rw (c, count_seen, k)
            (record {
              roots = at_root_other d.root r _ w'.roots e ∙ u.roots;
              paths = u.paths;
              once = u.once;
            })
    ])
  ]

  fell_back :
      (d : ViewDef) (w : Placing)
      → text_eq d.root r ≡ false
      → (fb' : Fallback)
      → Untouched r w (elim fb' [
        | fallback_synthetic ↦ place_at now artifacts m d (synthetic_path m) w
        | fallback_orphaned ↦ place_orphan now m w
      ])
  fell_back d w e fallback_synthetic = place_at_other d (synthetic_path m) w e
  fell_back d w e fallback_orphaned = place_orphan_other w

  pub place_in_other :
      (d : ViewDef) (w : Placing)
      → text_eq d.root r ≡ false
      → Untouched r w (place_in now fb artifacts m d w)
  unfolding place_in
  place_in_other d w e = elim (Option-cases (placement d m)) [
    | inr (p, f) ↦ rw (f, place_in) (count_seen_other d w _ e (place_at_other d p w e))
    | inl f ↦ (elim (Bool-cases d.orphans) [
      | inr o ↦ rw (f, place_in, o) (record { roots = refl; paths = refl; once = λ h. h })
      | inl o ↦ rw (f, place_in, o) (fell_back d w e fb)
    ])
  ]

  pub place_all_other :
      (ds : List ViewDef) (w : Placing)
      → All (λ (d : ViewDef). text_eq d.root r ≡ false) ds
      → Untouched r w (place_all now fb artifacts m ds w)
  unfolding place_all
  place_all_other [] w h = record { roots = refl; paths = refl; once = λ h. h }
  place_all_other (d ∷ ds) w h =
      let one = place_in_other d w h.0 in
      let more = place_all_other ds (place_in now fb artifacts m d w) h.1 in
      record {
        roots = more.roots ∙ one.roots;
        paths = more.paths ∙ one.paths;
        once = λ x. more.once (one.once x);
      }
