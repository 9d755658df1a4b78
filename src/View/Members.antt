-- ===== src/View/Members.antt =====
-- An archive and its members: artifacts at a path and below it (insertArtifact in mutate.go, and the
-- listing in read.go).
use scrinium.Base.{
  ℕ, Text, Bool, true, false, none, some, List, [], ◌∷◌, ◌++◌, ◌≡◌, ◌≢◌, inl, inr, refl, sym, ap,
  subst, ◌∙◌, arith, length, length-append, lookup, set, lookup-set, text_eq, text_eq_sound,
  text_eq_refl, Bool-cases, Option-cases,
}
use scrinium.Cut.{IsFree, cut_last-IsFree}
use scrinium.Pathx.{slash, parent, last_of, join}
use scrinium.Pathx.Paths.{parent-join, join_glue}
use scrinium.Named.{segments, split_slash}
use scrinium.View.Nodes.{
  Manifest, ViewNode, Tree, new_dir_node, insert_sorted, with_children, ensure_dir, ensure_below,
  ensure_dirs, occupied, fresh_node, attach, insert_artifact, artifact_facet_from, not_a_directory,
  child_nodes, snapshot_children,
}
use scrinium.View.Shown.{shown, shown-insert}

-- The node at the path is, or is not, a directory.
abbrev HasKind : Text → Bool → Tree → Type 0
HasKind p dir t = (n : ViewNode) × (lookup p t ≡ some n) × (n.fs.is_dir ≡ dir)

with_children-HasKind :
    (p q : Text) (dir : Bool) (f : List Text → List Text) (t : Tree)
    → HasKind p dir t
    → HasKind p dir (with_children q f t)
unfolding with_children
with_children-HasKind p q dir f t (n, e, k) = elim (Option-cases (lookup q t)) [
  | inl g ↦ rw (g, with_children) (n, e, k)
  | inr (n', g) ↦
      rw (g, with_children)
        (elim (Bool-cases (text_eq q p)) [
          | inr x ↦ (n, rw (lookup-set q p (record n' { children = f n'.children }) t, x) e, k)
          | inl x ↦ (
            record n' { children = f n'.children },
            rw (lookup-set q p (record n' { children = f n'.children }) t, x) refl,
            ground (arith, e, g, k, ap (λ z. lookup z t) (text_eq_sound q p x)),
          )
        ])
]

set-HasKind :
    (p q : Text) (dir : Bool) (n' : ViewNode) (t : Tree)
    → text_eq q p ≡ false
    → HasKind p dir t
    → HasKind p dir (set q n' t)
set-HasKind p q dir n' t x (n, e, k) = (n, rw (lookup-set q p n' t, x) e, k)

other_path :
    (p q : Text) (dir : Bool) (t : Tree) → lookup q t ≡ none → HasKind p dir t → text_eq q p ≡ false
other_path p q dir t g (n, e, k) = elim (Bool-cases (text_eq q p)) [
  | inr x ↦ x
  | inl x ↦ absurd (ground (arith, e, g, ap (λ z. lookup z t) (text_eq_sound q p x)))
]

ensure_dir-HasKind :
    (now : ℕ) (cur next seg p : Text) (dir : Bool) (t : Tree)
    → HasKind p dir t
    → HasKind p dir (ensure_dir now cur next seg t)
unfolding ensure_dir
ensure_dir-HasKind now cur next seg p dir t h = elim (Option-cases (lookup next t)) [
  | inr (n, e) ↦ rw (e, ensure_dir) h
  | inl e ↦
      rw (e, ensure_dir)
        (with_children-HasKind p cur dir (insert_sorted seg) _
          (set-HasKind p next dir (new_dir_node seg next now) t (other_path p next dir t e h) h))
]

ensure_below-HasKind :
    (now : ℕ) (p : Text) (dir : Bool) (segs : List Text) (cur : Text) (t : Tree)
    → HasKind p dir t
    → HasKind p dir (ensure_below now cur segs t)
unfolding ensure_below
ensure_below-HasKind now p dir [] cur t h = h
ensure_below-HasKind now p dir (seg ∷ segs) cur t h =
    ensure_below-HasKind now p dir segs _ _ (ensure_dir-HasKind now cur _ seg p dir t h)

ensure_dirs-HasKind :
    (now : ℕ) (path p : Text) (dir : Bool) (t : Tree)
    → HasKind p dir t
    → HasKind p dir (ensure_dirs now path t)
unfolding ensure_dirs
ensure_dirs-HasKind now [] p dir t h = h
ensure_dirs-HasKind now (c ∷ path) p dir t h = ensure_below-HasKind now p dir _ [] t h

attach-HasKind :
    (m : Manifest) (declared dir : Bool) (p q : Text) (t : Tree)
    → text_eq q p ≡ false
    → HasKind p dir t
    → HasKind p dir (attach m declared q t)
unfolding attach
attach-HasKind m declared dir p q t x h = elim (Option-cases (lookup q t)) [
  | inr (n, e) ↦ rw (e, attach) (set-HasKind p q dir (occupied m declared n) t x h)
  | inl e ↦
      rw (e, attach)
        (with_children-HasKind p (parent q) dir (insert_sorted (last_of q)) _
          (set-HasKind p q dir (fresh_node m declared q) t x h))
]

-- An insertion elsewhere does not change the kind of a node.
insert-HasKind :
    (now : ℕ) (m : Manifest) (declared dir : Bool) (p q : Text) (t : Tree)
    → text_eq q p ≡ false
    → HasKind p dir t
    → HasKind p dir (insert_artifact now q m declared t)
unfolding insert_artifact
insert-HasKind now m declared dir p q t x h =
    attach-HasKind m declared dir p q _ x (ensure_dirs-HasKind now (parent q) p dir t h)

split_free : (p : Text) → IsFree slash p → split_slash p ≡ (p, [])
unfolding split_slash
split_free [] f = refl
split_free (c ∷ p) f = rw (split_free p f.1, split_slash) (ground (arith, f.0))

segments_free : (p : Text) → IsFree slash p → segments p ≡ p ∷ []
segments_free p f = rw (split_free p f) refl

parent_free : (p : Text) → IsFree slash p → parent p ≡ []
unfolding parent
parent_free p f = rw (cut_last-IsFree slash p f, parent) refl

join_other : (p c : Text) → p ≢ [] → c ≢ [] → text_eq (join p c) p ≡ false
join_other p c np nc = elim (Bool-cases (text_eq (join p c) p)) [
  | inr e ↦ e
  | inl e ↦
      let same : p ++ (slash ∷ c) ≡ p = sym (join_glue p c np nc) ∙ text_eq_sound (join p c) p e in
      absurd (omega (arith, length-append p (slash ∷ c), ap length same))
]

snapshot_file :
    (p : Text) (t : Tree) → HasKind p false t → snapshot_children p t ≡ inl not_a_directory
unfolding snapshot_children
snapshot_file p t (n, e, k) = ground (arith, e, k)

snapshot_dir :
    (p : Text) (t : Tree)
    → HasKind p true t
    → (ns : List ViewNode) × (snapshot_children p t ≡ inr ns)
unfolding snapshot_children
snapshot_dir p t (n, e, k) = (child_nodes p n.children t, ground (arith, e, k))

insert_top :
    (now : ℕ) (p : Text) (m : Manifest) (declared : Bool) (t : Tree)
    → IsFree slash p
    → insert_artifact now p m declared t ≡ attach m declared p t
unfolding insert_artifact ensure_dirs
insert_top now p m declared t f =
    ap (λ x. attach m declared p (ensure_dirs now x t)) (parent_free p f)

-- A new file at a path that nothing is at.
attach_file :
    (p : Text) (m : Manifest) (t : Tree) → lookup p t ≡ none → HasKind p false (attach m false p t)
unfolding attach fresh_node
attach_file p m t n =
    rw (n, attach)
      (with_children-HasKind p (parent p) false (insert_sorted (last_of p))
        (set p (fresh_node m false p) t)
        (
          fresh_node m false p,
          rw (lookup-set p p (fresh_node m false p) t, text_eq_refl p) refl,
          refl,
        ))

-- A directory stays one under an artifact at its path.
attach_dir :
    (p : Text) (m : Manifest) (t : Tree) → HasKind p true t → HasKind p true (attach m false p t)
unfolding attach occupied
attach_dir p m t (n, e, k) =
    rw (e, attach)
      (
        occupied m false n,
        rw (lookup-set p p (occupied m false n) t, text_eq_refl p) refl,
        ground (arith, k),
      )

one_dir : (now : ℕ) (p : Text) (t : Tree) → ensure_below now [] (p ∷ []) t ≡ ensure_dir now [] p p t
unfolding ensure_below text_eq
one_dir now p t = refl

dirs_free :
    (now : ℕ) (p : Text) (t : Tree)
    → IsFree slash p
    → p ≢ []
    → ensure_dirs now p t ≡ ensure_dir now [] p p t
unfolding ensure_dirs
dirs_free now [] t f np = absurd (np refl)
dirs_free now (c ∷ p) t f np =
    ap (λ s. ensure_below now [] s t) (segments_free (c ∷ p) f) ∙ one_dir now (c ∷ p) t

-- The directory that a member makes of its archive's path, where nothing is at it.
dir_made :
    (now : ℕ) (p : Text) (t : Tree) → lookup p t ≡ none → HasKind p true (ensure_dir now [] p p t)
unfolding ensure_dir new_dir_node
dir_made now p t n =
    rw (n, ensure_dir)
      (with_children-HasKind p [] true (insert_sorted p) (set p (new_dir_node p p now) t) (
        new_dir_node p p now,
        rw (lookup-set p p (new_dir_node p p now) t, text_eq_refl p) refl,
        refl,
      ))

member_makes :
    (now : ℕ) (p q : Text) (m : Manifest) (declared : Bool) (t : Tree)
    → parent q ≡ p
    → text_eq q p ≡ false
    → IsFree slash p
    → p ≢ []
    → lookup p t ≡ none
    → HasKind p true (insert_artifact now q m declared t)
unfolding insert_artifact
member_makes now p q m declared t above other f np n = attach-HasKind m declared true p q _ other (
    subst (λ x. HasKind p true (ensure_dirs now x t)) (sym above)
      (subst (HasKind p true) (sym (dirs_free now p t f np)) (dir_made now p t n)))

-- The defect: what an archive shows depends on the order of its artifacts. For an archive whose path is
-- one segment that nothing is at, and a member below it: inserted before its archive, the member makes
-- the path a directory, which stays one and can be listed; inserted after it, the member is in the tree
-- all the same, but the archive's node is still no directory, and listing it is refused.
pub member_unlisted :
    (now : ℕ) (p c : Text) (archive member : Manifest) (dir : Bool) (t : Tree)
    → IsFree slash p
    → p ≢ []
    → IsFree slash c
    → c ≢ []
    → lookup p t ≡ none
    → (shown
          (join p c)
          (insert_artifact now (join p c) member dir (insert_artifact now p archive false t))
        ≡ some (artifact_facet_from member))
      × (snapshot_children p
            (insert_artifact now (join p c) member dir (insert_artifact now p archive false t))
          ≡ inl not_a_directory)
      × ((ns : List ViewNode) × (snapshot_children p
              (insert_artifact now p archive false (insert_artifact now (join p c) member dir t))
            ≡ inr ns))
member_unlisted now p c archive member dir t fp np fc nc n =
    let other = join_other p c np nc in
    let above : parent (join p c) ≡ p = (parent-join p c np nc fc).0 in
    (
      shown-insert now member dir (join p c) (join p c) (insert_artifact now p archive false t)
          ∙ rw (text_eq_refl (join p c)) refl,
      snapshot_file p _ (
          insert-HasKind now member dir false p (join p c) _ other (
            subst (HasKind p false) (sym (insert_top now p archive false t fp))
              (attach_file p archive t n))),
      snapshot_dir p _ (
          subst (HasKind p true) (sym (insert_top now p archive false _ fp)) (
            attach_dir p archive _
              (member_makes now p (join p c) member dir t above other fp np n))),
    )
