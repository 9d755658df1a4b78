-- ===== src/View/Shown.antt =====
-- The artifact that a tree shows at each path, under the operations on nodes.
use scrinium.Base.{
  ℕ, zero, suc, Text, Bool, true, not, ◌&&◌, Option, none, some, List, [], ◌∷◌, ◌≡◌, refl, sym, ◌∙◌,
  inl, inr, arith, if◌then◌else◌, lookup, set, erase, lookup-set, lookup-erase, text_eq,
  text_eq_sound, Option-cases, Bool-cases,
}
use scrinium.Pathx.{parent}
use scrinium.View.Nodes.{
  Manifest, ViewNode, ArtifactFacet, Tree, new_dir_node, artifact_facet_from, with_children,
  ensure_dir, ensure_below, ensure_dirs, occupied, fresh_node, attach, insert_artifact,
  detach_artifact, prune_above, remove_file, is_bare, no_children,
}

abbrev facet_of : Option ViewNode → Option ArtifactFacet
facet_of none = none
facet_of (some n) = n.artifact

-- What the tree shows at a path.
unfoldable pub shown : Text → Tree → Option ArtifactFacet
shown p t = facet_of (lookup p t)

shown-set :
    (p q : Text) (n : ViewNode) (t : Tree)
    → shown q (set p n t) ≡ (if text_eq p q then n.artifact else shown q t)
unfolding shown
shown-set p q n t = elim (Bool-cases (text_eq p q)) [
  | inl e ↦ rw (lookup-set p q n t, e) refl
  | inr e ↦ rw (lookup-set p q n t, e) refl
]

shown-erase :
    (p q : Text) (t : Tree) → shown q (erase p t) ≡ (if text_eq p q then none else shown q t)
unfolding shown
shown-erase p q t = elim (Bool-cases (text_eq p q)) [
  | inl e ↦ rw (lookup-erase p q t, e) refl
  | inr e ↦ rw (lookup-erase p q t, e) refl
]

-- Writing back the artifact that a node has changes nothing that is shown.
written_back :
    (p q : Text) (n : ViewNode) (t : Tree) (a : Option ArtifactFacet)
    → lookup p t ≡ some n
    → n.artifact ≡ a
    → (if text_eq p q then a else shown q t) ≡ shown q t
unfolding shown
written_back p q n t a e same = elim (Bool-cases (text_eq p q)) [
  | inl y ↦ rw (y, ← (text_eq_sound p q y), e, same) refl
  | inr y ↦ rw y refl
]

shown-with_children :
    (p q : Text) (f : List Text → List Text) (t : Tree) → shown q (with_children p f t) ≡ shown q t
unfolding with_children
shown-with_children p q f t = elim (Option-cases (lookup p t)) [
  | inl e ↦ rw (e, with_children) refl
  | inr (n, e) ↦
      rw (e, with_children, shown-set p q (record n { children = f n.children }) t)
        (written_back p q n t n.artifact e refl)
]

-- A path where nothing is has nothing to show.
not_there :
    (p q : Text) (t : Tree)
    → lookup p t ≡ none
    → (if text_eq p q then none else shown q t) ≡ shown q t
unfolding shown
not_there p q t e = elim (Bool-cases (text_eq p q)) [
  | inl y ↦ rw (y, ← (text_eq_sound p q y), e) refl
  | inr y ↦ rw y refl
]

shown-ensure_dir :
    (now : ℕ) (cur next seg q : Text) (t : Tree)
    → shown q (ensure_dir now cur next seg t) ≡ shown q t
unfolding ensure_dir new_dir_node
shown-ensure_dir now cur next seg q t = elim (Option-cases (lookup next t)) [
  | inr (n, e) ↦ rw (e, ensure_dir) refl
  | inl e ↦
      rw (e, ensure_dir, shown-with_children, shown-set next q (new_dir_node seg next now) t)
        (not_there next q t e)
]

shown-ensure_below :
    (now : ℕ) (q : Text) (segs : List Text) (cur : Text) (t : Tree)
    → shown q (ensure_below now cur segs t) ≡ shown q t
unfolding ensure_below
shown-ensure_below now q [] cur t = refl
shown-ensure_below now q (seg ∷ segs) cur t =
    shown-ensure_below now q segs _ _ ∙ shown-ensure_dir now cur _ seg q t

shown-ensure_dirs :
    (now : ℕ) (path q : Text) (t : Tree) → shown q (ensure_dirs now path t) ≡ shown q t
unfolding ensure_dirs
shown-ensure_dirs now [] q t = refl
shown-ensure_dirs now (c ∷ path) q t = shown-ensure_below now q _ [] t

shown-attach :
    (m : Manifest) (dir : Bool) (p q : Text) (t : Tree)
    → shown q (attach m dir p t) ≡ (if text_eq p q then some (artifact_facet_from m) else shown q t)
unfolding attach occupied fresh_node
shown-attach m dir p q t = elim (Option-cases (lookup p t)) [
  | inr (n, e) ↦ rw (e, attach, shown-set p q (occupied m dir n) t) refl
  | inl e ↦ rw (e, attach, shown-with_children, shown-set p q (fresh_node m dir p) t) refl
]

-- An insertion shows the artifact at its path, and changes what is shown nowhere else.
pub shown-insert :
    (now : ℕ) (m : Manifest) (dir : Bool) (p q : Text) (t : Tree)
    → shown q (insert_artifact now p m dir t)
      ≡ (if text_eq p q then some (artifact_facet_from m) else shown q t)
unfolding insert_artifact
shown-insert now m dir p q t =
    rw (shown-attach m dir p q (ensure_dirs now (parent p) t), shown-ensure_dirs now (parent p) q t)
      refl

pub shown-detach :
    (p q : Text) (t t' : Tree)
    → detach_artifact p t ≡ some t'
    → shown q t' ≡ (if text_eq p q then none else shown q t)
unfolding detach_artifact
shown-detach p q t t' h = elim (Option-cases (lookup p t)) [
  | inl e ↦ absurd (ground (arith, h, e))
  | inr (n, e) ↦
      let bare : ViewNode = record n {
        artifact = none;
        fs = record n.fs { is_dir = true; size = 0 };
      } in
      let same : set p bare t ≡ t' = ground (arith, h, e) in rw (← same) (shown-set p q bare t)
]

is_bare-none : (n : ViewNode) → is_bare n ≡ true → n.artifact ≡ none
unfolding is_bare
is_bare-none n h = elim (Option-cases n.artifact) [
  | inl e ↦ e
  | inr (a, e) ↦ absurd (ground (arith, h, e, Bool-cases (no_children n.children)))
]

shown-drop :
    (p q : Text) (f : List Text → List Text) (t : Tree)
    → shown q (with_children (parent p) f (erase p t)) ≡ (if text_eq p q then none else shown q t)
shown-drop p q f t = rw (shown-with_children (parent p) q f (erase p t)) (shown-erase p q t)

-- Only directories without an artifact are pruned.
shown-prune : (fuel : ℕ) (p q : Text) (t : Tree) → shown q (prune_above fuel p t) ≡ shown q t
unfolding prune_above
shown-prune zero p q t = refl
shown-prune (suc fuel) p q t = elim (Option-cases (lookup p t)) [
  | inl e ↦ rw (e, prune_above) refl
  | inr (n, e) ↦ (elim (Bool-cases (not (text_eq p []) && is_bare n)) [
    | inr b ↦ rw (e, prune_above, b) refl
    | inl b ↦
        rw (e, prune_above, b)
          (shown-prune fuel (parent p) q _
            ∙ shown-drop p q _ t
            ∙ written_back p q n t none e (is_bare-none n (ground (arith, b))))
  ])
]

-- A removal takes the artifact at its path away, and changes what is shown nowhere else.
pub shown-remove :
    (p q : Text) (t : Tree) → shown q (remove_file p t) ≡ (if text_eq p q then none else shown q t)
unfolding remove_file
shown-remove p q t = elim (Option-cases (lookup p t)) [
  | inl e ↦ rw (e, remove_file) (sym (not_there p q t e))
  | inr (n, e) ↦ rw (e, remove_file) (shown-prune _ (parent p) q _ ∙ shown-drop p q _ t)
]
