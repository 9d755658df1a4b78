-- ===== src/Index/Edges.antt =====
-- The edge tables and the rows of `manifests`: what the inserts add and the deletes take.
use scrinium.Base.{
  ℕ, ◌+◌, ◌≤◌, Text, false, ◌||◌, List, [], ◌∷◌, ◌++◌, ◌≡◌, refl, sym, ap, ◌∙◌, arith, text_eq,
  text_eq_iff, text_eq_sound, text_eq_refl, if◌then◌else◌, Bool-cases, inl, inr, ◌==◌,
}
use scrinium.Index.{
  Manifest, ManifestRow, manifest_row, Edge, has_row, insert_manifest_row, stamp_csn, drop_row,
  conflicts, link_all, targets_of, unlink,
}

-- How often a reference stands in a list.
abbrev pub occurs : Text → List Text → ℕ
occurs r [] = 0
occurs r (ref ∷ refs) = (if text_eq ref r then 1 else 0) + occurs r refs

-- The number of edges to a blob.
abbrev pub edge_count : Text → List Edge → ℕ
edge_count r [] = 0
edge_count r (e ∷ es) = (if text_eq e.target r then 1 else 0) + edge_count r es

abbrev pub edge : Text → Text → ℕ → Edge
edge d ref pos = record { manifest_digest = d; target = ref; position = pos }

-- No edge of the digest at `pos` or after it.
abbrev pub IsFree : Text → ℕ → List Edge → Type 0
IsFree d pos es = (q : ℕ) → pos ≤ q → conflicts d q es ≡ false

pub unlinked-IsFree : (d : Text) (es : List Edge) → targets_of d es ≡ [] → IsFree d 0 es
unfolding targets_of conflicts
unlinked-IsFree d [] h q l = refl
unlinked-IsFree d (e ∷ es) h q l = elim (Bool-cases (text_eq e.manifest_digest d)) [
  | inl m ↦ ground (arith, h, m)
  | inr m ↦ rw m (unlinked-IsFree d es (rw m at h) q l)
]

conflicts-append :
    (d : Text) (q : ℕ) (es : List Edge) (ref : Text) (pos : ℕ)
    → conflicts d q (es ++ (edge d ref pos ∷ [])) ≡ (conflicts d q es || pos == q)
unfolding conflicts
conflicts-append d q [] ref pos = ground (arith, text_eq_refl d)
conflicts-append d q (e ∷ es) ref pos = ground (arith, conflicts-append d q es ref pos)

append-IsFree :
    (d ref : Text) (pos : ℕ) (es : List Edge)
    → IsFree d pos es
    → IsFree d (pos + 1) (es ++ (edge d ref pos ∷ []))
append-IsFree d ref pos es h q l =
    conflicts-append d q es ref pos ∙ rw (h q (omega arith)) (ground arith)

edge_count-append :
    (r d ref : Text) (pos : ℕ) (es : List Edge)
    → edge_count r (es ++ (edge d ref pos ∷ []))
      ≡ edge_count r es + (if text_eq ref r then 1 else 0)
edge_count-append r d ref pos [] = omega arith
edge_count-append r d ref pos (e ∷ es) = omega (arith, edge_count-append r d ref pos es)

-- Linking a digest that has no edges yet adds one edge for every reference of the list.
pub edge_count-link_all :
    (r d : Text) (pos : ℕ) (refs : List Text) (es : List Edge)
    → IsFree d pos es
    → edge_count r (link_all d pos refs es) ≡ edge_count r es + occurs r refs
unfolding link_all
edge_count-link_all r d pos [] es h = omega arith
edge_count-link_all r d pos (ref ∷ refs) es h =
    let rest =
      edge_count-link_all r d (pos + 1) refs (es ++ (edge d ref pos ∷ []))
        (append-IsFree d ref pos es h) in
    rw (h pos (omega arith)) (omega (arith, rest, edge_count-append r d ref pos es))

targets-append :
    (d' d ref : Text) (pos : ℕ) (es : List Edge)
    → text_eq d d' ≡ false
    → targets_of d' (es ++ (edge d ref pos ∷ [])) ≡ targets_of d' es
unfolding targets_of
targets-append d' d ref pos [] h = rw h refl
targets-append d' d ref pos (e ∷ es) h = ground (arith, targets-append d' d ref pos es h)

pub targets-link_other :
    (d' d : Text) (pos : ℕ) (refs : List Text) (es : List Edge)
    → text_eq d d' ≡ false
    → targets_of d' (link_all d pos refs es) ≡ targets_of d' es
unfolding link_all
targets-link_other d' d pos [] es h = refl
targets-link_other d' d pos (ref ∷ refs) es h = elim (Bool-cases (conflicts d pos es)) [
  | inl c ↦ rw c (targets-link_other d' d (pos + 1) refs es h)
  | inr c ↦ rw c (
      targets-link_other d' d (pos + 1) refs (es ++ (edge d ref pos ∷ [])) h
      ∙ targets-append d' d ref pos es h)
]

pub edge_count-unlink :
    (r d : Text) (es : List Edge)
    → edge_count r (unlink d es) + occurs r (targets_of d es) ≡ edge_count r es
unfolding unlink targets_of
edge_count-unlink r d [] = refl
edge_count-unlink r d (e ∷ es) = ground (arith, edge_count-unlink r d es)

pub targets-unlink :
    (d' d : Text) (es : List Edge)
    → targets_of d' (unlink d es) ≡ (if text_eq d d' then [] else targets_of d' es)
unfolding unlink targets_of
targets-unlink d' d [] = ground arith
targets-unlink d' d (e ∷ es) = ground (
  arith,
  text_eq_iff e.manifest_digest d,
  text_eq_iff e.manifest_digest d',
  text_eq_iff d d',
  targets-unlink d' d es,
)

pub has_row-append :
    (d : Text) (r : ManifestRow) (rs : List ManifestRow)
    → has_row d (rs ++ (r ∷ [])) ≡ (has_row d rs || text_eq r.manifest_digest d)
unfolding has_row
has_row-append d r [] = ground arith
has_row-append d r (s ∷ rs) = ground (arith, has_row-append d r rs)

pub has_row-insert :
    (d : Text) (m : Manifest) (now : ℕ) (rs : List ManifestRow)
    → has_row d (insert_manifest_row m now rs) ≡ false
    → (has_row d rs ≡ false) × (text_eq m.digest d ≡ false)
unfolding insert_manifest_row
has_row-insert d m now rs h = elim (Bool-cases (has_row m.digest rs)) [
  | inl e ↦
      let gone : has_row d rs ≡ false = rw e at h in
      (
        gone,
        (elim (Bool-cases (text_eq m.digest d)) [
          | inl same ↦
              ground (arith, e, gone, ap (λ t. has_row t rs) (text_eq_sound m.digest d same))
          | inr apart ↦ apart
        ]),
      )
  | inr e ↦
      let parts = sym (has_row-append d (manifest_row m now) rs) ∙ (rw e at h) in
      (ground (arith, parts), ground (arith, parts))
]

pub has_row-stamp :
    (d d' : Text) (c : ℕ) (rs : List ManifestRow) → has_row d (stamp_csn d' c rs) ≡ has_row d rs
unfolding has_row stamp_csn
has_row-stamp d d' c [] = refl
has_row-stamp d d' c (r ∷ rs) = ground (arith, has_row-stamp d d' c rs)

pub has_row-drop :
    (d' d : Text) (rs : List ManifestRow)
    → has_row d' (drop_row d rs) ≡ (if text_eq d d' then false else has_row d' rs)
unfolding has_row drop_row
has_row-drop d' d [] = ground arith
has_row-drop d' d (r ∷ rs) = ground (
  arith,
  text_eq_iff r.manifest_digest d,
  text_eq_iff r.manifest_digest d',
  text_eq_iff d d',
  has_row-drop d' d rs,
)
