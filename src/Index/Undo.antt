-- ===== src/Index/Undo.antt =====
-- A registration followed by the deletion of its digest, for a new manifest and for one that is
-- registered again.
use scrinium.Base.{
  ℕ, suc, ◌+◌, Text, Bool, true, false, Option, none, List, [], ◌∷◌, ◌≡◌, refl, sym, ap, subst, ◌∙◌,
  arith, text_eq_refl, Bool-cases, inl, inr,
}
use scrinium.Index.{
  Manifest, ManifestRow, Tables, Edge, Outside, IndexError, index_manifest, index_blob_manifest,
  delete_manifest, without_manifest, insert_manifest_row, manifest_row, link_all, register_refs,
  stamp_csn, has_row, targets_of, is_container, custom_answer, conflicts,
}
use scrinium.Index.Edges.{edge_count, occurs, edge_count-unlink, has_row-stamp, has_row-append}
use scrinium.Index.Counts.{count_of, count-register_refs, count-unbump_all}
use scrinium.Index.Deletion.{IsCounted, registered}

has_row-inserted :
    (m : Manifest) (now c : ℕ) (rs : List ManifestRow)
    → has_row m.digest (stamp_csn m.digest c (insert_manifest_row m now rs)) ≡ true
unfolding insert_manifest_row
has_row-inserted m now c rs =
    has_row-stamp m.digest m.digest c (insert_manifest_row m now rs)
    ∙ (elim (Bool-cases (has_row m.digest rs)) [
      | inl e ↦ rw (e, e) refl
      | inr e ↦
          rw (e, has_row-append m.digest (manifest_row m now) rs, text_eq_refl m.digest, e) refl
    ])

-- Nothing outside the tables fails.
abbrev pub all_well : Outside
all_well = record { sql = none; custom = none }

answered : (b : Bool) → custom_answer all_well b ≡ none
answered true = refl
answered false = refl

pub index_committed :
    (m : Manifest) (path ref : Text) (refs : List Text) (now : ℕ) (t : Tables)
    → m.inline ≡ false
    → m.blob_refs ≡ ref ∷ refs
    → index_manifest all_well m path now t ≡ (none, registered m path now t)
unfolding index_manifest index_blob_manifest
index_committed m path ref refs now t i b = ground (arith, i, b, answered (is_container m))

delete_committed :
    (d : Text) (t : Tables)
    → has_row d t.manifests ≡ true
    → delete_manifest all_well d t ≡ (none, without_manifest d t)
unfolding delete_manifest
delete_committed d t h = rw h refl

module _ (m : Manifest) (path ref : Text) (refs : List Text) (now : ℕ) (t : Tables)
    (i : m.inline ≡ false) (b : m.blob_refs ≡ ref ∷ refs) where
  -- The tables after both transactions.
  undone :
      (delete_manifest all_well m.digest (index_manifest all_well m path now t).1).1
      ≡ without_manifest m.digest (registered m path now t)
  undone =
      ap (λ u. (delete_manifest all_well m.digest u).1)
        (ap (λ (r : Option IndexError × Tables). r.1) (index_committed m path ref refs now t i b))
      ∙ ap (λ (r : Option IndexError × Tables). r.1)
          (delete_committed m.digest (registered m path now t)
            (has_row-inserted m now (t.csn + 1) t.manifests))

-- What a deletion right after the registration of its digest has restored.
pub record Restored (t t' : Tables) : Type 0 where
  pub manifests : t'.manifests ≡ t.manifests
  pub edges : t'.manifest_blobs ≡ t.manifest_blobs
  pub counts : (r : Text) → count_of r t'.blobs ≡ count_of r t.blobs

link_again :
    (d ref : Text) (es : List Edge) → conflicts d 0 es ≡ true → link_all d 0 (ref ∷ []) es ≡ es
unfolding link_all
link_again d ref es c = rw c refl

-- The defect: registering a manifest of one blob again, as a rebuild or a retry after a crash does,
-- changes no edge but raises the reference count of the blob. From tables whose counts are equal to
-- the numbers of edges, after the manifest is deleted in turn, the blob counts one reference more
-- than it has edges: with no edge left it is still no orphan, and its file is never collected.
pub reindex_leaks :
    (m : Manifest) (path ref : Text) (now : ℕ) (t : Tables)
    → m.inline ≡ false
    → m.blob_refs ≡ ref ∷ []
    → IsCounted t
    → conflicts m.digest 0 t.manifest_blobs ≡ true
    → let u = (delete_manifest all_well m.digest (index_manifest all_well m path now t).1).1 in
      count_of ref u.blobs ≡ suc (edge_count ref u.manifest_blobs)
reindex_leaks m path ref now t i b h c =
    let same : link_all m.digest 0 m.blob_refs t.manifest_blobs ≡ t.manifest_blobs =
      rw b (link_again m.digest ref t.manifest_blobs c) in
    let one : occurs ref m.blob_refs ≡ 1 = rw (b, text_eq_refl ref) refl in
    subst (λ (u : Tables). count_of ref u.blobs ≡ suc (edge_count ref u.manifest_blobs))
      (sym (undone m path ref [] now t i b))
      (rw same (
        count-unbump_all ref (targets_of m.digest t.manifest_blobs)
          (register_refs m path now m.blob_refs t.blobs)
        ∙ omega (
          arith,
          one,
          count-register_refs ref path m now m.blob_refs t.blobs,
          h.counts ref,
          edge_count-unlink ref m.digest t.manifest_blobs,
        )))
