-- ===== src/Index/Deletion.antt =====
-- Registration and deletion of manifests over the whole tables: the reference counts against the
-- edges, and a deletion against the registration before it.
use scrinium.Base.{
  ℕ, ◌+◌, Text, false, List, [], ◌∷◌, ◌≡◌, refl, sym, subst, ◌∙◌, arith, text_eq, Bool-cases,
  Option-cases, ◌⊎◌, inl, inr,
}
use scrinium.Index.{
  Manifest, Tables, Outside, index_manifest, index_blob_manifest, delete_manifest, without_manifest,
  insert_manifest_row, link_all, register_refs, stamp_csn, has_row, targets_of, is_container,
  custom_answer,
}
use scrinium.Index.Edges.{
  edge_count, unlinked-IsFree, edge_count-link_all, targets-link_other, edge_count-unlink,
  targets-unlink, has_row-insert, has_row-stamp, has_row-drop,
}
use scrinium.Index.Counts.{count_of, count-register_refs, count-unbump_all}

-- The reference count of every blob is the number of edges to it, and only a manifest that has a row
-- has edges.
pub record IsCounted (t : Tables) : Type 0 where
  pub counts : (r : Text) → count_of r t.blobs ≡ edge_count r t.manifest_blobs
  pub owned : (d : Text) → has_row d t.manifests ≡ false → targets_of d t.manifest_blobs ≡ []

-- What the registration of a manifest leaves where it commits.
abbrev pub registered : Manifest → Text → ℕ → Tables → Tables
registered m path now t = record t {
  blobs = register_refs m path now m.blob_refs t.blobs;
  manifests = stamp_csn m.digest (t.csn + 1) (insert_manifest_row m now t.manifests);
  manifest_blobs = link_all m.digest 0 m.blob_refs t.manifest_blobs;
  manifest_handles = link_all m.digest 0 m.handle_refs t.manifest_handles;
  csn = t.csn + 1;
}

abbrev registered_inline : Manifest → ℕ → Tables → Tables
registered_inline m now t = record t {
  manifests = stamp_csn m.digest (t.csn + 1) (insert_manifest_row m now t.manifests);
  manifest_handles = link_all m.digest 0 m.handle_refs t.manifest_handles;
  csn = t.csn + 1;
}

refs-cases : (refs : List Text) → (refs ≡ []) ⊎ ((r : Text) × (rs : List Text) × (refs ≡ r ∷ rs))
refs-cases [] = inl refl
refs-cases (r ∷ rs) = inr (r, rs, refl)

-- A registration leaves the tables, or adds an inline manifest, or one with its blobs.
index-cases :
    (x : Outside) (m : Manifest) (path : Text) (now : ℕ) (t : Tables)
    → ((index_manifest x m path now t).1 ≡ t)
      ⊎ (((index_manifest x m path now t).1 ≡ registered_inline m now t)
          ⊎ ((m.inline ≡ false) × ((index_manifest x m path now t).1 ≡ registered m path now t)))
unfolding index_manifest index_blob_manifest
index-cases x m path now t = elim (Option-cases x.sql) [
  | inr (e, f) ↦ inl (ground (arith, f))
  | inl f ↦ (elim (Bool-cases m.inline) [
    | inl i ↦ (elim (Option-cases (custom_answer x (is_container m))) [
      | inr (e, c) ↦ inl (ground (arith, f, i, c))
      | inl c ↦ inr (inl (ground (arith, f, i, c)))
    ])
    | inr i ↦ (elim (refs-cases m.blob_refs) [
      | inl b ↦ inl (ground (arith, f, i, b))
      | inr (ref, refs, b) ↦ (elim (Option-cases (custom_answer x (is_container m))) [
        | inr (e, c) ↦ inl (ground (arith, f, i, b, c))
        | inl c ↦ inr (inr (i, ground (arith, f, i, b, c)))
      ])
    ])
  ])
]

pub registered-IsCounted :
    (m : Manifest) (path : Text) (now : ℕ) (t : Tables)
    → IsCounted t
    → has_row m.digest t.manifests ≡ false
    → IsCounted (registered m path now t)
registered-IsCounted m path now t h fresh = record {
  counts = λ r.
      count-register_refs r path m now m.blob_refs t.blobs
      ∙ omega (
        arith,
        h.counts r,
        edge_count-link_all r m.digest 0 m.blob_refs t.manifest_blobs
            (unlinked-IsFree m.digest t.manifest_blobs (h.owned m.digest fresh)),
      );
  owned = λ d absent.
      let kept = has_row-insert d m now t.manifests (
        sym (has_row-stamp d m.digest (t.csn + 1) (insert_manifest_row m now t.manifests))
        ∙ absent) in
      targets-link_other d m.digest 0 m.blob_refs t.manifest_blobs kept.1 ∙ h.owned d kept.0;
}

inline-IsCounted :
    (m : Manifest) (now : ℕ) (t : Tables) → IsCounted t → IsCounted (registered_inline m now t)
inline-IsCounted m now t h = record {
  counts = h.counts;
  owned = λ d absent.
      h.owned d
        (has_row-insert d m now t.manifests (
          sym (has_row-stamp d m.digest (t.csn + 1) (insert_manifest_row m now t.manifests))
          ∙ absent)).0;
}

pub without-IsCounted : (d : Text) (t : Tables) → IsCounted t → IsCounted (without_manifest d t)
without-IsCounted d t h = record {
  counts = λ r.
      count-unbump_all r (targets_of d t.manifest_blobs) t.blobs
      ∙ omega (arith, h.counts r, edge_count-unlink r d t.manifest_blobs);
  owned = λ d' absent. targets-unlink d' d t.manifest_blobs ∙ (elim (Bool-cases (text_eq d d')) [
    | inl e ↦ rw e refl
    | inr e ↦ rw e (h.owned d' (ground (arith, has_row-drop d' d t.manifests, absent, e)))
  ]);
}

-- A registration of a manifest whose digest has no row keeps the reference counts equal to the
-- numbers of edges, whether it commits, is refused or is rolled back.
pub index_manifest-IsCounted :
    (x : Outside) (m : Manifest) (path : Text) (now : ℕ) (t : Tables)
    → IsCounted t
    → has_row m.digest t.manifests ≡ false
    → IsCounted (index_manifest x m path now t).1
index_manifest-IsCounted x m path now t h fresh = elim (index-cases x m path now t) [
  | inl e ↦ subst IsCounted (sym e) h
  | inr (inl e) ↦ subst IsCounted (sym e) (inline-IsCounted m now t h)
  | inr (inr (i, e)) ↦ subst IsCounted (sym e) (registered-IsCounted m path now t h fresh)
]

delete-cases :
    (x : Outside) (d : Text) (t : Tables)
    → ((delete_manifest x d t).1 ≡ t) ⊎ ((delete_manifest x d t).1 ≡ without_manifest d t)
unfolding delete_manifest
delete-cases x d t = elim (Option-cases x.sql) [
  | inr (e, f) ↦ inl (rw f refl)
  | inl f ↦ (elim (Bool-cases (has_row d t.manifests)) [
    | inr r ↦ inl (rw (f, r) refl)
    | inl r ↦ (elim (Option-cases x.custom) [
      | inr (e, c) ↦ inl (rw (f, r, c) refl)
      | inl c ↦ inr (rw (f, r, c) refl)
    ])
  ])
]

-- A deletion of any digest keeps the reference counts equal to the numbers of edges.
pub delete_manifest-IsCounted :
    (x : Outside) (d : Text) (t : Tables) → IsCounted t → IsCounted (delete_manifest x d t).1
delete_manifest-IsCounted x d t h = elim (delete-cases x d t) [
  | inl e ↦ subst IsCounted (sym e) h
  | inr e ↦ subst IsCounted (sym e) (without-IsCounted d t h)
]
