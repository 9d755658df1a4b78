-- ===== src/Index.antt =====
-- The core tables of engine/index/sqlite: the registration and the deletion of a manifest
-- (manifest.go), the change sequence (csn.go), the lookups (resolve.go, iterate.go) and the
-- maintenance of blobs (maintenance.go). A table is a list of rows; a statement is a function on it.
-- Digests and references are the lowercase hex texts of the domain, which keys.go stores as the bytes
-- that they spell; its error on a text that is not hex is left out.
pub mod Edges
pub mod Counts
pub mod Deletion
pub mod Undo
pub mod Tests
use scrinium.Base.{
  to_second, ℕ, zero, suc, ◌+◌, ◌-◌, Text, Bool, true, false, not, ◌&&◌, ◌||◌, Option, none, some,
  List, [], ◌∷◌, ◌++◌, ◌⊎◌, inl, inr, codes, ltb, ◌==◌, text_eq, if◌then◌else◌,
}
use scrinium.Layout.{to_lower}

-- domain.PipelineStage
pub record Stage : Type 0 where
  pub algorithm : Text
  pub key_id : Text

unfoldable pub is_crypto_algorithm : Text → Bool
is_crypto_algorithm algo =
    text_eq (to_lower algo) (codes "aes-gcm") || text_eq (to_lower algo) (codes "chacha20-poly1305")

abbrev identity_from : Text → List Stage → Text
identity_from id [] = id
identity_from id (s ∷ rest) =
    identity_from (if is_crypto_algorithm s.algorithm then s.algorithm ++ (b'/' ∷ s.key_id) else id)
      rest

unfoldable pub crypto_identity_of : List Stage → Text
crypto_identity_of stages = identity_from [] stages

-- The fields of domain.Manifest that the tables use. An empty identity is the empty text.
pub record Manifest : Type 0 where
  pub artifact_id : Text
  pub name : Text
  pub digest : Text
  pub session_id : Text
  pub created_at : Option ℕ
  pub retention_until : Option ℕ
  pub content_hash : Text
  pub original_size : ℕ
  pub blob_refs : List Text
  pub handle_refs : List Text
  pub inline : Bool
  pub pipeline : List Stage

unfoldable pub is_container : Manifest → Bool
is_container m = text_eq m.artifact_id [] && text_eq m.name []

-- A row of `blobs`.
pub record BlobRow : Type 0 where
  pub blob_ref : Text
  pub content_hash : Text
  pub original_size : ℕ
  pub crypto_identity : Text
  pub physical_path : Text
  pub ref_count : ℕ
  pub last_verified_at : Option ℕ
  pub created_at : ℕ

-- A row of `manifests`; a column that is NULL is none.
pub record ManifestRow : Type 0 where
  pub manifest_digest : Text
  pub artifact_id : Option Text
  pub session_id : Text
  pub blob_ref : Option Text
  pub created_at : ℕ
  pub retention_until : Option ℕ
  pub last_verified_at : Option ℕ
  pub csn : ℕ

-- A row of `manifest_blobs`, and of `manifest_handles`.
pub record Edge : Type 0 where
  pub manifest_digest : Text
  pub target : Text
  pub position : ℕ

pub record Tables : Type 0 where
  pub blobs : List BlobRow
  pub manifests : List ManifestRow
  pub manifest_blobs : List Edge
  pub manifest_handles : List Edge
  pub csn : ℕ
  pub prune_csn : ℕ

pub data IndexError : Type 0 where
  no_blob_refs not_present_after_upsert artifact_not_found : IndexError
  sql_error : ℕ → IndexError
  custom_index : ℕ → IndexError

unfoldable pub find_blob : Text → List BlobRow → Option BlobRow
find_blob ref [] = none
find_blob ref (b ∷ bs) =
    let rest = find_blob ref bs in if text_eq b.blob_ref ref then some b else rest

-- INSERT INTO blobs ... ON CONFLICT(blob_ref) DO NOTHING
unfoldable pub insert_blob : BlobRow → List BlobRow → List BlobRow
insert_blob row bs = elim (find_blob row.blob_ref bs) [ none ↦ bs ++ (row ∷ []) | some _ ↦ bs ]

abbrev pub set_count : ℕ → BlobRow → BlobRow
set_count n b = record b { ref_count = n }

-- UPDATE blobs SET ref_count = ref_count + 1 WHERE blob_ref = ?
unfoldable pub bump : Text → List BlobRow → List BlobRow
bump ref [] = []
bump ref (b ∷ bs) =
    let rest = bump ref bs in
    if text_eq b.blob_ref ref then set_count (b.ref_count + 1) b ∷ rest else b ∷ rest

-- UPDATE blobs SET ref_count = ref_count - 1 WHERE blob_ref = ? AND ref_count > 0
unfoldable pub unbump : Text → List BlobRow → List BlobRow
unbump ref [] = []
unbump ref (b ∷ bs) =
    let rest = unbump ref bs in
    if text_eq b.blob_ref ref && ltb 0 b.ref_count
    then set_count (b.ref_count - 1) b ∷ rest
    else b ∷ rest

abbrev pub blob_row : Manifest → Text → ℕ → Text → BlobRow
blob_row m path now ref = record {
  blob_ref = ref;
  content_hash = m.content_hash;
  original_size = m.original_size;
  crypto_identity = crypto_identity_of m.pipeline;
  physical_path = path;
  ref_count = 0;
  last_verified_at = none;
  created_at = to_second now;
}

-- The loop of indexBlobManifest over the references. The upsert leaves a row for the update, so its
-- count of changed rows is never 0.
unfoldable pub register_refs : Manifest → Text → ℕ → List Text → List BlobRow → List BlobRow
register_refs m path now [] bs = bs
register_refs m path now (ref ∷ refs) bs =
    register_refs m path now refs (bump ref (insert_blob (blob_row m path now ref) bs))

unfoldable pub has_row : Text → List ManifestRow → Bool
has_row d [] = false
has_row d (r ∷ rs) = text_eq r.manifest_digest d || has_row d rs

-- NULL for an empty text.
abbrev nullable : Text → Option Text
nullable [] = none
nullable (c ∷ s) = some (c ∷ s)

abbrev first_ref : List Text → Option Text
first_ref [] = none
first_ref (ref ∷ refs) = nullable ref

abbrev pub or_else : {A : Type 0} → A → Option A → A
or_else a none = a
or_else a (some b) = b

-- A time that is not zero is stored in whole seconds.
abbrev stored_time : Option ℕ → Option ℕ
stored_time none = none
stored_time (some t) = some (to_second t)

abbrev pub manifest_row : Manifest → ℕ → ManifestRow
manifest_row m now = record {
  manifest_digest = m.digest;
  artifact_id = nullable m.artifact_id;
  session_id = m.session_id;
  blob_ref = if m.inline then none else first_ref m.blob_refs;
  created_at = to_second (or_else now m.created_at);
  retention_until = stored_time m.retention_until;
  last_verified_at = none;
  csn = 0;
}

-- insertManifestRow: ON CONFLICT(manifest_digest) DO NOTHING
unfoldable pub insert_manifest_row : Manifest → ℕ → List ManifestRow → List ManifestRow
insert_manifest_row m now rs = if has_row m.digest rs then rs else rs ++ (manifest_row m now ∷ [])

-- PRIMARY KEY (manifest_digest, position)
unfoldable pub conflicts : Text → ℕ → List Edge → Bool
conflicts d pos [] = false
conflicts d pos (e ∷ es) = (text_eq e.manifest_digest d && e.position == pos) || conflicts d pos es

-- The loops over the references of linkBlob and linkManifestToHandle: ON CONFLICT DO NOTHING.
unfoldable pub link_all : Text → ℕ → List Text → List Edge → List Edge
link_all d pos [] es = es
link_all d pos (ref ∷ refs) es = link_all d (pos + 1) refs (
    if conflicts d pos es
    then es
    else es ++ (record { manifest_digest = d; target = ref; position = pos } ∷ []))

-- indexBlobManifest
unfoldable pub index_blob_manifest : Manifest → Text → ℕ → Tables → IndexError ⊎ Tables
index_blob_manifest m path now t =
    if m.inline
    then inr (record t { manifests = insert_manifest_row m now t.manifests })
    else (elim m.blob_refs [
      | [] ↦ inl no_blob_refs
      | ref ∷ refs ↦ inr (record t {
        blobs = register_refs m path now m.blob_refs t.blobs;
        manifests = insert_manifest_row m now t.manifests;
        manifest_blobs = link_all m.digest 0 m.blob_refs t.manifest_blobs;
      })
    ])

-- UPDATE manifests SET csn = ? WHERE manifest_digest = ?
unfoldable pub stamp_csn : Text → ℕ → List ManifestRow → List ManifestRow
stamp_csn d c [] = []
stamp_csn d c (r ∷ rs) =
    let rest = stamp_csn d c rs in
    if text_eq r.manifest_digest d then record r { csn = c } ∷ rest else r ∷ rest

-- The failures from outside the tables: a statement that SQLite refuses, and what the indexers and
-- the subscribed custom indexes answer. Either rolls the transaction back.
pub record Outside : Type 0 where
  pub sql : Option IndexError
  pub custom : Option IndexError

-- inTx: what fails leaves the tables as they were.
abbrev pub committed : Tables → IndexError ⊎ Tables → Option IndexError × Tables
committed t (inl e) = (some e, t)
committed t (inr t') = (none, t')

abbrev failing : {A : Type 0} → Option IndexError → IndexError ⊎ A → IndexError ⊎ A
failing none r = r
failing (some e) r = inl e

abbrev pub custom_answer : Outside → Bool → Option IndexError
custom_answer x true = none
custom_answer x false = x.custom

abbrev then_tables : IndexError ⊎ Tables → (Tables → IndexError ⊎ Tables) → IndexError ⊎ Tables
then_tables (inl e) f = inl e
then_tables (inr t) f = f t

-- indexManifestTx
unfoldable pub index_manifest : Outside → Manifest → Text → ℕ → Tables → Option IndexError × Tables
index_manifest x m path now t = committed t (
    failing x.sql (
      then_tables (index_blob_manifest m path now t) (λ u.
        failing (custom_answer x (is_container m)) (
          inr (record u {
            manifest_handles = link_all m.digest 0 m.handle_refs u.manifest_handles;
            csn = u.csn + 1;
            manifests = stamp_csn m.digest (u.csn + 1) u.manifests;
          })))))

unfoldable pub targets_of : Text → List Edge → List Text
targets_of d [] = []
targets_of d (e ∷ es) =
    let rest = targets_of d es in if text_eq e.manifest_digest d then e.target ∷ rest else rest

unfoldable pub unlink : Text → List Edge → List Edge
unlink d [] = []
unlink d (e ∷ es) = let rest = unlink d es in if text_eq e.manifest_digest d then rest else e ∷ rest

unfoldable pub unbump_all : List Text → List BlobRow → List BlobRow
unbump_all [] bs = bs
unbump_all (ref ∷ refs) bs = unbump_all refs (unbump ref bs)

unfoldable pub drop_row : Text → List ManifestRow → List ManifestRow
drop_row d [] = []
drop_row d (r ∷ rs) =
    let rest = drop_row d rs in if text_eq r.manifest_digest d then rest else r ∷ rest

-- The rows that deleteManifestTx deletes and updates, with nextCSN and markPrune.
abbrev pub without_manifest : Text → Tables → Tables
without_manifest d t = record {
  blobs = unbump_all (targets_of d t.manifest_blobs) t.blobs;
  manifests = drop_row d t.manifests;
  manifest_blobs = unlink d t.manifest_blobs;
  manifest_handles = unlink d t.manifest_handles;
  csn = t.csn + 1;
  prune_csn = t.csn + 1;
}

-- deleteManifestTx; a digest that has no row is no error.
unfoldable pub delete_manifest : Outside → Text → Tables → Option IndexError × Tables
delete_manifest x d t = committed t (
    failing x.sql
      (if has_row d t.manifests then failing x.custom (inr (without_manifest d t)) else inr t))

-- Resolve
unfoldable pub resolve : Text → Tables → Option Text
resolve ref t = elim (find_blob ref t.blobs) [ none ↦ none | some b ↦ some b.physical_path ]

abbrev same_content : Text → ℕ → Text → BlobRow → Bool
same_content hash size crypto b =
    text_eq b.content_hash hash && (b.original_size == size) && text_eq b.crypto_identity crypto

-- ExistsByContent, with the first row where several match.
unfoldable pub exists_by_content : Text → ℕ → Text → List BlobRow → Option Text
exists_by_content hash size crypto [] = none
exists_by_content hash size crypto (b ∷ bs) =
    let rest = exists_by_content hash size crypto bs in
    if same_content hash size crypto b then some b.blob_ref else rest

-- ListOrphanBlobs, less its ORDER BY.
unfoldable pub orphan_blobs : List BlobRow → List Text
orphan_blobs [] = []
orphan_blobs (b ∷ bs) =
    let rest = orphan_blobs bs in if b.ref_count == 0 then b.blob_ref ∷ rest else rest

-- DeleteOrphanBlob, with whether a row was removed.
unfoldable pub drop_orphan : Text → List BlobRow → Bool × List BlobRow
drop_orphan ref [] = (false, [])
drop_orphan ref (b ∷ bs) =
    let rest = drop_orphan ref bs in
    if text_eq b.blob_ref ref && b.ref_count == 0 then (true, rest.1) else (rest.0, b ∷ rest.1)
