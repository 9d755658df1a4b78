-- ===== src/Cas/Commit.antt =====
-- The commit of a blob, the registration of its manifest and the opening of the blob, one after the
-- other on a Location that nothing else touches.
use scrinium.Base.{
  ℕ, ◌+◌, Text, false, Option, none, some, List, [], ◌∷◌, ◌≡◌, refl, ap, ◌∙◌, inl, inr, arith,
  text_eq, text_eq_refl, Bool-cases, Option-cases, lookup, set, erase, lookup-set, lookup-erase,
}
use scrinium.Layout.{PathTopology, regular, blob_path}
use scrinium.Index.{
  Manifest, BlobRow, Tables, find_blob, exists_by_content, index_manifest, insert_blob, bump,
  blob_row, register_refs,
}
use scrinium.Index.Counts.{find-append, insert_known, insert_new}
use scrinium.Index.Undo.{all_well, index_committed}
use scrinium.Collector.{World, Site, File, ok, turn, resolve, mark_site, on_site, with_files}
use scrinium.Collector.Grace.{quiet}
use scrinium.Collector.Passes.{mark_site-index}
use scrinium.Cas.{
  done, failed, corrupted_blob, remove_file, rename_file, get_file, probe_content, dedup_probe,
  share_blob, place_blob, commit_blob, open_raw_blob, opened,
}

-- The path of a blob after its reference was registered once more.
find-bump :
    (r : Text) (bs : List BlobRow) (b : BlobRow)
    → find_blob r bs ≡ some b
    → (c : BlobRow) × (find_blob r (bump r bs) ≡ some c) × (c.physical_path ≡ b.physical_path)
unfolding find_blob bump
find-bump r [] b h = ground (arith, h)
find-bump r (a ∷ bs) b h = elim (Bool-cases (text_eq a.blob_ref r)) [
  | inl e ↦ (record a { ref_count = a.ref_count + 1 }, rw (e, e) refl, ground (arith, h, e))
  | inr e ↦ let (c, f, p) = find-bump r bs b (rw e at h) in (c, rw (e, e) f, p)
]

-- The world with the manifest registered.
abbrev pub registering : Manifest → Text → ℕ → World → World
registering m path now w =
    on_site (λ s. record s { index = (index_manifest all_well m path now s.index).1 }) w

abbrev path_or : Text → Option BlobRow → Text
path_or path none = path
path_or path (some b) = b.physical_path

inserted_row :
    (m : Manifest) (r path : Text) (now : ℕ) (bs : List BlobRow) (o : Option BlobRow)
    → find_blob r bs ≡ o
    → (c : BlobRow) × (find_blob r (insert_blob (blob_row m path now r) bs) ≡ some c)
      × (c.physical_path ≡ path_or path o)
inserted_row m r path now bs (some b) h =
    (b, rw (insert_known (blob_row m path now r) b bs h) h, refl)
inserted_row m r path now bs none h = (
  blob_row m path now r,
  rw (insert_new (blob_row m path now r) bs h)
      (find-append r (blob_row m path now r) bs ∙ rw (h, text_eq_refl r) refl),
  refl,
)

-- After the registration of a manifest of one blob the blob's row has the path that it had, or the
-- path of the registration where it had no row.
registered_row :
    (m : Manifest) (r path : Text) (now : ℕ) (t : Tables) (o : Option BlobRow)
    → m.inline ≡ false
    → m.blob_refs ≡ r ∷ []
    → find_blob r t.blobs ≡ o
    → (c : BlobRow) × (find_blob r (index_manifest all_well m path now t).1.blobs ≡ some c)
      × (c.physical_path ≡ path_or path o)
registered_row m r path now t o i refs h =
    let (c, f, p) = inserted_row m r path now t.blobs o h in
    let (d, g, q) = find-bump r (insert_blob (blob_row m path now r) t.blobs) c f in
    let one : register_refs m path now m.blob_refs t.blobs
        ≡ bump r (insert_blob (blob_row m path now r) t.blobs) =
      unfold register_refs in rw refs refl in
    (d, rw (index_committed m path r [] now t i refs) (ap (λ bs. find_blob r bs) one ∙ g), q ∙ p)

-- The opening of a blob whose row leads to a path.
open_at :
    (r path : Text) (c : BlobRow) (w : World)
    → w.turns ≡ []
    → find_blob r w.site.index.blobs ≡ some c
    → c.physical_path ≡ path
    → (open_raw_blob r w).0 ≡ opened (ok (lookup path w.site.files))
unfolding open_raw_blob resolve get_file turn
open_at r path c w q h p = ground (arith, q, h, p)

gone : (p : Text) (n : ℕ) (s : Site) → lookup p (mark_site p n s).files ≡ none
unfolding mark_site
gone p n s = elim (Option-cases (lookup p s.markers)) [
  | inr (f, h) ↦ rw (mark_site, h) (lookup-erase p p s.files ∙ rw (text_eq_refl p) refl)
  | inl h ↦ (elim (Option-cases (lookup p s.files)) [
    | inr (f, k) ↦ rw (mark_site, h, k) (lookup-erase p p s.files ∙ rw (text_eq_refl p) refl)
    | inl k ↦ rw (mark_site, h, k) k
  ])
]

erased : (p q : Text) (fs : List (Text × File)) → lookup p fs ≡ none → lookup p (erase q fs) ≡ none
erased p q fs h =
    lookup-erase q p fs ∙ (elim (Bool-cases (text_eq q p)) [ inl e ↦ rw e refl | inr e ↦ rw e h ])

-- A blob that is not there yet is placed.
placed :
    (topology : PathTopology) (staging hash ref crypto final : Text) (size now : ℕ) (f : File)
    (s : Site)
    → dedup_probe hash size ref crypto (quiet s now) ≡ (ok none, quiet s now)
    → blob_path topology regular ref ≡ inr final
    → lookup staging s.files ≡ some f
    → commit_blob topology staging hash size ref crypto (quiet s now) ≡ (
      done (ref, record { path = final; size = 0 }),
      quiet (with_files (set final f (erase staging s.files)) s) now,
    )
unfolding commit_blob place_blob rename_file turn
placed topology staging hash ref crypto final size now f s miss path there =
    ground (arith, miss, path, there)

-- A blob with a row of the same content is shared: the staged file goes.
shared :
    (topology : PathTopology) (staging hash ref : Text) (size now : ℕ) (r : Text) (b : BlobRow)
    (s : Site)
    → exists_by_content hash size [] s.index.blobs ≡ some r
    → find_blob r s.index.blobs ≡ some b
    → commit_blob topology staging hash size ref [] (quiet s now) ≡ (
      done (r, record { path = b.physical_path; size = 0 }),
      quiet (with_files (erase staging s.files) s) now,
    )
unfolding commit_blob dedup_probe probe_content share_blob remove_file resolve turn
shared topology staging hash ref size now r b s hit row = ground (arith, hit, row)

-- A new blob is read back. The commit of a staged file whose content the probe does not find places
-- it at the path of its reference, and once a manifest of that blob is registered, opening the
-- reference gives the staged bytes. The reference had no row, and nothing else touches the Location.
pub commit-open :
    (topology : PathTopology) (staging hash ref crypto final : Text) (size now : ℕ) (f : File)
    (m : Manifest) (s : Site)
    → dedup_probe hash size ref crypto (quiet s now) ≡ (ok none, quiet s now)
    → blob_path topology regular ref ≡ inr final
    → lookup staging s.files ≡ some f
    → find_blob ref s.index.blobs ≡ none
    → m.inline ≡ false
    → m.blob_refs ≡ ref ∷ []
    → let (r, v) = commit_blob topology staging hash size ref crypto (quiet s now) in
      (r ≡ done (ref, record { path = final; size = 0 }))
      × ((open_raw_blob ref (registering m final now v)).0 ≡ done f.body)
commit-open topology staging hash ref crypto final size now f m s miss path there new i refs =
    let (c, row, at_path) = registered_row m ref final now s.index none i refs new in
    rw (placed topology staging hash ref crypto final size now f s miss path there) (
      refl,
      open_at ref final c
            (registering m final now
              (quiet (with_files (set final f (erase staging s.files)) s) now))
            refl row at_path
          ∙ rw (lookup-set final final f (erase staging s.files), text_eq_refl final) refl,
    )

-- The defect: a blob that has lost its last reference is still found by its content after the
-- collector has marked it. A Put of the same content then reports the commit of that blob and drops
-- the staged file, although the blob's file is gone; once the manifest is registered the blob has a
-- reference again, and opening it fails as corrupted. For any content without encryption that
-- ExistsByContent finds in a row whose path has been marked.
pub commit_lost :
    (topology : PathTopology) (staging hash ref r : Text) (size now : ℕ) (b : BlobRow)
    (m : Manifest) (s : Site)
    → exists_by_content hash size [] s.index.blobs ≡ some r
    → find_blob r s.index.blobs ≡ some b
    → m.inline ≡ false
    → m.blob_refs ≡ r ∷ []
    → let (o, v) =
        commit_blob topology staging hash size ref []
          (quiet (mark_site b.physical_path now s) now) in
      (o ≡ done (r, record { path = b.physical_path; size = 0 }))
      × (lookup staging v.site.files ≡ none)
      × ((open_raw_blob r (registering m b.physical_path now v)).0 ≡ failed corrupted_blob)
commit_lost topology staging hash ref r size now b m s hit row i refs =
    let t : Site = mark_site b.physical_path now s in
    let same : t.index ≡ s.index = mark_site-index b.physical_path now s in
    let hit' = ap (λ (x : Tables). exists_by_content hash size [] x.blobs) same ∙ hit in
    let row' = ap (λ (x : Tables). find_blob r x.blobs) same ∙ row in
    let (c, found, at_path) = registered_row m r b.physical_path now t.index (some b) i refs row' in
    rw (shared topology staging hash ref size now r b t hit' row') (
      refl,
      lookup-erase staging staging t.files ∙ rw (text_eq_refl staging) refl,
      open_at r b.physical_path c
            (registering m b.physical_path now (quiet (with_files (erase staging t.files) t) now))
            refl found at_path
          ∙ rw (erased b.physical_path staging t.files (gone b.physical_path now s)) refl,
    )
