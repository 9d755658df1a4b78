-- ===== src/Cas/Tests.antt =====
-- The commit at concrete inputs: a new blob, and the content of an orphan that was marked.
use scrinium.Base.{none, [], ◌∷◌, ◌≡◌, inr, refl, codes, text_eq, lookup}
use scrinium.Layout.{blob_path, flat, regular, place, root_for}
use scrinium.Index.{Manifest, find_blob, exists_by_content}
use scrinium.Index.Tests.{empty_tables, loose}
use scrinium.Collector.{Site, mark_site, turn}
use scrinium.Collector.Grace.{quiet}
use scrinium.Collector.Tests.{row_of, written}
use scrinium.Cas.{
  commit_blob, open_raw_blob, done, failed, corrupted_blob, dedup_probe, probe_content,
}
use scrinium.Cas.Commit.{commit-open, commit_lost, registering}

abbrev staged : Site
staged = record { files = (codes "staging/1", written 10) ∷ []; markers = []; index = empty_tables }

abbrev of_blob : Manifest
of_blob = record loose { blob_refs = codes "ab12" ∷ [] }

path : blob_path flat regular (codes "ab12") ≡ inr (codes "blobs/ab12")
unfolding blob_path place text_eq root_for
path = refl

commit-open_example :
    let (r, v) =
      commit_blob flat (codes "staging/1") (codes "c1") 3 (codes "ab12") [] (quiet staged 100) in
    (r ≡ done (codes "ab12", record { path = codes "blobs/ab12"; size = 0 }))
    × ((open_raw_blob (codes "ab12") (registering of_blob (codes "blobs/ab12") 100 v)).0
        ≡ done (codes "abc"))
unfolding dedup_probe probe_content turn exists_by_content find_blob lookup text_eq
commit-open_example =
    commit-open flat (codes "staging/1") (codes "c1") (codes "ab12") [] (codes "blobs/ab12") 3 100
      (written 10) of_blob staged refl path refl refl refl refl

-- The orphan "ab12" of the content "ab12", and the same content staged again.
abbrev orphan_and_staged : Site
orphan_and_staged = record {
  files = (codes "blobs/ab12", written 10) ∷ (codes "staging/1", written 90) ∷ [];
  markers = [];
  index = record empty_tables { blobs = row_of (codes "ab12") (codes "blobs/ab12") 0 ∷ [] };
}

commit_lost_example :
    let (o, v) =
      commit_blob flat
        (codes "staging/1")
        (codes "ab12")
        3
        (codes "ab12")
        []
        (quiet (mark_site (codes "blobs/ab12") 100 orphan_and_staged) 100) in
    (o ≡ done (codes "ab12", record { path = codes "blobs/ab12"; size = 0 }))
    × (lookup (codes "staging/1") v.site.files ≡ none)
    × ((open_raw_blob (codes "ab12") (registering of_blob (codes "blobs/ab12") 100 v)).0
        ≡ failed corrupted_blob)
unfolding exists_by_content find_blob text_eq
commit_lost_example =
    commit_lost flat (codes "staging/1") (codes "ab12") (codes "ab12") (codes "ab12") 3 100
      (row_of (codes "ab12") (codes "blobs/ab12") 0) of_blob orphan_and_staged refl refl refl refl
