-- ===== src/Index/Tests.antt =====
-- The tables at concrete inputs: one manifest of one blob, and a composite that names a blob twice.
use scrinium.Base.{suc, text_eq, false, none, [], ◌∷◌, ◌≡◌, refl, codes}
use scrinium.Index.{
  Manifest, Tables, index_manifest, delete_manifest, has_row, conflicts, find_blob, targets_of,
  insert_manifest_row, link_all, stamp_csn, index_blob_manifest, is_container,
}
use scrinium.Index.Edges.{edge_count}
use scrinium.Index.Counts.{count_of}
use scrinium.Index.Deletion.{IsCounted, index_manifest-IsCounted, delete_manifest-IsCounted}
use scrinium.Index.Undo.{all_well, reindex_leaks}

abbrev pub empty_tables : Tables
empty_tables = record {
  blobs = [];
  manifests = [];
  manifest_blobs = [];
  manifest_handles = [];
  csn = 0;
  prune_csn = 0;
}

empty_tables-IsCounted : IsCounted empty_tables
unfolding find_blob targets_of
empty_tables-IsCounted = record { counts = λ r. refl; owned = λ d h. refl }

abbrev pub loose : Manifest
loose = record {
  artifact_id = codes "sha256-aa";
  name = [];
  digest = codes "d1";
  session_id = codes "s";
  created_at = none;
  retention_until = none;
  content_hash = codes "c1";
  original_size = 5;
  blob_refs = codes "b1" ∷ [];
  handle_refs = [];
  inline = false;
  pipeline = [];
}

abbrev composite : Manifest
composite = record loose {
  digest = codes "d2";
  blob_refs = codes "b1" ∷ codes "b2" ∷ codes "b1" ∷ [];
}

abbrev one_manifest : Tables
one_manifest = (index_manifest all_well loose (codes "blobs/b1") 9 empty_tables).1

one_manifest-IsCounted : IsCounted one_manifest
unfolding has_row
one_manifest-IsCounted =
    index_manifest-IsCounted all_well loose (codes "blobs/b1") 9 empty_tables empty_tables-IsCounted
      refl

index_manifest-IsCounted_example :
    IsCounted (index_manifest all_well composite (codes "blobs/b1") 9 one_manifest).1
unfolding has_row text_eq index_manifest index_blob_manifest insert_manifest_row stamp_csn
    is_container
index_manifest-IsCounted_example =
    index_manifest-IsCounted all_well composite (codes "blobs/b1") 9 one_manifest
      one_manifest-IsCounted refl

delete_manifest-IsCounted_example : IsCounted (delete_manifest all_well (codes "d1") one_manifest).1
delete_manifest-IsCounted_example =
    delete_manifest-IsCounted all_well (codes "d1") one_manifest one_manifest-IsCounted

reindex_leaks_example :
    let u =
      (delete_manifest all_well
        (codes "d1")
        (index_manifest all_well loose (codes "blobs/b1") 10 one_manifest).1).1 in
    count_of (codes "b1") u.blobs ≡ suc (edge_count (codes "b1") u.manifest_blobs)
unfolding has_row text_eq index_manifest index_blob_manifest insert_manifest_row stamp_csn
    is_container conflicts link_all
reindex_leaks_example =
    reindex_leaks loose (codes "blobs/b1") (codes "b1") 10 one_manifest refl refl
      one_manifest-IsCounted refl
