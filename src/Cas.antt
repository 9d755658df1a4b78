-- ===== src/Cas.antt =====
-- engine/internal/cas: the commit of a staged blob (write.go) and the opening of a committed one
-- (read.go), over the site and the schedules of Collector.
pub mod Commit
mod Tests
use scrinium.Base.{
  ℕ, Text, Bool, true, false, Option, none, some, [], ◌∷◌, ◌⊎◌, inl, inr, if◌then◌else◌, text_eq,
  lookup, set, erase,
}
use scrinium.Layout.{LayoutError, PathTopology, regular, blob_path}
use scrinium.Index.{exists_by_content}
use scrinium.Collector.{
  World, File, Error, artifact_not_found, Result, ok, err, Address, turn, unless_fault, on_site,
  with_files, resolve,
}

pub data CasError : Type 0 where
  storage : Error → CasError
  bad_path : LayoutError → CasError
  not_there corrupted_blob : CasError

pub data Outcome (A : Type 0) : Type 0 where
  done : A → Outcome A
  failed : CasError → Outcome A

-- Driver.Remove; a missing file is no error.
unfoldable pub remove_file : Text → World → Result (Unit {0}) × World
remove_file p w =
    unless_fault (turn w) (λ v. (ok tt, on_site (λ s. with_files (erase p s.files) s) v))

-- Driver.Rename: none where there is nothing to rename.
unfoldable pub rename_file : Text → Text → World → Result (Option (Unit {0})) × World
rename_file p q w = unless_fault (turn w) (λ v. elim (lookup p v.site.files) [
  | none ↦ (ok none, v)
  | some f ↦ (ok (some tt), on_site (λ s. with_files (set q f (erase p s.files)) s) v)
])

-- Driver.Get: none where there is no file.
unfoldable pub get_file : Text → World → Result (Option File) × World
get_file p w = unless_fault (turn w) (λ v. (ok (lookup p v.site.files), v))

unfoldable pub probe_content : Text → ℕ → World → Result (Option Text) × World
probe_content hash size w =
    unless_fault (turn w) (λ v. (ok (exists_by_content hash size [] v.site.index.blobs), v))

abbrev as_probe : Text → Result Address → Result (Option Text)
as_probe ref (ok _) = ok (some ref)
as_probe ref (err artifact_not_found) = ok none
as_probe ref (err e) = err e

unfoldable pub probe_ref : Text → World → Result (Option Text) × World
probe_ref ref w = let (r, v) = resolve ref w in (as_probe ref r, v)

-- dedupProbe
unfoldable pub dedup_probe : Text → ℕ → Text → Text → World → Result (Option Text) × World
dedup_probe hash size ref [] w = probe_content hash size w
dedup_probe hash size ref (c ∷ crypto) w = probe_ref ref w

-- `_ = e.drv.Remove(ctx, stagingPath)`, and the error.
unfoldable pub give_up : Text → CasError → World → Outcome (Text × Address) × World
give_up staging e w = let (r, v) = remove_file staging w in (failed e, v)

-- The branch of commitBlob for a blob that is there already.
unfoldable pub share_blob : Text → Text → World → Outcome (Text × Address) × World
share_blob staging existing w =
    let (r, v) = remove_file staging w in
    elim r [
      | err e ↦ (failed (storage e), v)
      | ok _ ↦
          (let (a, u) = resolve existing v in
            (elim a [ err e ↦ failed (storage e) | ok addr ↦ done (existing, addr) ], u))
    ]

-- The branch of commitBlob that renames the staged file into its place.
unfoldable pub place_blob : PathTopology → Text → Text → World → Outcome (Text × Address) × World
place_blob topology staging ref w = elim (blob_path topology regular ref) [
  | inl e ↦ give_up staging (bad_path e) w
  | inr final ↦
      (let (r, v) = rename_file staging final w in
        elim r [
          | err e ↦ give_up staging (storage e) v
          | ok none ↦ give_up staging not_there v
          | ok (some _) ↦ (done (ref, record { path = final; size = 0 }), v)
        ])
]

unfoldable pub commit_blob :
    PathTopology → Text → Text → ℕ → Text → Text → World → Outcome (Text × Address) × World
commit_blob topology staging hash size ref crypto w =
    let (found, v) = dedup_probe hash size ref crypto w in
    elim found [
      | err e ↦ give_up staging (storage e) v
      | ok none ↦ place_blob topology staging ref v
      | ok (some existing) ↦ share_blob staging existing v
    ]

abbrev pub opened : Result (Option File) → Outcome Text
opened (err e) = failed (storage e)
opened (ok none) = failed corrupted_blob
opened (ok (some f)) = done f.body

-- openRawBlob of a blob that is not inline.
unfoldable pub open_raw_blob : Text → World → Outcome Text × World
open_raw_blob ref w =
    let (a, v) = resolve ref w in
    elim a [
      | err e ↦ (failed (storage e), v)
      | ok addr ↦ (let (r, u) = get_file addr.path v in (opened r, u))
    ]
