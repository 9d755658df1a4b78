-- ===== src/Named/Versions.antt =====
-- The operations of version.go over all versions of a name: ListVersions, Prune and RemoveAll.
pub mod Kept
use scrinium.Base.{
  ℕ, zero, suc, ◌-◌, ◌+◌, Text, Bool, true, false, Option, none, some, List, [], ◌∷◌, ◌++◌, ltb,
  leb, ◌==◌, if◌then◌else◌, length, take, drop, text_eq, has_prefix,
}
use scrinium.Cut.{cut_last}
use scrinium.Driver.{
  Error, Result, ok, err, not_exist, World, Exec, pure, ◌>>=◌, ◌>>◌, list_objects, remove,
}
use scrinium.Named.{
  validate_name, lift, scan_seqs, version_path, parse_seq, root_slash, dot, cell_leaf,
  remove_if_there,
}

-- sort.Slice by `<`.
unfoldable pub insert_seq : ℕ → List ℕ → List ℕ
insert_seq n [] = n ∷ []
insert_seq n (m ∷ ms) = let rest = insert_seq n ms in if leb n m then n ∷ m ∷ ms else m ∷ rest

unfoldable pub sort_seqs : List ℕ → List ℕ
sort_seqs [] = []
sort_seqs (n ∷ ns) = insert_seq n (sort_seqs ns)

unfoldable pub list_versions : Text → Exec (List ℕ)
list_versions name = do lift (validate_name name); seqs ← scan_seqs name; pure (sort_seqs seqs)

-- The loop of Prune and of RemoveAll: no failure stops it; the failures are collected in their order.
unfoldable pub remove_versions : Text → List ℕ → World → List Error × World
remove_versions name [] w = ([], w)
remove_versions name (seq ∷ seqs) w =
    let (r, w') = (lift (version_path name seq) >>= remove_if_there) w in
    let (es, w'') = remove_versions name seqs w' in (elim r [ ok _ ↦ es | err e ↦ e ∷ es ], w'')

-- errors.Join
pub data Joined : Type 0 where
  all_removed : Joined
  failed_early : Error → Joined
  failures : Error → List Error → Joined

abbrev join_errors : List Error → Joined
join_errors [] = all_removed
join_errors (e ∷ es) = failures e es

abbrev at_least_one : ℕ → ℕ
at_least_one keep = if ltb keep 1 then 1 else keep

-- Prune; a keep that is not positive is 0.
unfoldable pub prune : Text → ℕ → World → Joined × World
prune name keep w =
    let (r, w') = list_versions name w in
    elim r [
      | err e ↦ (failed_early e, w')
      | ok seqs ↦
          if leb (length seqs) (at_least_one keep)
          then (all_removed, w')
          else (let (es, w'') =
                remove_versions name (take (length seqs - at_least_one keep) seqs) w' in
              (join_errors es, w''))
    ]

unfoldable pub remove_all : Text → World → Joined × World
remove_all name w =
    let (r, w') = list_versions name w in
    elim r [
      | err e ↦ (failed_early e, w')
      | ok seqs ↦ (let (es, w'') = remove_versions name seqs w' in (join_errors es, w''))
    ]
