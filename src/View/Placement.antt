-- ===== src/View/Placement.antt =====
-- The paths that artifacts get (helpers.go, construct.go, options.go) and the filter (backfill.go).
use scrinium.Base.{
  ℕ, Text, Bool, true, false, Option, none, some, List, [], ◌∷◌, ◌++◌, ltb, if◌then◌else◌, length,
  take, drop, codes, text_eq, has_prefix, not, ◌&&◌,
}
use scrinium.Cut.{cut_first}
use scrinium.Pathx.{slash, last_of}
use scrinium.View.Nodes.{Manifest}

unfoldable pub hash_part : Text → Text
hash_part id = elim (cut_first b'-' id) [ none ↦ id | some (_, after) ↦ after ]

abbrev pub shard_segment_len : ℕ
shard_segment_len = 2

abbrev pub shard_prefix_len : ℕ
shard_prefix_len = 4

abbrev pub short_id_len : ℕ
short_id_len = 16

-- The two shards of a name of at least four bytes, before `rest`.
abbrev sharded : Text → Text → Text
sharded name rest =
    take shard_segment_len name
    ++ (slash ∷ (take shard_segment_len (drop shard_segment_len name) ++ (slash ∷ rest)))

unfoldable pub by_artifact_path : Text → Text
by_artifact_path id =
    if ltb (length (hash_part id)) shard_prefix_len
    then codes "_short/" ++ id
    else sharded (hash_part id) id

unfoldable pub short_id : Text → Text
short_id id = take short_id_len (hash_part id)

unfoldable pub by_session_path : Manifest → Text
by_session_path m =
    (if text_eq m.session_id [] then codes "_no_session" else m.session_id)
    ++ (slash ∷ m.artifact_id)

unfoldable pub session_shard : Text → Text
session_shard sid =
    if ltb (length sid) shard_prefix_len then codes "_short/" ++ sid else sharded sid sid

unfoldable pub synthetic_path : Manifest → Text
synthetic_path m =
    (if text_eq m.session_id [] then codes "_anonymous" else session_shard m.session_id)
    ++ (slash ∷ (short_id m.artifact_id ++ codes ".bin"))

-- byDatePath over the creation time as time.Format writes it, and the path of the file-system schema
-- in Ext, where there is one.
unfoldable pub by_date_label : Option Text → Manifest → Text
by_date_label none m = short_id m.artifact_id ++ codes ".bin"
by_date_label (some path) m =
    if text_eq (last_of path) [] then short_id m.artifact_id ++ codes ".bin" else last_of path

unfoldable pub by_date_path : (ℕ → Text) → (Text → Option Text) → Manifest → Text
by_date_path format vfs_path m = format m.created_at ++ by_date_label (vfs_path m.ext) m

-- One logical tree; a nil function is none.
pub record ViewDef : Type 0 where
  pub root : Text
  pub path : Option (Manifest → Option Text)
  pub collide : Bool
  pub orphans : Bool
  pub count_key : Option (Manifest → Option Text)
  pub is_dir : Option (Manifest → Bool)

abbrev pub by_session : Text
by_session = codes "by-session"

abbrev pub by_date : Text
by_date = codes "by-date"

abbrev pub by_artifact : Text
by_artifact = codes "by-artifact"

abbrev pub by_orphaned : Text
by_orphaned = codes "by-orphaned"

unfoldable pub session_of : Manifest → Option Text
session_of m = if text_eq m.session_id [] then none else some m.session_id

unfoldable pub path_by_session_def : Manifest → Option Text
path_by_session_def m = if text_eq m.session_id [] then none else some (by_session_path m)

abbrev plain : Text → (Manifest → Option Text) → Option (Manifest → Option Text) → ViewDef
plain root path count_key = record {
  root = root;
  path = some path;
  collide = false;
  orphans = false;
  count_key = count_key;
  is_dir = none;
}

-- Where the definition places the artifact, and whether it declares it a directory.
unfoldable pub placement : ViewDef → Manifest → Option Text
placement d m = elim d.path [ none ↦ none | some f ↦ f m ]

unfoldable pub declared : ViewDef → Manifest → Bool
declared d m = elim d.is_dir [ none ↦ false | some f ↦ f m ]

-- buildViewDefs: the core definitions, then those that extensions provide.
unfoldable pub build_view_defs : (ℕ → Text) → (Text → Option Text) → List ViewDef → List ViewDef
build_view_defs format vfs_path provided =
    plain by_artifact (λ m. some (by_artifact_path m.artifact_id)) none
    ∷ plain by_date (λ m. some (by_date_path format vfs_path m)) none
    ∷ plain by_session path_by_session_def (some session_of)
    ∷ provided

pub data Fallback : Type 0 where
  fallback_orphaned fallback_synthetic : Fallback

-- The filter; an empty text is no condition.
pub record Filter : Type 0 where
  pub session_id : Text
  pub prefix : Text

abbrev fallen_back : Fallback → Manifest → Option Text
fallen_back fallback_orphaned m = none
fallen_back fallback_synthetic m = some (synthetic_path m)

-- The first orphaning definition that has a path function decides.
abbrev fallen_through :
    Fallback → Manifest → Option Text → Option (Manifest → Option Text) → Option Text
fallen_through fb m rest none = rest
fallen_through fb m rest (some f) = elim (f m) [ some p ↦ some p | none ↦ fallen_back fb m ]

unfoldable pub resolve_path_for_manifest : Fallback → List ViewDef → Manifest → Option Text
resolve_path_for_manifest fb [] m = fallen_back fb m
resolve_path_for_manifest fb (d ∷ ds) m =
    let rest = resolve_path_for_manifest fb ds m in
    if d.orphans then fallen_through fb m rest d.path else rest

unfoldable pub passes_filter : Filter → Fallback → List ViewDef → Manifest → Bool
passes_filter f fb ds m =
    if not (text_eq f.session_id []) && not (text_eq m.session_id f.session_id)
    then false
    else if text_eq f.prefix []
    then true
    else (elim (resolve_path_for_manifest fb ds m) [
      | none ↦ false
      | some p ↦ has_prefix p f.prefix
    ])
