-- ===== src/Removal/Tests.antt =====
-- Delete and RollbackSession of a store with two artifacts of one session.
use scrinium.Base.{
  ℕ, Text, Bool, false, Option, none, some, [], ◌∷◌, ◌≡◌, ◌⊎◌, inr, refl, codes, text_eq,
}
use scrinium.Driver.{quiet, obj_get}
use scrinium.Layout.{manifest_path, shard_of, to_lower}
use scrinium.Store.{Store, unlocked, mode_none}
use scrinium.Index.{Tables, ManifestRow}
use scrinium.Removal.{
  Site, resolve_manifest_digest, newest_row, get_by_session, delete, rollback_session,
}
use scrinium.Removal.Deleting.{EndsIn, delete-EndsIn}
use scrinium.Removal.Sessions.{
  RollsBack, rollback_session-RollsBack, IsStuck, rollback_session-IsStuck,
}

-- Whether the policy forbids deletions is the config.
abbrev serving : Store Bool
serving = record {
  store_id = 1 ∷ 2 ∷ [];
  active_config = false;
  last_config_seq = 3;
  state = unlocked;
  offline_by_sentinel = false;
  substituted = false;
  maintenance = mode_none;
  closed = false;
  events = [];
}

abbrev row : Text → Text → ManifestRow
row digest id = record {
  manifest_digest = digest;
  artifact_id = some id;
  session_id = codes "s";
  blob_ref = none;
  created_at = 1;
  retention_until = none;
  last_verified_at = none;
  csn = 1;
}

abbrev first_digest : Text
first_digest = codes "aabbccdd"

abbrev second_digest : Text
second_digest = codes "ccddeeff"

abbrev two_rows : Tables
two_rows = record {
  blobs = [];
  manifests = row first_digest (codes "x") ∷ row second_digest (codes "y") ∷ [];
  manifest_blobs = [];
  manifest_handles = [];
  csn = 1;
  prune_csn = 0;
}

abbrev first_path : Text
first_path = codes "manifests/aa/bb/aabbccdd"

abbrev second_path : Text
second_path = codes "manifests/cc/dd/ccddeeff"

-- The bytes of a manifest are its retention.
abbrev decoding : Text → Text → ℕ ⊎ Option ℕ
decoding digest [] = inr none
decoding digest (n ∷ raw) = inr (some n)

abbrev site : Site Bool
site = record {
  store = serving;
  world = quiet ((first_path, []) ∷ (second_path, 3 ∷ []) ∷ []) 10;
  tables = two_rows;
  answers = [];
  polls = [];
  published = [];
}

abbrev one_file_gone : Site Bool
one_file_gone = record site { world = quiet ((second_path, 3 ∷ []) ∷ []) 10 }

delete-EndsIn_example :
    EndsIn decoding (λ b. b) (codes "x") site (delete decoding (λ b. b) (codes "x") site)
delete-EndsIn_example = delete-EndsIn decoding (λ b. b) (codes "x") site tt

rollback_session-RollsBack_example :
    RollsBack decoding
      (λ b. b)
      (get_by_session (codes "s") two_rows.manifests)
      site
      (rollback_session decoding (λ b. b) (codes "s") site)
rollback_session-RollsBack_example =
    rollback_session-RollsBack decoding (λ b. b) (codes "s") site tt

first_resolves : resolve_manifest_digest (codes "x") two_rows ≡ some first_digest
unfolding resolve_manifest_digest newest_row text_eq
first_resolves = refl

first_at : manifest_path first_digest ≡ inr first_path
unfolding manifest_path shard_of to_lower text_eq
first_at = refl

rollback_session-IsStuck_example :
    IsStuck decoding
      (λ b. b)
      one_file_gone
      (rollback_session decoding (λ b. b) (codes "s") one_file_gone)
unfolding get_by_session text_eq obj_get
rollback_session-IsStuck_example =
    rollback_session-IsStuck decoding (λ b. b) (codes "s") [] (codes "y" ∷ []) (codes "x")
      first_digest first_path one_file_gone tt refl first_resolves first_at refl
