-- ===== src/Named/Tests.antt =====
-- The theorems on names and versions at concrete inputs.
use scrinium.Base.{
  ◌^◌, ◌<◌, ◌↔◌, Text, true, none, some, [], ◌∷◌, ◌≡◌, refl, arith, codes, text_eq, has_prefix,
}
use scrinium.Driver.{quiet, ok, World, Objects, obj_get, obj_put, put, turn, list_objects}
use scrinium.Named.{
  validate_name, split_slash, has_double_slash, ends_with_slash, any_traversal, version_of,
  version_path, parse_seq, format_seq, parse_digits, pad_digits, more_digits, seqs_of, scan_seqs,
  max_seq, resolve_active_seq, next_seq, put_or_lost, claim_attempt, claim_loop, claim_version,
}
use scrinium.Named.Seq.{parse_seq_iff}
use scrinium.Named.Claims.{Wins, claim_version-Wins}
use scrinium.Named.Versions.{all_removed, prune}
use scrinium.Named.Versions.Kept.{Pruned, prune-Pruned}
use scrinium.Named.Active.{active_of, claim_version_next}

abbrev cfg_name : Text
cfg_name = codes "store.config"

parse_seq_iff_example :
    (parse_seq (codes "0000000042") ≡ some 42)
    ↔ ((format_seq 42 ≡ codes "0000000042") × (42 < 10 ^ 10))
parse_seq_iff_example = parse_seq_iff (codes "0000000042") 42

abbrev two_versions : Objects
two_versions =
    (version_of cfg_name 1, codes "a")
    ∷ (codes "named/gc.cell", [])
    ∷ (version_of cfg_name 2, codes "b")
    ∷ []

-- Another writer takes the third version before the put of the first attempt.
abbrev raced : World
raced = record {
  objects = two_versions;
  now = 0;
  turns =
      record { elapsed = 0; others = λ o. o; fault = none }
      ∷ record { elapsed = 0; others = obj_put (version_of cfg_name 3) (codes "x"); fault = none }
      ∷ [];
}

abbrev after_raced : World
after_raced = (claim_version (λ _. true) cfg_name (codes "c") raced).1

claim_version-Wins_example : Wins cfg_name (codes "c") raced 4 (version_of cfg_name 4) after_raced
unfolding validate_name split_slash has_double_slash ends_with_slash any_traversal has_prefix
    text_eq max_seq seqs_of parse_seq format_seq more_digits pad_digits parse_digits claim_version
    claim_loop claim_attempt resolve_active_seq scan_seqs list_objects version_path put_or_lost put
    obj_get obj_put turn
claim_version-Wins_example =
    claim_version-Wins (λ _. true) cfg_name (codes "c") (4, version_of cfg_name 4) raced after_raced
      refl

active_two : active_of cfg_name two_versions ≡ some 2
unfolding max_seq seqs_of has_prefix parse_seq format_seq more_digits pad_digits parse_digits
active_two = refl

claim_version_next_example :
    (after : World) × (claim_version (λ _. true) cfg_name (codes "c") (quiet two_versions 0) ≡ (
      ok (
        next_seq (active_of cfg_name two_versions),
        version_of cfg_name (next_seq (active_of cfg_name two_versions)),
      ),
      after,
    ))
    × (resolve_active_seq cfg_name after
        ≡ (ok (some (next_seq (active_of cfg_name two_versions))), after))
unfolding validate_name split_slash has_double_slash ends_with_slash any_traversal has_prefix
    text_eq
claim_version_next_example =
    claim_version_next (λ _. true) cfg_name (codes "c") two_versions 0 refl refl
      (rw active_two (omega arith))

prune-Pruned_example :
    (o' : Objects) × (prune cfg_name 1 (quiet two_versions 0) ≡ (all_removed, quiet o' 0))
    × Pruned cfg_name 1 two_versions o'
unfolding validate_name split_slash has_double_slash ends_with_slash any_traversal has_prefix
    text_eq
prune-Pruned_example = prune-Pruned cfg_name 1 two_versions 0 refl
