-- ===== src/Layout/Tests.antt =====
-- The laws of the layout at a concrete reference.
use scrinium.Base.{Text, true, ◌≡◌, inr, refl, codes, text_eq}
use scrinium.Layout.{
  sharded, chunk, blob_path, ref_from_path, ref_shape_ok, all_hex, blob_roots, place, shard_of,
  root_for, to_lower,
}
use scrinium.Layout.Paths.{ref_from_path-blob_path, blob_path-blob_roots, under_any}

abbrev ref_one : Text
ref_one = codes "0a1b2c"

ref_from_path-blob_path_example :
    (p : Text) × (blob_path sharded chunk ref_one ≡ inr p) × (ref_from_path p ≡ inr ref_one)
unfolding ref_shape_ok all_hex
ref_from_path-blob_path_example = ref_from_path-blob_path sharded chunk ref_one refl refl refl

blob_path-blob_roots_example : under_any (codes "chunks/0a/1b/0a1b2c") blob_roots ≡ true
unfolding blob_path place shard_of root_for to_lower text_eq
blob_path-blob_roots_example =
    blob_path-blob_roots sharded chunk ref_one (codes "chunks/0a/1b/0a1b2c") refl
