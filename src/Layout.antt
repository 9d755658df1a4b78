-- ===== src/Layout.antt =====
-- engine/layout/layout.go: the driver-side paths of blobs and manifests, and the references read back
-- from them.
pub mod Paths
mod Tests
use scrinium.Base.{
  ℕ, Text, Bool, true, false, not, ◌&&◌, ◌||◌, Option, none, some, List, [], ◌∷◌, ◌++◌, ◌⊎◌, inl,
  inr, ltb, leb, ◌+◌, if◌then◌else◌, length, take, drop, codes, text_eq,
}
use scrinium.Cut.{cut_last}

-- domain.BlobType; "" is unset.
pub data BlobType : Type 0 where
  unset regular chunk pack : BlobType
  unknown_type : Text → BlobType

-- config.PathTopology; "" is unset.
pub data PathTopology : Type 0 where
  unset_topology flat sharded : PathTopology
  unknown_topology : Text → PathTopology

pub data LayoutError : Type 0 where
  bad_blob_type bad_topology empty_ref empty_digest too_short empty_path bad_ref : LayoutError

abbrev pub slash : ℕ
slash = b'/'

unfoldable pub root_for : BlobType → LayoutError ⊎ Text
root_for unset = inr (codes "blobs")
root_for regular = inr (codes "blobs")
root_for chunk = inr (codes "chunks")
root_for pack = inr (codes "packs")
root_for (unknown_type _) = inl bad_blob_type

-- strings.ToLower, on a byte of an ASCII text.
abbrev pub lower_byte : ℕ → ℕ
lower_byte c = if leb b'A' c && leb c b'Z' then c + 32 else c

unfoldable pub to_lower : Text → Text
to_lower [] = []
to_lower (c ∷ s) = lower_byte c ∷ to_lower s

unfoldable pub shard_of : Text → LayoutError ⊎ (Text × Text)
shard_of ref =
    let low = to_lower ref in
    if ltb (length low) 4 then inl too_short else inr (take 2 low, take 2 (drop 2 low))

-- The path of a sharded file under a root.
abbrev pub shard_path : Text → Text → LayoutError ⊎ Text
shard_path root ref = elim (shard_of ref) [
  | inl e ↦ inl e
  | inr (s1, s2) ↦ inr (root ++ (slash ∷ (s1 ++ (slash ∷ (s2 ++ (slash ∷ ref))))))
]

-- The switch of BlobPath on the topology.
unfoldable pub place : PathTopology → Text → Text → LayoutError ⊎ Text
place flat root ref = inr (root ++ (slash ∷ ref))
place unset_topology root ref = shard_path root ref
place sharded root ref = shard_path root ref
place (unknown_topology _) root ref = inl bad_topology

unfoldable pub blob_path : PathTopology → BlobType → Text → LayoutError ⊎ Text
blob_path topology blob_type ref =
    if text_eq ref []
    then inl empty_ref
    else (elim (root_for blob_type) [ inl e ↦ inl e | inr root ↦ place topology root ref ])

unfoldable pub manifest_path : Text → LayoutError ⊎ Text
manifest_path digest =
    if text_eq digest [] then inl empty_digest else shard_path (codes "manifests") digest

unfoldable pub last_segment : Text → LayoutError ⊎ Text
last_segment p =
    if text_eq p []
    then inl empty_path
    else (elim (cut_last slash p) [ none ↦ inr p | some (_, last) ↦ inr last ])

abbrev pub is_hex : ℕ → Bool
is_hex c = (leb b'0' c && leb c b'9') || (leb b'a' c && leb c b'f')

unfoldable pub all_hex : Text → Bool
all_hex [] = true
all_hex (c ∷ s) = is_hex c && all_hex s

-- validateRefShape, `== nil`
unfoldable pub ref_shape_ok : Text → Bool
ref_shape_ok s = not (ltb (length s) 4) && all_hex s

-- RefFromBlobPath and DigestFromManifestPath, which has the same body.
unfoldable pub ref_from_path : Text → LayoutError ⊎ Text
ref_from_path p = elim (last_segment p) [
  | inl e ↦ inl e
  | inr last ↦ if ref_shape_ok last then inr last else inl bad_ref
]

abbrev pub roots_of : List BlobType → List Text
roots_of [] = []
roots_of (t ∷ ts) = elim (root_for t) [ inl _ ↦ roots_of ts | inr root ↦ root ∷ roots_of ts ]

unfoldable pub blob_roots : List Text
blob_roots = roots_of (regular ∷ chunk ∷ pack ∷ [])
