-- ===== src/Layout/Paths.antt =====
-- What a path of the layout says: the reference comes back from it, and it is under a payload root.
use scrinium.Base.{
  ◌≤◌, Text, Bool, true, false, ◌||◌, some, List, [], ◌∷◌, ◌++◌, ◌≡◌, ◌⊎◌, inl, inr, refl, ap,
  subst, ◌∙◌, arith, ltb, length, take, drop, codes, text_eq, append_assoc, has_prefix, Bool-cases,
}
use scrinium.Cut.{cut_last, cut_last-append, IsFree}
use scrinium.Layout.{
  BlobType, unset, regular, chunk, pack, unknown_type, PathTopology, unset_topology, flat, sharded,
  unknown_topology, LayoutError, bad_blob_type, slash, root_for, to_lower, shard_of, shard_path,
  place, blob_path, manifest_path, last_segment, all_hex, ref_shape_ok, ref_from_path, blob_roots,
}

abbrev pub known_topology : PathTopology → Bool
known_topology (unknown_topology _) = false
known_topology _ = true

abbrev pub known_type : BlobType → Bool
known_type (unknown_type _) = false
known_type _ = true

hex-IsFree : (s : Text) → all_hex s ≡ true → IsFree slash s
unfolding all_hex
hex-IsFree [] h = tt
hex-IsFree (c ∷ s) h = (λ e. ground (arith, h, e), hex-IsFree s (ground arith))

length-to_lower : (s : Text) → length (to_lower s) ≡ length s
unfolding to_lower
length-to_lower [] = refl
length-to_lower (c ∷ s) = omega (arith, length-to_lower s)

last_segment_cut : (p a b : Text) → cut_last slash p ≡ some (a, b) → last_segment p ≡ inr b
unfolding last_segment text_eq cut_last
last_segment_cut [] a b h = cc
last_segment_cut (c ∷ s) a b h = ground (arith, h)

-- A path that ends in a slash and a reference gives the reference.
ends_in_ref :
    (a ref : Text) → ref_shape_ok ref ≡ true → ref_from_path (a ++ (slash ∷ ref)) ≡ inr ref
unfolding ref_from_path
ends_in_ref a ref h =
    let free : IsFree slash ref = hex-IsFree ref (unfold ref_shape_ok in ground (arith, h)) in
    rw (
      ref_from_path,
      last_segment_cut (a ++ (slash ∷ ref)) a ref (cut_last-append slash a ref free),
      h,
    )

shape_long : (ref : Text) → ref_shape_ok ref ≡ true → 4 ≤ length ref
unfolding ref_shape_ok
shape_long ref h = ground (arith, h)

shape_named : (ref : Text) → ref_shape_ok ref ≡ true → text_eq ref [] ≡ false
unfolding ref_shape_ok text_eq
shape_named [] h = ground (arith, h)
shape_named (c ∷ s) h = refl

-- The two shards of a reference that is long enough.
shards :
    (ref : Text)
    → 4 ≤ length ref
    → shard_of ref ≡ inr (take 2 (to_lower ref), take 2 (drop 2 (to_lower ref)))
unfolding shard_of
shards ref h = ground (arith, h, length-to_lower ref)

-- A path read back.
abbrev Reads : LayoutError ⊎ Text → Text → Type 0
Reads made ref = (p : Text) × (made ≡ inr p) × (ref_from_path p ≡ inr ref)

regroup :
    (root s1 s2 tail : Text)
    → (root ++ (slash ∷ (s1 ++ (slash ∷ s2)))) ++ tail
      ≡ root ++ (slash ∷ (s1 ++ (slash ∷ (s2 ++ tail))))
regroup root s1 s2 tail =
    append_assoc root (slash ∷ (s1 ++ (slash ∷ s2))) tail
    ∙ ap (λ t. root ++ (slash ∷ t)) (append_assoc s1 (slash ∷ s2) tail)

sharded-Reads : (root ref : Text) → ref_shape_ok ref ≡ true → Reads (shard_path root ref) ref
sharded-Reads root ref h =
    let s1 : Text = take 2 (to_lower ref) in
    let s2 : Text = take 2 (drop 2 (to_lower ref)) in
    (
      root ++ (slash ∷ (s1 ++ (slash ∷ (s2 ++ (slash ∷ ref))))),
      rw (shard_path, shards ref (shape_long ref h)) refl,
      subst (λ t. ref_from_path t ≡ inr ref) (regroup root s1 s2 (slash ∷ ref))
          (ends_in_ref (root ++ (slash ∷ (s1 ++ (slash ∷ s2)))) ref h),
    )

place-Reads :
    (topology : PathTopology) (root ref : Text)
    → known_topology topology ≡ true
    → ref_shape_ok ref ≡ true
    → Reads (place topology root ref) ref
unfolding place
place-Reads flat root ref k h = (root ++ (slash ∷ ref), refl, ends_in_ref root ref h)
place-Reads unset_topology root ref k h = sharded-Reads root ref h
place-Reads sharded root ref k h = sharded-Reads root ref h
place-Reads (unknown_topology _) root ref k h = absurd (ground (arith, k))

root_known : (t : BlobType) → known_type t ≡ true → (root : Text) × (root_for t ≡ inr root)
unfolding root_for
root_known unset h = (codes "blobs", refl)
root_known regular h = (codes "blobs", refl)
root_known chunk h = (codes "chunks", refl)
root_known pack h = (codes "packs", refl)
root_known (unknown_type _) h = absurd (ground (arith, h))

-- A reference of at least four lowercase hex digits has a path under every topology and blob type
-- that the layout knows, and RefFromBlobPath reads the same reference back from it.
pub ref_from_path-blob_path :
    (topology : PathTopology) (t : BlobType) (ref : Text)
    → known_topology topology ≡ true
    → known_type t ≡ true
    → ref_shape_ok ref ≡ true
    → (p : Text) × (blob_path topology t ref ≡ inr p) × (ref_from_path p ≡ inr ref)
unfolding blob_path
ref_from_path-blob_path topology t ref k kt h =
    let (root, e) = root_known t kt in rw (shape_named ref h, e) (place-Reads topology root ref k h)

-- A digest of at least four lowercase hex digits has a manifest path, and DigestFromManifestPath
-- reads the same digest back from it.
ref_from_path-manifest_path :
    (digest : Text)
    → ref_shape_ok digest ≡ true
    → (p : Text) × (manifest_path digest ≡ inr p) × (ref_from_path p ≡ inr digest)
unfolding manifest_path
ref_from_path-manifest_path digest h =
    rw (shape_named digest h) (sharded-Reads (codes "manifests") digest h)

abbrev pub under_any : Text → List Text → Bool
under_any p [] = false
under_any p (root ∷ roots) = has_prefix p (root ++ (slash ∷ [])) || under_any p roots

-- A path that was made under a root.
abbrev Under : Text → Text → Type 0
Under root p = (rest : Text) × (p ≡ root ++ (slash ∷ rest))

shard_path-Under : (root ref p : Text) → shard_path root ref ≡ inr p → Under root p
unfolding shard_of
shard_path-Under root ref p h = elim (Bool-cases (ltb (length (to_lower ref)) 4)) [
  | inl e ↦ absurd (ground (arith, h, e))
  | inr e ↦ (
    take 2 (to_lower ref) ++ (slash ∷ (take 2 (drop 2 (to_lower ref)) ++ (slash ∷ ref))),
    ground (arith, h, e),
  )
]

place-Under :
    (topology : PathTopology) (root ref p : Text) → place topology root ref ≡ inr p → Under root p
unfolding place
place-Under flat root ref p h = (ref, ground (arith, h))
place-Under unset_topology root ref p h = shard_path-Under root ref p h
place-Under sharded root ref p h = shard_path-Under root ref p h
place-Under (unknown_topology _) root ref p h = absurd (ground (arith, h))

of_type :
    (t : BlobType) (root p : Text)
    → root_for t ≡ inr root
    → Under root p
    → under_any p blob_roots ≡ true
unfolding blob_roots root_for has_prefix
of_type unset root p e (rest, u) =
    let same : root ≡ codes "blobs" = ground (arith, e) in rw (u, same) refl
of_type regular root p e (rest, u) =
    let same : root ≡ codes "blobs" = ground (arith, e) in rw (u, same) refl
of_type chunk root p e (rest, u) =
    let same : root ≡ codes "chunks" = ground (arith, e) in rw (u, same) refl
of_type pack root p e (rest, u) =
    let same : root ≡ codes "packs" = ground (arith, e) in rw (u, same) refl
of_type (unknown_type _) root p e u = absurd (ground (arith, e))

root-cases :
    (t : BlobType)
    → ((root : Text) × (root_for t ≡ inr root)) ⊎ ((x : LayoutError) × (root_for t ≡ inl x))
unfolding root_for
root-cases unset = inl (codes "blobs", refl)
root-cases regular = inl (codes "blobs", refl)
root-cases chunk = inl (codes "chunks", refl)
root-cases pack = inl (codes "packs", refl)
root-cases (unknown_type _) = inr (bad_blob_type, refl)

-- Every path that BlobPath makes is under one of the roots that BlobRoots lists, so a sweep of these
-- roots misses no payload.
pub blob_path-blob_roots :
    (topology : PathTopology) (t : BlobType) (ref p : Text)
    → blob_path topology t ref ≡ inr p
    → under_any p blob_roots ≡ true
unfolding blob_path
blob_path-blob_roots topology t ref p h = elim (Bool-cases (text_eq ref [])) [
  | inl e ↦ absurd (ground (arith, h, e))
  | inr e ↦ (elim (root-cases t) [
    | inr (x, r) ↦ absurd (ground (arith, h, e, r))
    | inl (root, r) ↦ of_type t root p r (place-Under topology root ref p (ground (arith, h, e, r)))
  ])
]
