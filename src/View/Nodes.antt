-- ===== src/View/Nodes.antt =====
-- The nodes of one tree: types.go, node.go, and the tree helpers of mutate.go and helpers.go. A map is
-- an association list; the tree root is the empty path.
use scrinium.Base.{
  ℕ, zero, suc, Text, Bool, true, false, not, ◌&&◌, ◌||◌, Option, none, some, List, [], ◌∷◌, ◌++◌,
  if◌then◌else◌, length, lookup, set, erase, text_eq, ◌⊎◌, inl, inr,
}
use scrinium.Pathx.{slash, parent, last_of}
use scrinium.Named.{segments}
use scrinium.Base.Order.{text_ltb}

-- The fields of domain.Manifest that the view reads; `blob_ref` is the primary blob reference.
pub record Manifest : Type 0 where
  pub artifact_id : Text
  pub content_hash : Text
  pub blob_ref : Text
  pub session_id : Text
  pub created_at : ℕ
  pub original_size : ℕ
  pub ext : Text

pub record FilesystemFacet : Type 0 where
  pub name : Text
  pub path : Text
  pub is_dir : Bool
  pub size : ℕ
  pub mod_time : ℕ

pub record ArtifactFacet : Type 0 where
  pub artifact_id : Text
  pub content_hash : Text
  pub blob_ref : Text
  pub session_id : Text
  pub created_at : ℕ
  pub ext : Text

pub record ViewNode : Type 0 where
  pub fs : FilesystemFacet
  pub artifact : Option ArtifactFacet
  pub children : List Text

abbrev pub Tree : Type 0
Tree = List (Text × ViewNode)

unfoldable pub new_dir_node : Text → Text → ℕ → ViewNode
new_dir_node name path now = record {
  fs = record { name = name; path = path; is_dir = true; size = 0; mod_time = now };
  artifact = none;
  children = [];
}

unfoldable pub artifact_facet_from : Manifest → ArtifactFacet
artifact_facet_from m = record {
  artifact_id = m.artifact_id;
  content_hash = m.content_hash;
  blob_ref = m.blob_ref;
  session_id = m.session_id;
  created_at = m.created_at;
  ext = m.ext;
}

-- insertSorted and removeSorted: the binary search finds a name, or the place before the first
-- greater one.
unfoldable pub insert_sorted : Text → List Text → List Text
insert_sorted name [] = name ∷ []
insert_sorted name (c ∷ cs) =
    let rest = insert_sorted name cs in
    if text_ltb c name then c ∷ rest else if text_eq c name then c ∷ cs else name ∷ c ∷ cs

unfoldable pub remove_sorted : Text → List Text → List Text
remove_sorted name [] = []
remove_sorted name (c ∷ cs) =
    let rest = remove_sorted name cs in
    if text_ltb c name then c ∷ rest else if text_eq c name then cs else c ∷ cs

-- A change of the children of a node, where the node is there.
unfoldable pub with_children : Text → (List Text → List Text) → Tree → Tree
with_children p f t = elim (lookup p t) [
  | none ↦ t
  | some n ↦ set p (record n { children = f n.children }) t
]

-- One step of ensureDirs: the directory `next`, with the last segment `seg`, below `cur`.
unfoldable pub ensure_dir : ℕ → Text → Text → Text → Tree → Tree
ensure_dir now cur next seg t = elim (lookup next t) [
  | some n ↦ t
  | none ↦ with_children cur (insert_sorted seg) (set next (new_dir_node seg next now) t)
]

unfoldable pub ensure_below : ℕ → Text → List Text → Tree → Tree
ensure_below now cur [] t = t
ensure_below now cur (seg ∷ segs) t =
    let next : Text = if text_eq cur [] then seg else cur ++ (slash ∷ seg) in
    ensure_below now next segs (ensure_dir now cur next seg t)

unfoldable pub ensure_dirs : ℕ → Text → Tree → Tree
ensure_dirs now [] t = t
ensure_dirs now (c ∷ path) t = ensure_below now [] (segments (c ∷ path)) t

abbrev pub no_children : List Text → Bool
no_children [] = true
no_children (c ∷ cs) = false

-- Neither an artifact nor children.
unfoldable pub is_bare : ViewNode → Bool
is_bare n = no_children n.children && (elim n.artifact [ none ↦ true | some a ↦ false ])

-- What insertArtifact makes of a node that is there.
unfoldable pub occupied : Manifest → Bool → ViewNode → ViewNode
occupied m declared_dir n =
    let dir : Bool = n.fs.is_dir || not (no_children n.children) || declared_dir in
    record n {
      artifact = some (artifact_facet_from m);
      fs = record n.fs {
        is_dir = dir;
        size = if dir then n.fs.size else m.original_size;
        mod_time = m.created_at;
      };
    }

unfoldable pub fresh_node : Manifest → Bool → Text → ViewNode
fresh_node m declared_dir path = record {
  fs = record {
    name = last_of path;
    path = path;
    is_dir = declared_dir;
    size = m.original_size;
    mod_time = m.created_at;
  };
  artifact = some (artifact_facet_from m);
  children = [];
}

unfoldable pub attach : Manifest → Bool → Text → Tree → Tree
attach m declared_dir path t = elim (lookup path t) [
  | some n ↦ set path (occupied m declared_dir n) t
  | none ↦
      with_children (parent path) (insert_sorted (last_of path))
        (set path (fresh_node m declared_dir path) t)
]

unfoldable pub insert_artifact : ℕ → Text → Manifest → Bool → Tree → Tree
insert_artifact now path m declared_dir t =
    attach m declared_dir path (ensure_dirs now (parent path) t)

unfoldable pub insert_file : ℕ → Text → Manifest → Tree → Tree
insert_file now path m t = insert_artifact now path m false t

-- detachArtifact: none where the node does not survive.
unfoldable pub detach_artifact : Text → Tree → Option Tree
detach_artifact path t = elim (lookup path t) [
  | none ↦ none
  | some n ↦
      if no_children n.children
      then none
      else some
          (set path (record n { artifact = none; fs = record n.fs { is_dir = true; size = 0 } }) t)
]

-- The loop of removeFile over the empty directories above, on fuel: a parent is shorter.
unfoldable pub prune_above : ℕ → Text → Tree → Tree
prune_above zero p t = t
prune_above (suc fuel) p t =
    let rest =
      prune_above fuel (parent p)
        (with_children (parent p) (remove_sorted (last_of p)) (erase p t)) in
    elim (lookup p t) [ none ↦ t | some n ↦ if not (text_eq p []) && is_bare n then rest else t ]

unfoldable pub remove_file : Text → Tree → Tree
remove_file path t = elim (lookup path t) [
  | none ↦ t
  | some n ↦
      prune_above (length path) (parent path)
        (with_children (parent path) (remove_sorted (last_of path)) (erase path t))
]

pub data ReadError : Type 0 where
  closed path_not_found not_a_directory : ReadError

-- snapshotChildren, over the tree of one root.
unfoldable pub child_nodes : Text → List Text → Tree → List ViewNode
child_nodes p [] t = []
child_nodes p (c ∷ cs) t =
    let rest = child_nodes p cs t in
    elim (lookup (if text_eq p [] then c else p ++ (slash ∷ c)) t) [
      | none ↦ rest
      | some n ↦ n ∷ rest
    ]

unfoldable pub snapshot_children : Text → Tree → ReadError ⊎ List ViewNode
snapshot_children p t = elim (lookup p t) [
  | none ↦ inl path_not_found
  | some n ↦ if n.fs.is_dir then inr (child_nodes p n.children t) else inl not_a_directory
]
