-- ===== src/Named/Listing/Entries.antt =====
-- What the listings of the system plane read from a path.
use scrinium.Base.{
  ℕ, ◌+◌, ◌*◌, ◌-◌, ◌^◌, ◌<◌, Text, true, Option, some, [], ◌∷◌, ◌++◌, ◌≡◌, ◌≢◌, ◌↔◌, inl, inr,
  refl, ap, ap₂, subst, sym, ◌∙◌, arith, drop, text_eq, text_eq_iff, text_eq_sound, text_eq_refl,
  has_prefix, has_prefix_split, has_prefix-append, Bool-cases, Option-cases,
}
use scrinium.Cut.{cut_last, cut_last-append, cut_last-some, IsFree}
use scrinium.Named.{
  root_slash, dot, cell_leaf, version_of, cell_of, format_seq, parse_seq, parse_digits, is_digit,
}
use scrinium.Named.Seq.{parse_seq_iff}
use scrinium.Named.Listing.{
  Active, split_leaf, rel_of, active_entry, cell_entry, version_leaf, cell_leaf_of, then_leaf,
}

digits-IsFree : (s : Text) (acc n : ℕ) → parse_digits s acc ≡ some n → IsFree dot s
unfolding parse_digits
digits-IsFree [] acc n h = tt
digits-IsFree (c ∷ s) acc n h = elim (Bool-cases (is_digit c)) [
  | inr e ↦ absurd (ground (arith, h, e))
  | inl e ↦
      (λ z. ground (arith, e, z), digits-IsFree s (acc * 10 + (c - b'0')) n (ground (arith, h, e)))
]

seq-IsFree : (n : ℕ) → n < 10 ^ 10 → IsFree dot (format_seq n)
unfolding parse_seq
seq-IsFree n h =
    let parsed : parse_seq (format_seq n) ≡ some n = (parse_seq_iff (format_seq n) n).1 (refl, h) in
    digits-IsFree (format_seq n) 0 n (ground (arith, parsed))

rel_is :
    (prefix path rel : Text)
    → has_prefix path (root_slash ++ prefix) ≡ true
    → rel_of prefix path ≡ some rel
    → drop 6 path ≡ rel
unfolding rel_of
rel_is prefix path rel e h = elim (Bool-cases (text_eq (drop 6 path) [])) [
  | inl z ↦ absurd (ground (arith, h, e, z))
  | inr z ↦ ground (arith, h, e, z)
]

-- A path under the root and the prefix, and what is after the root.
rel_of_inv :
    (prefix path rel : Text)
    → rel_of prefix path ≡ some rel
    → (path ≡ root_slash ++ rel) × (has_prefix rel prefix ≡ true)
unfolding rel_of has_prefix
rel_of_inv prefix path rel h = elim (Bool-cases (has_prefix path (root_slash ++ prefix))) [
  | inr e ↦ absurd (ground (arith, h, e))
  | inl e ↦
      let (r, p) = has_prefix_split path (root_slash ++ prefix) e in
      let cut : drop 6 path ≡ rel = rel_is prefix path rel e h in
      let same : rel ≡ prefix ++ r = sym cut ∙ ap (drop 6) p in
      (
        p ∙ ap (λ t. root_slash ++ t) (sym same),
        subst (λ t. has_prefix t prefix ≡ true) (sym same) (has_prefix-append prefix r),
      )
]

rel_of_path :
    (prefix rel : Text)
    → rel ≢ []
    → has_prefix rel prefix ≡ true
    → rel_of prefix (root_slash ++ rel) ≡ some rel
unfolding rel_of has_prefix
rel_of_path prefix rel n h = ground (arith, n, h, text_eq_iff rel [])

glued_named : (a b : Text) → (a ++ (dot ∷ b)) ≢ []
glued_named [] b e = ground (arith, e)
glued_named (x ∷ a) b e = ground (arith, e)

-- What a callback did where it took a path.
record Taken (prefix path : Text) (f : Text × Text → Option Active) (a : Active) : Type 0 where
  name : Text
  leaf : Text
  placed : path ≡ root_slash ++ (name ++ (dot ∷ leaf))
  begins : has_prefix (name ++ (dot ∷ leaf)) prefix ≡ true
  gives : f (name, leaf) ≡ some a

taken :
    (prefix path : Text) (f : Text × Text → Option Active) (a : Active)
    → then_leaf f (rel_of prefix path) ≡ some a
    → Taken prefix path f a
unfolding split_leaf
taken prefix path f a h = elim (Option-cases (rel_of prefix path)) [
  | inl e ↦ absurd (ground (arith, h, e))
  | inr (rel, e) ↦ (elim (Option-cases (cut_last dot rel)) [
    | inl c ↦ absurd (ground (arith, h, e, c))
    | inr ((name, leaf), c) ↦
        let (placed, begins) = rel_of_inv prefix path rel e in
        let cut : rel ≡ name ++ (dot ∷ leaf) = (cut_last-some dot rel name leaf c).0 in
        record {
          name = name;
          leaf = leaf;
          placed = placed ∙ ap (λ t. root_slash ++ t) cut;
          begins = subst (λ t. has_prefix t prefix ≡ true) cut begins;
          gives = ground (arith, h, e, c);
        }
  ])
]

-- What a callback does on a path whose leaf has no dot.
takes :
    (prefix name leaf : Text) (f : Text × Text → Option Active)
    → IsFree dot leaf
    → has_prefix (name ++ (dot ∷ leaf)) prefix ≡ true
    → then_leaf f (rel_of prefix (root_slash ++ (name ++ (dot ∷ leaf)))) ≡ f (name, leaf)
unfolding split_leaf
takes prefix name leaf f free h = rw (
  rel_of_path prefix (name ++ (dot ∷ leaf)) (glued_named name leaf) h,
  then_leaf,
  cut_last-append dot name leaf free,
)

version_taken :
    (prefix path name : Text) (seq : ℕ)
    → active_entry prefix path ≡ some (record { name = name; seq = seq; path = path })
    → (path ≡ version_of name seq)
      × (seq < 10 ^ 10)
      × (has_prefix (name ++ (dot ∷ format_seq seq)) prefix ≡ true)
unfolding active_entry
version_taken prefix path name seq h =
    let t =
      taken prefix path (version_leaf path) (record { name = name; seq = seq; path = path }) h in
    elim (Option-cases (parse_seq t.leaf)) [
      | inl e ↦ absurd (ground (arith, t.gives, e))
      | inr (n, e) ↦
          let same : n ≡ seq = ground (arith, t.gives, e) in
          let named : t.name ≡ name = ground (arith, t.gives, e) in
          let (wrote, small) = (parse_seq_iff t.leaf seq).0 (e ∙ ap some same) in
          let glue : t.name ++ (dot ∷ t.leaf) ≡ name ++ (dot ∷ format_seq seq) =
            ap₂ (λ x (y : Text). x ++ (dot ∷ y)) named (sym wrote) in
          (
            t.placed ∙ ap (λ x. root_slash ++ x) glue,
            small,
            subst (λ x. has_prefix x prefix ≡ true) glue t.begins,
          )
    ]

version_takes :
    (prefix name : Text) (seq : ℕ)
    → seq < 10 ^ 10
    → has_prefix (name ++ (dot ∷ format_seq seq)) prefix ≡ true
    → active_entry prefix (version_of name seq)
      ≡ some (record { name = name; seq = seq; path = version_of name seq })
unfolding active_entry
version_takes prefix name seq small h =
    let parsed : parse_seq (format_seq seq) ≡ some seq =
      (parse_seq_iff (format_seq seq) seq).1 (refl, small) in
    takes prefix name (format_seq seq) (version_leaf (version_of name seq)) (seq-IsFree seq small) h
    ∙ rw (version_leaf, parsed) refl

-- ListActive takes a path as the version `seq` of `name` exactly where it is the path of that version,
-- the number has at most ten digits, and the prefix begins the text of the name, a dot and the
-- number.
active_entry-version_of :
    (prefix path name : Text) (seq : ℕ)
    → (active_entry prefix path ≡ some (record { name = name; seq = seq; path = path })) ↔ (
        (path ≡ version_of name seq)
        × (seq < 10 ^ 10)
        × (has_prefix (name ++ (dot ∷ format_seq seq)) prefix ≡ true))
active_entry-version_of prefix path name seq = (
  version_taken prefix path name seq,
  λ h.
      subst (λ p. active_entry prefix p ≡ some (record { name = name; seq = seq; path = p }))
        (sym h.0) (version_takes prefix name seq h.1 h.2),
)

cell_leaf-IsFree : IsFree dot cell_leaf
cell_leaf-IsFree = (
  (λ e. ground (arith, e)),
  ((λ e. ground (arith, e)), ((λ e. ground (arith, e)), ((λ e. ground (arith, e)), tt))),
)

-- ListCells takes a path as the cell of `name` exactly where it is that cell's path and the prefix
-- begins the text of the name, a dot and the cell marker.
cell_entry-cell_of :
    (prefix path name : Text)
    → (cell_entry prefix path ≡ some (record { name = name; seq = 0; path = path }))
      ↔ ((path ≡ cell_of name) × (has_prefix (name ++ (dot ∷ cell_leaf)) prefix ≡ true))
cell_entry-cell_of prefix path name = (
  λ h.
      let t =
        taken prefix path (cell_leaf_of path) (record { name = name; seq = 0; path = path })
          (unfold cell_entry in h) in
      elim (Bool-cases (text_eq t.leaf cell_leaf)) [
        | inr e ↦ absurd (ground (arith, t.gives, e))
        | inl e ↦
            let named : t.name ≡ name = ground (arith, t.gives, e) in
            let glue : t.name ++ (dot ∷ t.leaf) ≡ name ++ (dot ∷ cell_leaf) =
              ap₂ (λ x (y : Text). x ++ (dot ∷ y)) named (text_eq_sound t.leaf cell_leaf e) in
            (
              t.placed ∙ ap (λ x. root_slash ++ x) glue,
              subst (λ x. has_prefix x prefix ≡ true) glue t.begins,
            )
      ],
  λ h.
      subst (λ p. cell_entry prefix p ≡ some (record { name = name; seq = 0; path = p })) (sym h.0)
        (unfold cell_entry in
          takes prefix name cell_leaf (cell_leaf_of (cell_of name)) cell_leaf-IsFree h.1
          ∙ rw (cell_leaf_of, text_eq_refl cell_leaf) refl),
)
