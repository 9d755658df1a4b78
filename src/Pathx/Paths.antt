-- ===== src/Pathx/Paths.antt =====
-- The laws of the path operations.
use scrinium.Base.{
  ℕ, Text, true, false, [], ◌∷◌, ◌++◌, ◌≡◌, ◌≢◌, ◌↔◌, ◌⊎◌, inl, inr, refl, ap, ap₂, subst, sym, ◌∙◌,
  arith, leb, ◌==◌, if◌then◌else◌, length, take, drop, text_eq, text_eq_sound, text_eq_refl,
  has_prefix, has_prefix_split, has_prefix-append, append_assoc, Bool-cases, Option-cases,
}
use scrinium.Cut.{cut_last, cut_last-append, cut_last-some, IsFree}
use scrinium.Pathx.{slash, last_of, parent, join, is_under, is_strict_under, byte_from}

-- A path below another one.
abbrev pub Below : Text → Text → Type 0
Below p prefix = (rest : Text) × (p ≡ prefix ++ (slash ∷ rest))

strict_scan :
    (p q : Text)
    → ((if leb (length p) (length q)
          then false
          else if text_eq (take (length q) p) q
          then byte_from p (length q) == slash
          else false)
        ≡ true)
    → Below p q
unfolding byte_from text_eq
strict_scan [] q h = absurd (ground (arith, h))
strict_scan (x ∷ p) [] h = (p, ground (arith, h))
strict_scan (x ∷ p) (y ∷ q) h =
    let (rest, e) = strict_scan p q (ground (arith, h)) in
    (rest, ap₂ (λ a (t : Text). a ∷ t) (ground (arith, h)) e)

strict_of_below :
    (p q rest : Text)
    → p ≡ q ++ (slash ∷ rest)
    → (if leb (length p) (length q)
        then false
        else if text_eq (take (length q) p) q
        then byte_from p (length q) == slash
        else false)
      ≡ true
unfolding byte_from text_eq
strict_of_below p [] rest e = rw e (ground arith)
strict_of_below [] (y ∷ q) rest e = cc
strict_of_below (x ∷ p) (y ∷ q) rest e = ground (arith, e, strict_of_below p q rest (ap (drop 1) e))

-- IsStrictUnder holds of a path and a prefix that is not empty exactly where the path is the prefix,
-- a slash and something more: a common beginning alone ("a/bc" and "a/b") is not enough.
is_strict_under-Below :
    (p prefix : Text) → prefix ≢ [] → (is_strict_under p prefix ≡ true) ↔ Below p prefix
unfolding is_strict_under
is_strict_under-Below p [] n = absurd (n refl)
is_strict_under-Below p (c ∷ s) n = (strict_scan p (c ∷ s), λ h. strict_of_below p (c ∷ s) h.0 h.1)

prefix-Below : (p q : Text) → has_prefix p (q ++ (slash ∷ [])) ≡ true → Below p q
prefix-Below p q h =
    let (rest, e) = has_prefix_split p (q ++ (slash ∷ [])) h in
    (rest, e ∙ append_assoc q (slash ∷ []) rest)

Below-prefix : (p q : Text) → Below p q → has_prefix p (q ++ (slash ∷ [])) ≡ true
Below-prefix p q (rest, e) =
    subst (λ t. has_prefix t (q ++ (slash ∷ [])) ≡ true) (append_assoc q (slash ∷ []) rest ∙ sym e)
      (has_prefix-append (q ++ (slash ∷ [])) rest)

cons_named : (c : ℕ) (s : Text) → (c ∷ s) ≢ []
cons_named c s e = ground (arith, e)

-- IsUnder and IsStrictUnder look at the path in different ways, and agree: under a prefix is the
-- prefix itself, where it is not empty, or strictly under it.
is_under-is_strict_under :
    (p prefix : Text)
    → (is_under p prefix ≡ true)
      ↔ (((prefix ≢ []) × (p ≡ prefix)) ⊎ (is_strict_under p prefix ≡ true))
unfolding is_under is_strict_under
is_under-is_strict_under p [] =
    (λ h. inr h, λ h. elim h [ inl (n, _) ↦ absurd (n refl) | inr e ↦ e ])
is_under-is_strict_under p (c ∷ s) = (
  λ h. elim (Bool-cases (text_eq p (c ∷ s))) [
    | inl e ↦ inl (cons_named c s, text_eq_sound p (c ∷ s) e)
    | inr e ↦
        let (rest, b) = prefix-Below p (c ∷ s) (ground (arith, h, e)) in
        inr (strict_of_below p (c ∷ s) rest b)
  ],
  λ h. elim h [
    | inl (_, e) ↦ rw (e, text_eq_refl (c ∷ s)) refl
    | inr b ↦ ground (arith, Below-prefix p (c ∷ s) (strict_scan p (c ∷ s) b))
  ],
)

pub join_glue : (a b : Text) → a ≢ [] → b ≢ [] → join a b ≡ a ++ (slash ∷ b)
unfolding join
join_glue [] b na nb = absurd (na refl)
join_glue (x ∷ a) [] na nb = absurd (nb refl)
join_glue (x ∷ a) (y ∷ b) na nb = refl

-- Join undoes Parent and LastSegment: a path whose parent and last segment are not empty is their
-- join.
join-parent : (p : Text) → parent p ≢ [] → last_of p ≢ [] → join (parent p) (last_of p) ≡ p
unfolding parent last_of
join-parent p a b = elim (Option-cases (cut_last slash p)) [
  | inl e ↦ absurd (a (ground (arith, e)))
  | inr ((before, last), e) ↦
      let front : parent p ≡ before = ground (arith, e) in
      let back : last_of p ≡ last = ground (arith, e) in
      join_glue (parent p) (last_of p) a b
      ∙ ap₂ (λ t (u : Text). t ++ (slash ∷ u)) front back
      ∙ sym (cut_last-some slash p before last e).0
]

-- Parent and LastSegment undo Join, for a parent that is not empty and a child that is one segment.
pub parent-join :
    (a c : Text)
    → a ≢ []
    → c ≢ []
    → IsFree slash c
    → (parent (join a c) ≡ a) × (last_of (join a c) ≡ c)
unfolding parent last_of join
parent-join [] c na nc f = absurd (na refl)
parent-join (x ∷ a) [] na nc f = absurd (nc refl)
parent-join (x ∷ a) (y ∷ c) na nc f = (
  rw (parent, join, cut_last-append slash (x ∷ a) (y ∷ c) f) refl,
  rw (last_of, join, cut_last-append slash (x ∷ a) (y ∷ c) f) refl,
)
