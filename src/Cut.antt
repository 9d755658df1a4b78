-- ===== src/Cut.antt =====
-- strings.IndexByte and strings.LastIndexByte with the slices that the callers take around the byte,
-- for engine/layout/layout.go, projection/pathx/pathx.go and engine/internal/named/version.go.
use scrinium.Base.{
  ℕ, Text, Option, none, some, [], ◌∷◌, ◌++◌, ◌≡◌, ◌≢◌, inl, inr, refl, ap, ap₂, subst, ◌∙◌, arith,
  ◌==◌, All, Option-cases, Bool-cases, if◌then◌else◌,
}

-- What is before and after the last c: none where there is no c.
unfoldable pub cut_last : ℕ → Text → Option (Text × Text)
cut_last c [] = none
cut_last c (x ∷ s) =
    let here : Option (Text × Text) = if x == c then some ([], s) else none in
    elim (cut_last c s) [ some (a, b) ↦ some (x ∷ a, b) | none ↦ here ]

-- What is before and after the first c.
unfoldable pub cut_first : ℕ → Text → Option (Text × Text)
cut_first c [] = none
cut_first c (x ∷ s) =
    let later : Option (Text × Text) = elim (cut_first c s) [
      | some (a, b) ↦ some (x ∷ a, b)
      | none ↦ none
    ] in
    if x == c then some ([], s) else later

abbrev pub IsFree : ℕ → Text → Type 0
IsFree c s = All (λ x. x ≢ c) s

pub cut_last-IsFree : (c : ℕ) (s : Text) → IsFree c s → cut_last c s ≡ none
unfolding cut_last
cut_last-IsFree c [] h = refl
cut_last-IsFree c (x ∷ s) h = rw (cut_last-IsFree c s h.1) (ground (arith, h.0))

pub cut_last-append : (c : ℕ) (a b : Text) → IsFree c b → cut_last c (a ++ (c ∷ b)) ≡ some (a, b)
unfolding cut_last
cut_last-append c [] b h = rw (cut_last-IsFree c b h) (ground arith)
cut_last-append c (x ∷ a) b h = rw (cut_last-append c a b h) refl

pub cut_last-none : (c : ℕ) (s : Text) → cut_last c s ≡ none → IsFree c s
unfolding cut_last
cut_last-none c [] h = tt
cut_last-none c (x ∷ s) h = elim (Option-cases (cut_last c s)) [
  | inl e ↦ (λ z. ground (arith, h, e, z), cut_last-none c s e)
  | inr ((a, b), e) ↦ absurd (ground (arith, h, e))
]

pub cut_last-some :
    (c : ℕ) (s a b : Text) → cut_last c s ≡ some (a, b) → (s ≡ a ++ (c ∷ b)) × IsFree c b
unfolding cut_last
cut_last-some c [] a b h = cc
cut_last-some c (x ∷ s) a b h = elim (Option-cases (cut_last c s)) [
  | inl e ↦ (elim (Bool-cases (x == c)) [
    | inl here ↦
        let before : [] ≡ a = ground (arith, h, e, here) in
        let after : s ≡ b = ground (arith, h, e, here) in
        let same : x ≡ c = ground (arith, here) in
        (
          ap₂ (λ y (t : Text). y ∷ t) same after ∙ ap (λ t. t ++ (c ∷ b)) before,
          subst (IsFree c) after (cut_last-none c s e),
        )
    | inr there ↦ absurd (ground (arith, h, e, there))
  ])
  | inr ((a', b'), e) ↦
      let (p, q) = cut_last-some c s a' b' e in
      let before : x ∷ a' ≡ a = ground (arith, h, e) in
      let after : b' ≡ b = ground (arith, h, e) in
      (ap (λ t. x ∷ t) p ∙ ap₂ (λ t u. t ++ (c ∷ u)) before after, subst (IsFree c) after q)
]
