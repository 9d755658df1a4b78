-- ===== src/Named/Names.antt =====
-- What ValidateName accepts.
use scrinium.Base.{
  ℕ, Text, Bool, true, false, not, ◌&&◌, ◌||◌, List, [], ◌∷◌, ◌≡◌, ◌≢◌, ◌↔◌, refl, arith, ◌==◌, All,
  text_eq_iff, has_prefix,
}
use scrinium.Driver.{ok}
use scrinium.Named.{
  slash, dot, split_slash, segments, has_double_slash, ends_with_slash, is_traversal, any_traversal,
  validate_name,
}

-- A segment that names something: not empty, and neither "." nor "..".
pub record IsPlain (seg : Text) : Type 0 where
  pub named : seg ≢ []
  pub here : seg ≢ dot ∷ []
  pub up : seg ≢ dot ∷ dot ∷ []

abbrev is_nonempty : Text → Bool
is_nonempty [] = false
is_nonempty (c ∷ s) = true

all_nonempty : List Text → Bool
all_nonempty [] = true
all_nonempty (s ∷ ss) = is_nonempty s && all_nonempty ss

-- The three tests on slashes fail exactly where some segment is empty.
slash_tests :
    (c : ℕ) (s : Text)
    → ((c == slash || ends_with_slash (c ∷ s)) || has_double_slash (c ∷ s))
      ≡ not (all_nonempty (segments (c ∷ s)))
unfolding split_slash ends_with_slash has_double_slash has_prefix all_nonempty
slash_tests c [] = ground arith
slash_tests c (d ∷ []) = ground arith
slash_tests c (d ∷ e ∷ s) = ground (arith, slash_tests d (e ∷ s), slash_tests e s)

segment-IsPlain : (s : Text) → is_nonempty s ≡ true → is_traversal s ≡ false → IsPlain s
segment-IsPlain [] h t = cc
segment-IsPlain (c ∷ s) h t = record {
  named = λ e. ground arith;
  here = λ e. ground (arith, text_eq_iff (c ∷ s) (dot ∷ []));
  up = λ e. ground (arith, text_eq_iff (c ∷ s) (dot ∷ dot ∷ []));
}

segment_tests : (s : Text) → IsPlain s → (is_nonempty s ≡ true) × (is_traversal s ≡ false)
segment_tests [] p = absurd (p.named refl)
segment_tests (c ∷ s) p = (
  refl,
  ground
      (arith, text_eq_iff (c ∷ s) (dot ∷ []), text_eq_iff (c ∷ s) (dot ∷ dot ∷ []), p.here, p.up),
)

tests-IsPlain :
    (ss : List Text) → all_nonempty ss ≡ true → any_traversal ss ≡ false → All IsPlain ss
unfolding all_nonempty any_traversal
tests-IsPlain [] h t = tt
tests-IsPlain (s ∷ ss) h t = (
  segment-IsPlain s (ground arith) (ground arith),
  tests-IsPlain ss (ground arith) (ground arith),
)

tests_of_plain :
    (ss : List Text) → All IsPlain ss → (all_nonempty ss ≡ true) × (any_traversal ss ≡ false)
unfolding all_nonempty any_traversal
tests_of_plain [] h = (refl, refl)
tests_of_plain (s ∷ ss) h =
    let (n, t) = segment_tests s h.0 in
    let (ns, ts) = tests_of_plain ss h.1 in (rw (n, ns), rw (t, ts))

-- ValidateName accepts exactly the names all of whose slash-separated segments name something: no
-- segment is empty (so no leading, trailing or double slash), "." or "..".
validate_name_iff : (name : Text) → (validate_name name ≡ ok tt) ↔ All IsPlain (segments name)
unfolding validate_name
validate_name_iff [] = (λ h. cc, λ h. absurd (unfold split_slash in h.0.named refl))
validate_name_iff (c ∷ s) = (
  λ h. tests-IsPlain (segments (c ∷ s)) (ground (arith, slash_tests c s)) (ground arith),
  λ h. let (n, t) = tests_of_plain (segments (c ∷ s)) h in ground (arith, slash_tests c s, n, t),
)
