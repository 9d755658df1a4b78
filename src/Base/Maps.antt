-- ===== src/Base/Maps.antt =====
-- Association lists with texts as keys.
use mathlib.Core.Path.{◌≡◌, refl}
use mathlib.Core.Option.{Option, none, some}
use mathlib.Core.List.{List, [], ◌∷◌}
use native.Mathlib.Omega.{arith}
use scrinium.Base.Tests.{if◌then◌else◌}
use scrinium.Base.Bytes.{Text, text_eq, text_eq_iff}

module _ {A : Type 0} where
  unfoldable pub lookup : Text → List (Text × A) → Option A
  lookup k [] = none
  lookup k ((j, a) ∷ m) = let rest = lookup k m in if text_eq j k then some a else rest

  unfoldable pub set : Text → A → List (Text × A) → List (Text × A)
  set k b [] = (k, b) ∷ []
  set k b ((j, a) ∷ m) = let rest = set k b m in if text_eq j k then (k, b) ∷ m else (j, a) ∷ rest

  unfoldable pub erase : Text → List (Text × A) → List (Text × A)
  erase k [] = []
  erase k ((j, a) ∷ m) = let rest = erase k m in if text_eq j k then rest else (j, a) ∷ rest

  pub lookup-set :
      (k q : Text) (b : A) (m : List (Text × A))
      → lookup q (set k b m) ≡ (if text_eq k q then some b else lookup q m)
  unfolding lookup set
  lookup-set k q b [] = refl
  lookup-set k q b ((j, a) ∷ m) =
      ground (arith, text_eq_iff k q, text_eq_iff j k, text_eq_iff j q, lookup-set k q b m)

  pub lookup-erase :
      (k q : Text) (m : List (Text × A))
      → lookup q (erase k m) ≡ (if text_eq k q then none else lookup q m)
  unfolding lookup erase
  lookup-erase k q [] = ground arith
  lookup-erase k q ((j, a) ∷ m) =
      ground (arith, text_eq_iff k q, text_eq_iff j k, text_eq_iff j q, lookup-erase k q m)
