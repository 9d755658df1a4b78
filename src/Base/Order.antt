-- ===== src/Base/Order.antt =====
-- Go's `<` on strings is a strict total order.
use mathlib.Core.Path.{◌≡◌, refl}
use mathlib.Core.Bool.{Bool, true, false}
use mathlib.Core.List.{[], ◌∷◌}
use native.Mathlib.Omega.{arith}
use scrinium.Base.Tests.{ltb, ◌==◌, if◌then◌else◌}
use scrinium.Base.Bytes.{Text}

unfoldable pub text_ltb : Text → Text → Bool
text_ltb [] [] = false
text_ltb [] (d ∷ t) = true
text_ltb (c ∷ s) [] = false
text_ltb (c ∷ s) (d ∷ t) =
    let rest = text_ltb s t in if ltb c d then true else if c == d then rest else false

pub ltb_irrefl : (s : Text) → text_ltb s s ≡ false
unfolding text_ltb
ltb_irrefl [] = refl
ltb_irrefl (c ∷ s) = ground (arith, ltb_irrefl s)

pub ltb_trans : (s t u : Text) → text_ltb s t ≡ true → text_ltb t u ≡ true → text_ltb s u ≡ true
unfolding text_ltb
ltb_trans [] [] u h k = ground (arith, h)
ltb_trans [] (d ∷ t) [] h k = ground (arith, k)
ltb_trans [] (d ∷ t) (e ∷ u) h k = refl
ltb_trans (c ∷ s) [] u h k = ground (arith, h)
ltb_trans (c ∷ s) (d ∷ t) [] h k = ground (arith, k)
ltb_trans (c ∷ s) (d ∷ t) (e ∷ u) h k = ground (arith, h, k, ltb_trans s t u)

-- Two texts of which neither is below the other are equal.
pub ltb_total : (s t : Text) → text_ltb s t ≡ false → text_ltb t s ≡ false → s ≡ t
unfolding text_ltb
ltb_total [] [] h k = refl
ltb_total [] (d ∷ t) h k = ground (arith, h)
ltb_total (c ∷ s) [] h k = ground (arith, k)
ltb_total (c ∷ s) (d ∷ t) h k = ground (arith, h, k, ltb_total s t)
