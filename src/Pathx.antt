-- ===== src/Pathx.antt =====
-- projection/pathx/pathx.go: slash-separated paths.
pub mod Paths
use scrinium.Base.{
  ℕ, zero, suc, Text, Bool, true, false, not, ◌&&◌, Option, none, some, [], ◌∷◌, ◌++◌, leb, ◌==◌,
  if◌then◌else◌, length, take, text_eq, has_prefix,
}
use scrinium.Cut.{cut_first, cut_last}

abbrev pub slash : ℕ
slash = b'/'

-- LastSegment
unfoldable pub last_of : Text → Text
last_of p = elim (cut_last slash p) [ none ↦ p | some (_, last) ↦ last ]

unfoldable pub parent : Text → Text
parent p = elim (cut_last slash p) [ none ↦ [] | some (before, _) ↦ before ]

unfoldable pub split_first : Text → Text × Text
split_first p = elim (cut_first slash p) [ none ↦ (p, []) | some parts ↦ parts ]

unfoldable pub join : Text → Text → Text
join [] child = child
join (c ∷ s) [] = c ∷ s
join (c ∷ s) (d ∷ t) = (c ∷ s) ++ (slash ∷ (d ∷ t))

unfoldable pub is_under : Text → Text → Bool
is_under p [] = not (text_eq p [])
is_under p (c ∷ s) = if text_eq p (c ∷ s) then true else has_prefix p ((c ∷ s) ++ (slash ∷ []))

-- The byte of a path at a position, where the length was tested.
unfoldable pub byte_from : Text → ℕ → ℕ
byte_from [] i = 0
byte_from (c ∷ s) zero = c
byte_from (c ∷ s) (suc i) = byte_from s i

unfoldable pub is_strict_under : Text → Text → Bool
is_strict_under p [] = not (text_eq p [])
is_strict_under p (c ∷ s) =
    if leb (length p) (length (c ∷ s))
    then false
    else if text_eq (take (length (c ∷ s)) p) (c ∷ s)
    then byte_from p (length (c ∷ s)) == slash
    else false
