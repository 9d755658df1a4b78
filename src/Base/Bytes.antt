-- ===== src/Base/Bytes.antt =====
-- Go strings and byte slices as lists of numbers, with the functions of package strings that the
-- code calls.
use Prim.Native.Nat.{ℕ, ◌+◌, ◌*◌, ◌/◌, ◌%◌, ◌^◌, ◌<◌}
use Prim.Native.Char.{code}
use Prim.Native.String.{String}
use mathlib.Core.Path.{◌≡◌, refl, ap₂}
use mathlib.Core.Logic.{◌↔◌}
use mathlib.Core.Bool.{Bool, true, false, ◌&&◌}
use mathlib.Core.List.{List, [], ◌∷◌, ◌++◌}
use native.Mathlib.Omega.{arith}
use scrinium.Base.Tests.{◌==◌}

abbrev pub Text : Type 0
Text = List ℕ

-- The bytes of an ASCII literal.
abbrev pub codes : String → Text
codes String.[] = []
codes (String.◌∷◌ c s) = code c ∷ codes s

abbrev pub IsByte : ℕ → Type 0
IsByte b = b < 256

unfoldable pub text_eq : Text → Text → Bool
text_eq [] [] = true
text_eq (x ∷ xs) (y ∷ ys) = x == y && text_eq xs ys
text_eq _ _ = false

pub text_eq_sound : (s t : Text) → text_eq s t ≡ true → s ≡ t
unfolding text_eq
text_eq_sound [] [] h = refl
text_eq_sound [] (y ∷ ys) h = cc
text_eq_sound (x ∷ xs) [] h = cc
text_eq_sound (x ∷ xs) (y ∷ ys) h = ground (arith, text_eq_sound xs ys)

pub text_eq_refl : (s : Text) → text_eq s s ≡ true
unfolding text_eq
text_eq_refl [] = refl
text_eq_refl (x ∷ xs) = ground (arith, text_eq_refl xs)

pub text_eq_iff : (s t : Text) → (text_eq s t ≡ true) ↔ (s ≡ t)
text_eq_iff s t = (text_eq_sound s t, λ e. rw e (text_eq_refl t))

-- strings.HasPrefix
unfoldable pub has_prefix : Text → Text → Bool
has_prefix s [] = true
has_prefix [] (p ∷ ps) = false
has_prefix (c ∷ s) (p ∷ ps) = c == p && has_prefix s ps

pub has_prefix-append : (p s : Text) → has_prefix (p ++ s) p ≡ true
unfolding has_prefix
has_prefix-append [] s = refl
has_prefix-append (c ∷ p) s = ground (arith, has_prefix-append p s)

pub has_prefix_split : (s p : Text) → has_prefix s p ≡ true → (r : Text) × (s ≡ p ++ r)
unfolding has_prefix
has_prefix_split s [] h = (s, refl)
has_prefix_split [] (p ∷ ps) h = cc
has_prefix_split (c ∷ s) (p ∷ ps) h =
    let tail : (r : Text) × (s ≡ ps ++ r) = has_prefix_split s ps (ground arith) in
    let head : c ≡ p = ground arith in (tail.0, ap₂ (λ x (t : Text). x ∷ t) head tail.1)

-- encoding/binary, big endian.
unfoldable pub be16 : ℕ → Text
be16 n = (n / 2 ^ 8 % 256) ∷ (n % 256) ∷ []

unfoldable pub be32 : ℕ → Text
be32 n = (n / 2 ^ 24 % 256) ∷ (n / 2 ^ 16 % 256) ∷ (n / 2 ^ 8 % 256) ∷ (n % 256) ∷ []

unfoldable pub be64 : ℕ → Text
unfolding be32
be64 n = be32 (n / 2 ^ 32) ++ be32 (n % 2 ^ 32)

-- The number whose big-endian digits are given.
unfoldable pub be_value : Text → ℕ → ℕ
be_value [] acc = acc
be_value (b ∷ bs) acc = be_value bs (acc * 256 + b)

pub be_value-be32 : (n : ℕ) → n < 2 ^ 32 → be_value (be32 n) 0 ≡ n
unfolding be_value be32
be_value-be32 n h = omega arith

pub be_value-be16 : (n : ℕ) → n < 2 ^ 16 → be_value (be16 n) 0 ≡ n
unfolding be_value be16
be_value-be16 n h = omega arith
