-- ===== src/Driver/Objects.antt =====
-- Laws of the objects of a Location.
use scrinium.Base.{
  Text, none, some, [], ◌∷◌, ◌++◌, ◌≡◌, refl, arith, text_eq, text_eq_iff, text_eq_refl,
  if◌then◌else◌, Bool-cases, inl, inr, ap, ◌⊎◌,
}
use scrinium.Driver.{Error, Result, ok, err, World, Objects, obj_get, obj_put, obj_remove, paths}

pub get-put :
    (p q body : Text) (o : Objects)
    → obj_get q (obj_put p body o) ≡ (if text_eq p q then some body else obj_get q o)
unfolding obj_get obj_put
get-put p q body [] = refl
get-put p q body ((r, old) ∷ rest) =
    ground (arith, text_eq_iff p q, text_eq_iff r p, text_eq_iff r q, get-put p q body rest)

pub get-put_self : (p body : Text) (o : Objects) → obj_get p (obj_put p body o) ≡ some body
get-put_self p body o = rw get-put (rw (text_eq_refl p))

pub get-remove :
    (p q : Text) (o : Objects)
    → obj_get q (obj_remove p o) ≡ (if text_eq p q then none else obj_get q o)
unfolding obj_get obj_remove
get-remove p q [] = ground arith
get-remove p q ((r, old) ∷ rest) =
    ground (arith, text_eq_iff p q, text_eq_iff r p, text_eq_iff r q, get-remove p q rest)

-- A new path is listed last.
pub paths-put_new :
    (p body : Text) (o : Objects)
    → obj_get p o ≡ none
    → paths (obj_put p body o) ≡ paths o ++ (p ∷ [])
unfolding obj_get obj_put
paths-put_new p body [] h = refl
paths-put_new p body ((r, old) ∷ rest) h = elim (Bool-cases (text_eq r p)) [
  | inl e ↦ ground (arith, e)
  | inr e ↦ rw e (ap (λ t. r ∷ t) (paths-put_new p body rest (rw e at h)))
]

pub run-cases :
    {A : Type 0} (p : Result A × World)
    → ((a : A) × (w : World) × (p ≡ (ok a, w))) ⊎ ((e : Error) × (w : World) × (p ≡ (err e, w)))
run-cases (ok a, w) = inl (a, w, refl)
run-cases (err e, w) = inr (e, w, refl)

pub result-cases :
    {A : Type 0} (r : Result A) → ((a : A) × (r ≡ ok a)) ⊎ ((e : Error) × (r ≡ err e))
result-cases (ok a) = inl (a, refl)
result-cases (err e) = inr (e, refl)
