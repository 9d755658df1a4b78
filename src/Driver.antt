-- ===== src/Driver.antt =====
-- The contract of engine/driver/driver.go that the named artifacts and the lease rely on: a Location
-- as a list of objects, with Put, Get, Remove and the listing as atomic calls. Before each call
-- other processes may change the objects and time may pass, and the call may fail: that is a
-- schedule of turns, one for each call; past its end calls are undisturbed. A call that fails has no
-- effect of its own.
pub mod Objects
use scrinium.Base.{
  ℕ, ◌+◌, Text, Bool, true, false, ◌&&◌, Option, none, some, List, [], ◌∷◌, ◌++◌, text_eq,
  if◌then◌else◌,
}

pub data Error : Type 0 where
  not_exist already_exists : Error
  artifact_not_found invalid_system_name : Error
  ctx_cancelled lost_seq_races : Error
  io_error : ℕ → Error

pub data Result {ℓ} (A : Type ℓ) : Type ℓ where
  ok : A → Result A
  err : Error → Result A

-- Paths with their contents.
abbrev pub Objects : Type 0
Objects = List (Text × Text)

pub record Turn : Type 0 where
  pub elapsed : ℕ
  pub others : Objects → Objects
  pub fault : Option Error

-- `now` is the wall clock in nanoseconds.
pub record World : Type 0 where
  pub objects : Objects
  pub now : ℕ
  pub turns : List Turn

-- A Location that nothing else touches while the calls run.
abbrev pub quiet : Objects → ℕ → World
quiet o now = record { objects = o; now = now; turns = [] }

abbrev pub Exec : Type 0 → Type 0
Exec A = World → Result A × World

abbrev pub pure : {A : Type 0} → A → Exec A
pure a w = (ok a, w)

abbrev pub fail : {A : Type 0} → Error → Exec A
fail e w = (err e, w)

abbrev pub continue : {A B : Type 0} → Result A → (A → Exec B) → Exec B
continue (ok a) f w = f a w
continue (err e) f w = (err e, w)

infixl 5 ◌>>=◌ ◌>>◌
abbrev pub ◌>>=◌ : {A B : Type 0} → Exec A → (A → Exec B) → Exec B
◌>>=◌ m f w = let (r, w') = m w in continue r f w'

abbrev pub ◌>>◌ : {B : Type 0} → Exec (Unit {0}) → Exec B → Exec B
m >> k = m >>= λ _. k

unfoldable pub obj_get : Text → Objects → Option Text
obj_get p [] = none
obj_get p ((q, body) ∷ rest) = if text_eq q p then some body else obj_get p rest

unfoldable pub obj_put : Text → Text → Objects → Objects
obj_put p body [] = (p, body) ∷ []
obj_put p body ((q, old) ∷ rest) =
    if text_eq q p then (p, body) ∷ rest else (q, old) ∷ obj_put p body rest

unfoldable pub obj_remove : Text → Objects → Objects
obj_remove p [] = []
obj_remove p ((q, body) ∷ rest) =
    let others = obj_remove p rest in if text_eq q p then others else (q, body) ∷ others

-- The turn of the schedule before a call: its fault, and the world after it.
unfoldable pub turn : World → Option Error × World
turn w = elim w.turns [
  | [] ↦ (none, w)
  | t ∷ ts ↦
      (t.fault, record w { objects = t.others w.objects; now = w.now + t.elapsed; turns = ts })
]

abbrev pub unless_fault : {A : Type 0} → Option Error × World → Exec A → Result A × World
unless_fault (some e, w) call = (err e, w)
unless_fault (none, w) call = call w

-- Put; an exclusive one fails where the path is populated, and then writes nothing.
put_now : Text → Text → Bool → Exec (Unit {0})
put_now p body exclusive w =
    let write : Result (Unit {0}) × World =
      (ok tt, record w { objects = obj_put p body w.objects }) in
    elim (obj_get p w.objects) [
      | none ↦ write
      | some _ ↦ if exclusive then (err already_exists, w) else write
    ]

unfoldable pub put : Text → Text → Bool → Exec (Unit {0})
unfolding turn put_now
put p body exclusive w = unless_fault (turn w) (put_now p body exclusive)

get_now : Text → Exec Text
get_now p w = elim (obj_get p w.objects) [ none ↦ (err not_exist, w) | some body ↦ (ok body, w) ]

unfoldable pub get : Text → Exec Text
unfolding turn get_now
get p w = unless_fault (turn w) (get_now p)

-- A path that is not there is no error.
remove_now : Text → Exec (Unit {0})
remove_now p w = (ok tt, record w { objects = obj_remove p w.objects })

unfoldable pub remove : Text → Exec (Unit {0})
unfolding turn remove_now
remove p w = unless_fault (turn w) (remove_now p)

abbrev pub paths : Objects → List Text
paths [] = []
paths ((p, _) ∷ rest) = p ∷ paths rest

-- ListObjectsWithModTime: the paths that its callback sees.
unfoldable pub list_objects : Exec (List Text)
unfolding turn
list_objects w = unless_fault (turn w) (λ w'. (ok (paths w'.objects), w'))
