-- ===== src/Keyedlock.antt =====
-- internal/keyedlock/keyedlock.go: the order in which LockAll takes its keys, and the callers that lock
-- and unlock side by side. A mutex is its key, since Get gives the same mutex for the same
-- key; nothing else locks it.
pub mod Order
pub mod Progress
pub mod Runs
mod Tests
use scrinium.Base.{Text, Bool, true, false, not, ◌||◌, List, [], ◌∷◌, ◌≡◌, text_eq, if◌then◌else◌}
use scrinium.Base.Order.{text_ltb}

-- slices.Sort
unfoldable pub insert_key : Text → List Text → List Text
insert_key k [] = k ∷ []
insert_key k (j ∷ js) = let rest = insert_key k js in if text_ltb j k then j ∷ rest else k ∷ j ∷ js

unfoldable pub sort_keys : List Text → List Text
sort_keys [] = []
sort_keys (k ∷ ks) = insert_key k (sort_keys ks)

-- slices.Compact
unfoldable pub compact : List Text → List Text
compact [] = []
compact (k ∷ []) = k ∷ []
compact (k ∷ j ∷ js) = let rest = compact (j ∷ js) in if text_eq k j then rest else k ∷ rest

unfoldable pub lock_order : List Text → List Text
lock_order keys = compact (sort_keys keys)

-- A caller between the start of LockAll and the end of its release: the keys it has locked, the last
-- one first, and those it has still to lock.
pub record Caller : Type 0 where
  pub taken : List Text
  pub wanted : List Text

unfoldable pub lock_all : List Text → Caller
lock_all keys = record { taken = []; wanted = lock_order keys }

abbrev pub has : Text → List Text → Bool
has k [] = false
has k (j ∷ js) = text_eq j k || has k js

-- Some caller has locked the key.
unfoldable pub locked : Text → List Caller → Bool
locked k [] = false
locked k (c ∷ cs) = has k c.taken || locked k cs

-- One caller makes a step among `all`: it locks its next key, which no caller holds, or, when it has
-- them all, it releases the one that it locked last.
pub data StepIn (all : List Caller) : List Caller → List Caller → Type 0 where
  lock :
      {k : Text} {taken wanted : List Text} {cs : List Caller}
      → locked k all ≡ false
      → StepIn all
          (record { taken = taken; wanted = k ∷ wanted } ∷ cs)
          (record { taken = k ∷ taken; wanted = wanted } ∷ cs)
  unlock :
      {k : Text} {taken : List Text} {cs : List Caller}
      → StepIn all
          (record { taken = k ∷ taken; wanted = [] } ∷ cs)
          (record { taken = taken; wanted = [] } ∷ cs)
  other : {c : Caller} {cs cs' : List Caller} → StepIn all cs cs' → StepIn all (c ∷ cs) (c ∷ cs')

abbrev pub Step : List Caller → List Caller → Type 0
Step cs cs' = StepIn cs cs cs'
