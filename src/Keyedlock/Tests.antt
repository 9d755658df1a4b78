-- ===== src/Keyedlock/Tests.antt =====
-- Two callers that name the same two keys in opposite orders, one of them twice.
use scrinium.Base.{◌+◌, Text, [], ◌∷◌, ◌≡◌, ◌⊎◌, List, All, refl, codes, text_eq}
use scrinium.Base.Order.{text_ltb}
use scrinium.Keyedlock.{
  Caller, Step, lock, lock_all, lock_order, compact, sort_keys, insert_key, locked,
}
use scrinium.Keyedlock.Progress.{work, IsDone}
use scrinium.Keyedlock.Runs.{Run, go, stay, start, locking_ends}

abbrev two_callers : List (List Text)
two_callers = (codes "a" ∷ codes "b" ∷ []) ∷ (codes "b" ∷ codes "a" ∷ codes "b" ∷ []) ∷ []

-- The first caller has locked "a".
abbrev one_step : List Caller
one_step =
    record { taken = codes "a" ∷ []; wanted = codes "b" ∷ [] }
    ∷ record { taken = []; wanted = codes "a" ∷ codes "b" ∷ [] }
    ∷ []

first_step : Run 1 (start two_callers) one_step
unfolding lock_all lock_order compact sort_keys insert_key text_ltb text_eq locked
first_step = go (lock refl) stay

locking_ends_example :
    (All IsDone one_step ⊎ ((cs' : List Caller) × Step one_step cs'))
    × (work (start two_callers) ≡ 1 + work one_step)
locking_ends_example = locking_ends two_callers 1 one_step first_step
