-- ===== src/Keyedlock/Runs.antt =====
-- Callers of LockAll side by side over whole runs.
use scrinium.Base.{ℕ, suc, ◌+◌, Text, List, [], ◌∷◌, ◌≡◌, ◌⊎◌, arith, All}
use scrinium.Keyedlock.{Caller, Step, lock_all}
use scrinium.Keyedlock.Progress.{
  IsOrdered, IsDone, work, lock_all-IsOrdered, step-IsOrdered, step-work, progress,
}

-- Runs of a given number of steps, in any interleaving of the callers.
pub data Run : ℕ → List Caller → List Caller → Type 0 where
  stay : {cs : List Caller} → Run 0 cs cs
  go : {n : ℕ} {cs cs' cs'' : List Caller} → Step cs cs' → Run n cs' cs'' → Run (suc n) cs cs''

Run-IsOrdered : (n : ℕ) (cs cs' : List Caller) → Run n cs cs' → All IsOrdered cs → All IsOrdered cs'
Run-IsOrdered _ _ _ (stay {cs}) o = o
Run-IsOrdered _ _ _ (go {n} {cs} {cs'} {cs''} s r) o =
    Run-IsOrdered n cs' cs'' r (step-IsOrdered cs cs cs' s o)

Run-work : (n : ℕ) (cs cs' : List Caller) → Run n cs cs' → work cs ≡ n + work cs'
Run-work _ _ _ (stay {cs}) = omega arith
Run-work _ _ _ (go {n} {cs} {cs'} {cs''} s r) =
    omega (arith, step-work cs cs cs' s, Run-work n cs' cs'' r)

abbrev pub start : List (List Text) → List Caller
start [] = []
start (keys ∷ more) = lock_all keys ∷ start more

start-IsOrdered : (sets : List (List Text)) → All IsOrdered (start sets)
start-IsOrdered [] = tt
start-IsOrdered (keys ∷ more) = (lock_all-IsOrdered keys, start-IsOrdered more)

-- Callers of LockAll side by side, each with any keys in any order and with repetitions, neither
-- deadlock nor run for ever: after any number of steps in any interleaving either every caller has
-- locked and released all its keys, or one of them can make the next step; and every step takes one
-- off the work, which is two for each key that a caller locks, so that a run has at most that many.
pub locking_ends :
    (sets : List (List Text)) (n : ℕ) (cs : List Caller)
    → Run n (start sets) cs
    → (All IsDone cs ⊎ ((cs' : List Caller) × Step cs cs')) × (work (start sets) ≡ n + work cs)
locking_ends sets n cs r = (
  progress cs (Run-IsOrdered n (start sets) cs r (start-IsOrdered sets)),
  Run-work n (start sets) cs r,
)
