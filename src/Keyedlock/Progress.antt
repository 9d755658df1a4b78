-- ===== src/Keyedlock/Progress.antt =====
-- Callers of LockAll side by side never deadlock, and all of them come to their end.
use scrinium.Base.{
  ℕ, suc, ◌+◌, ◌*◌, Text, true, false, List, [], ◌∷◌, ◌≡◌, ◌⊎◌, inl, inr, refl, sym, subst, arith,
  All, Bool-cases, text_eq, text_eq_sound, length,
}
use scrinium.Base.Order.{text_ltb, ltb_irrefl, ltb_trans}
use scrinium.Keyedlock.{Caller, has, locked, StepIn, lock, unlock, other, lock_all}
use scrinium.Keyedlock.Order.{Below, IsStrict, lock_order-IsStrict}

-- What a caller of LockAll keeps: its keys come strictly ascending.
pub record IsOrdered (c : Caller) : Type 0 where
  pub strict : IsStrict c.wanted
  pub ahead : All (λ k. All (Below k) c.wanted) c.taken

pub lock_all-IsOrdered : (keys : List Text) → IsOrdered (lock_all keys)
unfolding lock_all
lock_all-IsOrdered keys = record { strict = lock_order-IsStrict keys; ahead = tt }

abbrev pub IsDone : Caller → Type 0
IsDone c = (c.taken ≡ []) × (c.wanted ≡ [])

tails :
    (k : Text) (ks taken : List Text)
    → All (λ j. All (Below j) (k ∷ ks)) taken
    → All (λ j. All (Below j) ks) taken
tails k ks [] h = tt
tails k ks (j ∷ js) h = ((h.0).1, tails k ks js h.1)

no_wanted : (taken : List Text) → All (λ j. All (Below j) []) taken
no_wanted [] = tt
no_wanted (j ∷ js) = (tt, no_wanted js)

pub step-IsOrdered :
    (all cs cs' : List Caller) → StepIn all cs cs' → All IsOrdered cs → All IsOrdered cs'
step-IsOrdered all _ _ (lock {k} {taken} {wanted} {cs} free) h =
    let o = h.0 in
    (record { strict = (o.strict).1; ahead = ((o.strict).0, tails k wanted taken o.ahead) }, h.1)
step-IsOrdered all _ _ (unlock {k} {taken} {cs}) h =
    (record { strict = tt; ahead = no_wanted taken }, h.1)
step-IsOrdered all _ _ (other {c} {cs} {cs'} s) h = (h.0, step-IsOrdered all cs cs' s h.1)

-- What is left to do: a key to lock is two steps, a locked one is one.
abbrev pub work : List Caller → ℕ
work [] = 0
work (c ∷ cs) = 2 * length c.wanted + length c.taken + work cs

pub step-work : (all cs cs' : List Caller) → StepIn all cs cs' → work cs ≡ suc (work cs')
step-work all _ _ (lock {k} {taken} {wanted} {cs} free) = omega arith
step-work all _ _ (unlock {k} {taken} {cs}) = omega arith
step-work all _ _ (other {c} {cs} {cs'} s) = omega (arith, step-work all cs cs' s)

-- The next key that a caller wants, if any, is not above `k`.
abbrev NotAbove : Text → List Text → Type 0
NotAbove k [] = Unit {0}
NotAbove k (h ∷ ks) = text_ltb k h ≡ false

abbrev NoneAbove : Text → List Caller → Type 0
NoneAbove k cs = All (λ (c : Caller). NotAbove k c.wanted) cs

-- Some caller wants `k` next.
abbrev Wants : Text → List Caller → Type 0
Wants k [] = ⊥
Wants k (c ∷ cs) = ((ks : List Text) × (c.wanted ≡ k ∷ ks)) ⊎ Wants k cs

abbrev pub CanStep : List Caller → List Caller → Type 0
CanStep all cs = (cs' : List Caller) × StepIn all cs cs'

NotAbove-trans : (k h : Text) (ks : List Text) → Below k h → NotAbove k ks → NotAbove h ks
NotAbove-trans k h [] l n = tt
NotAbove-trans k h (x ∷ ks) l n = elim (Bool-cases (text_ltb h x)) [
  | inr e ↦ e
  | inl e ↦ ground (arith, n, ltb_trans k h x l e)
]

NoneAbove-trans : (k h : Text) (cs : List Caller) → Below k h → NoneAbove k cs → NoneAbove h cs
NoneAbove-trans k h [] l n = tt
NoneAbove-trans k h (c ∷ cs) l n = (NotAbove-trans k h c.wanted l n.0, NoneAbove-trans k h cs l n.1)

abbrev AllLocked : List Caller → Type 0
AllLocked cs = All (λ (c : Caller). c.wanted ≡ []) cs

idle_below : (k : Text) (cs : List Caller) → AllLocked cs → NoneAbove k cs
idle_below k [] h = tt
idle_below k (c ∷ cs) h = (subst (NotAbove k) (sym h.0) tt, idle_below k cs h.1)

-- The highest key that some caller wants next.
abbrev Highest : List Caller → Type 0
Highest cs = AllLocked cs ⊎ ((k : Text) × Wants k cs × NoneAbove k cs)

Highest-with :
    (taken wanted : List Text) (cs : List Caller)
    → Highest cs
    → Highest (record { taken = taken; wanted = wanted } ∷ cs)
Highest-with taken [] cs (inl h) = inl (refl, h)
Highest-with taken [] cs (inr (k, w, n)) = inr (k, inr w, (tt, n))
Highest-with taken (h ∷ ks) cs (inl i) = inr (h, inl (ks, refl), (ltb_irrefl h, idle_below h cs i))
Highest-with taken (h ∷ ks) cs (inr (k, w, n)) = elim (Bool-cases (text_ltb k h)) [
  | inl l ↦ inr (h, inl (ks, refl), (ltb_irrefl h, NoneAbove-trans k h cs l n))
  | inr l ↦ inr (k, inr w, (l, n))
]

highest : (cs : List Caller) → Highest cs
highest [] = inl tt
highest (c ∷ cs) = Highest-with c.taken c.wanted cs (highest cs)

later-CanStep :
    (all : List Caller) (c : Caller) (cs : List Caller) → CanStep all cs → CanStep all (c ∷ cs)
later-CanStep all c cs (cs', s) = (c ∷ cs', other s)

lock_at :
    (all cs : List Caller) (k : Text) (ks taken wanted : List Text)
    → locked k all ≡ false
    → wanted ≡ k ∷ ks
    → CanStep all (record { taken = taken; wanted = wanted } ∷ cs)
lock_at all cs k ks taken wanted free e =
    subst (λ w. CanStep all (record { taken = taken; wanted = w } ∷ cs)) (sym e)
      ((record { taken = k ∷ taken; wanted = ks } ∷ cs, lock free))

wanted-CanStep :
    (all cs : List Caller) (k : Text) → locked k all ≡ false → Wants k cs → CanStep all cs
wanted-CanStep all [] k free w = absurd w
wanted-CanStep all (c ∷ cs) k free (inl (ks, e)) = lock_at all cs k ks c.taken c.wanted free e
wanted-CanStep all (c ∷ cs) k free (inr w) = later-CanStep all c cs (wanted-CanStep all cs k free w)

has-All : (P : Text → Type 0) (k : Text) (ks : List Text) → has k ks ≡ true → All P ks → P k
has-All P k [] h hs = ground (arith, h)
has-All P k (j ∷ js) h hs = elim (Bool-cases (text_eq j k)) [
  | inl e ↦ subst P (text_eq_sound j k e) hs.0
  | inr e ↦ has-All P k js (ground (arith, h, e)) hs.1
]

-- A caller that holds a key above all the keys that are wanted wants none itself.
release_at :
    (all cs : List Caller) (k : Text) (taken wanted : List Text)
    → has k taken ≡ true
    → All (λ j. All (Below j) wanted) taken
    → NotAbove k wanted
    → CanStep all (record { taken = taken; wanted = wanted } ∷ cs)
release_at all cs k [] wanted h o n = ground (arith, h)
release_at all cs k (j ∷ js) [] h o n = (record { taken = js; wanted = [] } ∷ cs, unlock)
release_at all cs k (j ∷ js) (x ∷ ks) h o n =
    let below : All (Below k) (x ∷ ks) = has-All (λ i. All (Below i) (x ∷ ks)) k (j ∷ js) h o in
    ground (arith, n, below.0)

holder-CanStep :
    (all cs : List Caller) (k : Text)
    → locked k cs ≡ true
    → All IsOrdered cs
    → NoneAbove k cs
    → CanStep all cs
unfolding locked
holder-CanStep all [] k h o n = ground (arith, h)
holder-CanStep all (c ∷ cs) k h o n = elim (Bool-cases (has k c.taken)) [
  | inl e ↦ release_at all cs k c.taken c.wanted e (o.0).ahead n.0
  | inr e ↦ later-CanStep all c cs (holder-CanStep all cs k (rw e at h) o.1 n.1)
]

finish_at :
    (all cs : List Caller) (taken wanted : List Text)
    → wanted ≡ []
    → All IsDone cs ⊎ CanStep all cs
    → All IsDone (record { taken = taken; wanted = wanted } ∷ cs)
      ⊎ CanStep all (record { taken = taken; wanted = wanted } ∷ cs)
finish_at all cs [] wanted e (inl d) = inl ((refl, e), d)
finish_at all cs taken wanted e (inr s) =
    inr (later-CanStep all (record { taken = taken; wanted = wanted }) cs s)
finish_at all cs (k ∷ ks) wanted e (inl d) = inr (
    subst (λ w. CanStep all (record { taken = k ∷ ks; wanted = w } ∷ cs)) (sym e)
      ((record { taken = ks; wanted = [] } ∷ cs, unlock)))

finish : (all cs : List Caller) → AllLocked cs → All IsDone cs ⊎ CanStep all cs
finish all [] h = inl tt
finish all (c ∷ cs) h = finish_at all cs c.taken c.wanted h.0 (finish all cs h.1)

-- No deadlock: where the keys of every caller come strictly ascending, all callers are done or one of
-- them can make a step.
pub progress : (cs : List Caller) → All IsOrdered cs → All IsDone cs ⊎ CanStep cs cs
progress cs o = elim (highest cs) [
  | inl h ↦ finish cs cs h
  | inr (k, w, n) ↦ (elim (Bool-cases (locked k cs)) [
    | inl e ↦ inr (holder-CanStep cs cs k e o n)
    | inr e ↦ inr (wanted-CanStep cs cs k e w)
  ])
]
