-- ===== src/Descriptor/Consensus.antt =====
-- Equal of equal.go, and what Reconcile chooses.
use mathlib.Core.Path.{subst₂}
use scrinium.Base.{
  ◌<◌, Bool, true, false, none, some, ◌≡◌, ◌≢◌, ◌⊎◌, inl, inr, refl, sym, ap, ◌∙◌, ltb, arith,
  text_eq_refl, text_eq_iff, ==_refl, Bool-cases, Option, ◌↔◌,
}
use scrinium.Descriptor.{
  KdfParams, Descriptor, equal, same_params, same_flag, Status, absent, corrupted, valid, reconcile,
  failed, split_brain, chosen, Action, heal_l0_from_l1, heal_l1_from_l0, heal_none,
  heal_both_from_l0, heal_both_from_l1,
}

same_params_refl : (k : Option KdfParams) → same_params k k ≡ true
same_params_refl none = refl
same_params_refl (some k) =
    rw
      (
        text_eq_refl k.algorithm,
        ==_refl k.time,
        ==_refl k.memory,
        ==_refl k.threads,
        text_eq_refl k.salt,
      )
      refl

same_params_sound : (j k : Option KdfParams) → same_params j k ≡ true → j ≡ k
same_params_sound none none h = refl
same_params_sound none (some k) h = ground (arith, h)
same_params_sound (some j) none h = ground (arith, h)
same_params_sound (some j) (some k) h =
    ground (arith, h, text_eq_iff j.algorithm k.algorithm, text_eq_iff j.salt k.salt)

same_flag_sound : (a b : Bool) → same_flag a b ≡ true → a ≡ b
same_flag_sound a b h = ground (arith, h)

pub equal_refl : (d : Descriptor) → equal d d ≡ true
unfolding equal
equal_refl d =
    ground (arith, text_eq_refl d.store_id, text_eq_refl d.dek, same_params_refl d.kdf_params)

pub equal_sound : (a b : Descriptor) → equal a b ≡ true → a ≡ b
unfolding equal
equal_sound a b h = ground (
  arith,
  h,
  text_eq_iff a.store_id b.store_id,
  text_eq_iff a.dek b.dek,
  same_flag_sound a.dek_encrypted b.dek_encrypted,
  same_params_sound a.kdf_params b.kdf_params,
)

-- A replica that is valid holds `d`, or a descriptor with a lower sequence number.
abbrev pub AtMost : Descriptor → Status → Type 0
AtMost d absent = Unit {0}
AtMost d corrupted = Unit {0}
AtMost d (valid x) = (x ≡ d) ⊎ (x.sequence < d.sequence)

-- `d` is in one of the replicas, and no replica has another one that is as new.
pub record IsNewest (d : Descriptor) (a b : Status) : Type 0 where
  pub held : (a ≡ valid d) ⊎ (b ≡ valid d)
  pub first : AtMost d a
  pub second : AtMost d b

choose_valid :
    (d x y : Descriptor) (act : Action)
    → reconcile (valid x) (valid y) ≡ chosen d act
    → IsNewest d (valid x) (valid y)
unfolding reconcile
choose_valid d x y act h = elim (Bool-cases (equal x y)) [
  | inl e ↦
      let same : x ≡ y = equal_sound x y e in
      let mine : x ≡ d = ground (arith, h, e) in
      record { held = inl (ap valid mine); first = inl mine; second = inl (sym same ∙ mine) }
  | inr e ↦ (elim (Bool-cases (ltb y.sequence x.sequence)) [
    | inl l ↦
        let mine : x ≡ d = ground (arith, h, e, l) in
        record { held = inl (ap valid mine); first = inl mine; second = inr (ground arith) }
    | inr l ↦
        let below : ltb x.sequence y.sequence ≡ true = ground (arith, h, e, l) in
        let mine : y ≡ d = ground (arith, h, e, l, below) in
        record { held = inr (ap valid mine); first = inr (ground arith); second = inl mine }
  ])
]

chosen-IsNewest :
    (d : Descriptor) (a b : Status) (act : Action) → reconcile a b ≡ chosen d act → IsNewest d a b
unfolding reconcile
chosen-IsNewest d absent absent act h = ground (arith, h)
chosen-IsNewest d absent corrupted act h = ground (arith, h)
chosen-IsNewest d corrupted absent act h = ground (arith, h)
chosen-IsNewest d corrupted corrupted act h = ground (arith, h)
chosen-IsNewest d absent (valid y) act h = record {
  held = inr (ground (arith, h));
  first = tt;
  second = inl (ground (arith, h));
}
chosen-IsNewest d corrupted (valid y) act h = record {
  held = inr (ground (arith, h));
  first = tt;
  second = inl (ground (arith, h));
}
chosen-IsNewest d (valid x) absent act h = record {
  held = inl (ground (arith, h));
  first = inl (ground (arith, h));
  second = tt;
}
chosen-IsNewest d (valid x) corrupted act h = record {
  held = inl (ground (arith, h));
  first = inl (ground (arith, h));
  second = tt;
}
chosen-IsNewest d (valid x) (valid y) act h = choose_valid d x y act h

different : (x y : Descriptor) → equal x y ≡ false → x ≢ y
different x y e h = ground (arith, e, equal_refl y, ap (λ t. equal t y) h)

newest_apart :
    (d x y : Descriptor)
    → equal x y ≡ false
    → IsNewest d (valid x) (valid y)
    → (act : Action) × (reconcile (valid x) (valid y) ≡ chosen d act)
unfolding reconcile
newest_apart d x y e n = elim (n.first) [
  | inl mine ↦ (elim (n.second) [
    | inl yours ↦ absurd (different x y e (mine ∙ sym yours))
    | inr l ↦
        let below : ltb y.sequence x.sequence ≡ true =
          ground (arith, ap (λ (t : Descriptor). t.sequence) mine) in
        (heal_both_from_l0, rw (e, below) (ap (λ t. chosen t heal_both_from_l0) mine))
  ])
  | inr l ↦ (elim (n.second) [
    | inr k ↦ absurd (ground (arith, n.held, l, k))
    | inl yours ↦
        let above : ltb y.sequence x.sequence ≡ false =
          ground (arith, ap (λ (t : Descriptor). t.sequence) yours) in
        let below : ltb x.sequence y.sequence ≡ true =
          ground (arith, ap (λ (t : Descriptor). t.sequence) yours) in
        (heal_both_from_l1, rw (e, above, below) (ap (λ t. chosen t heal_both_from_l1) yours))
  ])
]

newest_chosen :
    (d : Descriptor) (a b : Status)
    → IsNewest d a b
    → (act : Action) × (reconcile a b ≡ chosen d act)
unfolding reconcile
newest_chosen d absent absent n = absurd (ground (arith, n.held))
newest_chosen d absent corrupted n = absurd (ground (arith, n.held))
newest_chosen d corrupted absent n = absurd (ground (arith, n.held))
newest_chosen d corrupted corrupted n = absurd (ground (arith, n.held))
newest_chosen d absent (valid y) n = (heal_l0_from_l1, ground (arith, n.held))
newest_chosen d corrupted (valid y) n = (heal_l0_from_l1, ground (arith, n.held))
newest_chosen d (valid x) absent n = (heal_l1_from_l0, ground (arith, n.held))
newest_chosen d (valid x) corrupted n = (heal_l1_from_l0, ground (arith, n.held))
newest_chosen d (valid x) (valid y) n = elim (Bool-cases (equal x y)) [
  | inl e ↦
      let same : x ≡ y = equal_sound x y e in
      let mine : x ≡ d = ground (arith, same, n.held, n.first) in
      (heal_none, rw e (ap (λ t. chosen t heal_none) mine))
  | inr e ↦ newest_apart d x y e n
]

-- Reconcile settles on a descriptor exactly where it is in one of the two replicas, and each replica
-- is absent, corrupted, the same descriptor, or one of a lower sequence number.
pub reconcile_iff :
    (d : Descriptor) (a b : Status)
    → ((act : Action) × (reconcile a b ≡ chosen d act)) ↔ IsNewest d a b
reconcile_iff d a b = (λ h. chosen-IsNewest d a b h.0 h.1, newest_chosen d a b)

-- Two descriptors that differ under one sequence number.
abbrev pub AreSplit : Status → Status → Type 0
AreSplit (valid x) (valid y) = (x ≢ y) × (x.sequence ≡ y.sequence)
AreSplit a b = ⊥

split-AreSplit : (a b : Status) → reconcile a b ≡ failed split_brain → AreSplit a b
unfolding reconcile
split-AreSplit absent absent h = ground (arith, h)
split-AreSplit absent corrupted h = ground (arith, h)
split-AreSplit corrupted absent h = ground (arith, h)
split-AreSplit corrupted corrupted h = ground (arith, h)
split-AreSplit absent (valid y) h = ground (arith, h)
split-AreSplit corrupted (valid y) h = ground (arith, h)
split-AreSplit (valid x) absent h = ground (arith, h)
split-AreSplit (valid x) corrupted h = ground (arith, h)
split-AreSplit (valid x) (valid y) h = elim (Bool-cases (equal x y)) [
  | inl e ↦ ground (arith, h, e)
  | inr e ↦ (λ same. different x y e same, ground (arith, h, e))
]

split_reported : (a b : Status) → AreSplit a b → reconcile a b ≡ failed split_brain
unfolding reconcile
split_reported (valid x) (valid y) s = elim (Bool-cases (equal x y)) [
  | inl e ↦ absurd (s.0 (equal_sound x y e))
  | inr e ↦ ground (arith, e, s.1)
]
split_reported absent b s = absurd s
split_reported corrupted b s = absurd s
split_reported (valid x) absent s = absurd s
split_reported (valid x) corrupted s = absurd s

-- Reconcile reports a split brain exactly where both replicas are valid, with different descriptors
-- of one sequence number.
split_brain_iff : (a b : Status) → (reconcile a b ≡ failed split_brain) ↔ AreSplit a b
split_brain_iff a b = (split-AreSplit a b, split_reported a b)

-- The replicas that hold the chosen descriptor, by the repair that Reconcile asks for.
abbrev pub Sound : Descriptor → Action → Status → Status → Type 0
Sound d heal_none a b = (a ≡ valid d) × (b ≡ valid d)
Sound d heal_l0_from_l1 a b = b ≡ valid d
Sound d heal_both_from_l1 a b = b ≡ valid d
Sound d heal_l1_from_l0 a b = a ≡ valid d
Sound d heal_both_from_l0 a b = a ≡ valid d

chosen-inj : (x d : Descriptor) (k act : Action) → chosen x k ≡ chosen d act → (x ≡ d) × (k ≡ act)
chosen-inj x d k act h = (ground (arith, h), ground (arith, h))

from_l0 :
    (x d : Descriptor) (k act : Action) (s : Status)
    → Sound x k (valid x) s
    → chosen x k ≡ chosen d act
    → Sound d act (valid x) s
from_l0 x d k act s held h =
    let (e, f) = chosen-inj x d k act h in subst₂ (λ t l. Sound t l (valid x) s) e f held

from_l1 :
    (y d : Descriptor) (k act : Action) (s : Status)
    → Sound y k s (valid y)
    → chosen y k ≡ chosen d act
    → Sound d act s (valid y)
from_l1 y d k act s held h =
    let (e, f) = chosen-inj y d k act h in subst₂ (λ t l. Sound t l s (valid y)) e f held

pub chosen-Sound :
    (d : Descriptor) (act : Action) (a b : Status) → reconcile a b ≡ chosen d act → Sound d act a b
unfolding reconcile
chosen-Sound d act absent absent h = ground (arith, h)
chosen-Sound d act absent corrupted h = ground (arith, h)
chosen-Sound d act corrupted absent h = ground (arith, h)
chosen-Sound d act corrupted corrupted h = ground (arith, h)
chosen-Sound d act absent (valid y) h = from_l1 y d heal_l0_from_l1 act absent refl h
chosen-Sound d act corrupted (valid y) h = from_l1 y d heal_l0_from_l1 act corrupted refl h
chosen-Sound d act (valid x) absent h = from_l0 x d heal_l1_from_l0 act absent refl h
chosen-Sound d act (valid x) corrupted h = from_l0 x d heal_l1_from_l0 act corrupted refl h
chosen-Sound d act (valid x) (valid y) h = elim (Bool-cases (equal x y)) [
  | inl e ↦
      from_l0 x d heal_none act (valid y) (refl, ap valid (sym (equal_sound x y e))) (rw e at h)
  | inr e ↦ (elim (Bool-cases (ltb y.sequence x.sequence)) [
    | inl l ↦ from_l0 x d heal_both_from_l0 act (valid y) refl (rw (e, l) at h)
    | inr l ↦ (elim (Bool-cases (ltb x.sequence y.sequence)) [
      | inl k ↦ from_l1 y d heal_both_from_l1 act (valid x) refl (rw (e, l, k) at h)
      | inr k ↦ ground (arith, h, e, l, k)
    ])
  ])
]
