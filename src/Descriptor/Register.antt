-- ===== src/Descriptor/Register.antt =====
-- The two cells as one register: what WriteBoth leaves however far it comes, and what the next
-- opening makes of it.
use scrinium.Base.{
  ℕ, ◌<◌, Text, none, some, ◌≡◌, ◌⊎◌, inl, inr, refl, sym, ap, subst, ◌∙◌, arith, Option-cases,
}
use scrinium.Driver.{World, Objects, obj_put}
use scrinium.Descriptor.{
  ◌>>◌, Descriptor, l0, l1, name_of, Codec, Failure, Outcome, done, failed, Status, absent,
  corrupted, valid, validate, marshal, write_replica_cell, write_both, reconcile, chosen, Action,
}
use scrinium.Descriptor.Consensus.{AtMost, reconcile_iff}
use scrinium.Descriptor.Cells.{
  cell, replica_at, AreCalm, IsFaithful, Written, write-Written, stored_at, other_at,
}

-- Reconcile settles on `d` over the two cells.
pub record Represents (codec : Codec) (o : Objects) (d : Descriptor) : Type 0 where
  pub status0 : Status
  pub status1 : Status
  pub first : replica_at codec l0 o ≡ done status0
  pub second : replica_at codec l1 o ≡ done status1
  pub settled : (act : Action) × (reconcile status0 status1 ≡ chosen d act)

older-AtMost :
    (d d' : Descriptor) (s : Status) → d.sequence < d'.sequence → AtMost d s → AtMost d' s
older-AtMost d d' absent l h = tt
older-AtMost d d' corrupted l h = tt
older-AtMost d d' (valid x) l h = inr (ground (arith, h, l))

-- The abstract register: a write takes effect as a whole, or it fails and leaves the old value.
pub data RegisterWrite (old new : Descriptor) : Outcome (Unit {0}) → Descriptor → Type 0 where
  applied : {r : Outcome (Unit {0})} → RegisterWrite old new r new
  refused : {e : Failure} → RegisterWrite old new (failed e) old

-- A write of the two cells is a write of the register that they represent.
abbrev pub IsRegisterWrite : Codec → Descriptor → Descriptor → Outcome (Unit {0}) × World → Type 0
IsRegisterWrite codec old new (r, w) =
    (d : Descriptor) × RegisterWrite old new r d × Represents codec w.objects d

outcome-cases :
    {A : Type 0} (p : Outcome A × World)
    → ((a : A) × (w : World) × (p ≡ (done a, w)))
      ⊎ ((e : Failure) × (w : World) × (p ≡ (failed e, w)))
outcome-cases (done a, w) = inl (a, w, refl)
outcome-cases (failed e, w) = inr (e, w, refl)

module _ (codec : Codec) (faithful : IsFaithful codec) (old new : Descriptor) (json : Text)
    (v : validate new ≡ none) (m : codec.marshal new ≡ some json)
    (newer : old.sequence < new.sequence) where
  -- After the first cell alone, the new descriptor outweighs what the second cell holds.
  first_written :
      (o : Objects) (t : ℕ) (body : Text)
      → codec.build t (name_of l0) json ≡ some body
      → Represents codec o old
      → Represents codec (obj_put (cell l0) body o) new
  first_written o t body b h = record {
    status0 = valid new;
    status1 = h.status1;
    first = stored_at codec l0 o t json body new faithful v m b;
    second = (other_at codec o body).1 ∙ h.second;
    settled = (reconcile_iff new (valid new) h.status1).1 (record {
      held = inl refl;
      first = inl refl;
      second =
          older-AtMost old new h.status1 newer
            (((reconcile_iff old h.status0 h.status1).0 h.settled).second);
    });
  }

  both_written :
      (o : Objects) (t : ℕ) (body : Text)
      → codec.build t (name_of l1) json ≡ some body
      → replica_at codec l0 o ≡ done (valid new)
      → Represents codec (obj_put (cell l1) body o) new
  both_written o t body b h = record {
    status0 = valid new;
    status1 = valid new;
    first = (other_at codec o body).0 ∙ h;
    second = stored_at codec l1 o t json body new faithful v m b;
    settled =
        (reconcile_iff new (valid new) (valid new)).1
          (record { held = inl refl; first = inl refl; second = inl refl });
  }

  second_cell :
      (w : World)
      → AreCalm w.turns
      → replica_at codec l0 w.objects ≡ done (valid new)
      → Represents codec w.objects new
      → IsRegisterWrite codec old new (write_replica_cell codec (name_of l1) json w)
  second_cell w calm h rep =
      let wrote = write-Written codec l1 json w calm in
      elim (outcome-cases (write_replica_cell codec (name_of l1) json w)) [
        | inl (u, w', e) ↦
            let (t, body, b, left) = subst (Written codec l1 json w.objects) e wrote in
            rw e (
              new,
              applied,
              subst (λ o. Represents codec o new) (sym left.same)
                  (both_written w.objects t body b h),
            )
        | inr (x, w', e) ↦
            let left = subst (Written codec l1 json w.objects) e wrote in
            rw e (new, applied, subst (λ o. Represents codec o new) (sym left.same) rep)
      ]

  two_cells :
      (w : World)
      → AreCalm w.turns
      → Represents codec w.objects old
      → IsRegisterWrite codec old new (
          (write_replica_cell codec (name_of l0) json >> write_replica_cell codec (name_of l1) json)
            w)
  two_cells w calm h =
      let wrote = write-Written codec l0 json w calm in
      elim (outcome-cases (write_replica_cell codec (name_of l0) json w)) [
        | inl (u, w', e) ↦
            let (t, body, b, left) = subst (Written codec l0 json w.objects) e wrote in
            rw e (
              second_cell w' left.calm
                (ap (replica_at codec l0) left.same
                  ∙ stored_at codec l0 w.objects t json body new faithful v m b)
                (subst (λ o. Represents codec o new) (sym left.same)
                  (first_written w.objects t body b h)))
        | inr (x, w', e) ↦
            let left = subst (Written codec l0 json w.objects) e wrote in
            rw e (old, refused, subst (λ o. Represents codec o old) (sym left.same) h)
      ]

-- WriteBoth refines a write of one register. The two cells represent the descriptor that Reconcile
-- settles on. Whatever call of WriteBoth fails or is never made, the cells represent the old or the
-- new descriptor afterwards, and the new one where WriteBoth reports no failure; the new descriptor
-- has a greater sequence number than the old one, what a cell holds is read back, and no other
-- process changes the Location.
pub write_both-IsRegisterWrite :
    (codec : Codec) (old new : Descriptor) (w : World)
    → IsFaithful codec
    → AreCalm w.turns
    → old.sequence < new.sequence
    → Represents codec w.objects old
    → IsRegisterWrite codec old new (write_both codec new w)
unfolding write_both marshal
write_both-IsRegisterWrite codec old new w faithful calm newer h =
    elim (Option-cases (validate new)) [
      | inr (x, v) ↦ rw v (old, refused, h)
      | inl v ↦ (elim (Option-cases (codec.marshal new)) [
        | inl m ↦ rw (v, m) (old, refused, h)
        | inr (json, m) ↦ rw (v, m) (two_cells codec faithful old new json v m newer w calm h)
      ])
    ]
