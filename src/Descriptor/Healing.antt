-- ===== src/Descriptor/Healing.antt =====
-- The opening of the store over the two cells: loadCanonicalDescriptor on a Location that nothing
-- else touches.
use scrinium.Base.{ℕ, Text, none, some, ◌≡◌, inl, inr, refl, ap, ◌∙◌, arith, Option-cases, Option}
use scrinium.Driver.{quiet, Objects, obj_get, obj_put, turn}
use scrinium.Descriptor.{
  Descriptor, Replica, l0, l1, name_of, Codec, unreadable, done, failed, Status, valid, validate,
  marshal, unmarshalled, read_both, write_replica_cell, write_replica, Action, heal_none,
  heal_l0_from_l1, heal_l1_from_l0, heal_both_from_l0, heal_both_from_l1, heal_replicas,
  load_canonical_descriptor, unreadable_manifest, Loaded, content, mismatch, status_of,
}
use scrinium.Descriptor.Consensus.{reconcile_iff, Sound, chosen-Sound}
use scrinium.Descriptor.Cells.{
  cell, replica_at, IsFaithful, stored_at, other_at, read_replica-quiet, put_over, write_cell-put,
  found,
}
use scrinium.Descriptor.Register.{Represents}

-- Both cells hold `d`.
abbrev pub BothHold : Codec → Objects → Descriptor → Type 0
BothHold codec o d =
    (replica_at codec l0 o ≡ done (valid d)) × (replica_at codec l1 o ≡ done (valid d))

-- The descriptor can be written.
pub record IsWritable (codec : Codec) (d : Descriptor) : Type 0 where
  pub marshalled : (json : Text) × (codec.marshal d ≡ some json)
  pub built : (now : ℕ) (name json : Text) → (body : Text) × (codec.build now name json ≡ some body)

unmarshalled_valid :
    (codec : Codec) (json : Text) (d : Descriptor)
    → unmarshalled codec json ≡ valid d
    → validate d ≡ none
unfolding unmarshalled
unmarshalled_valid codec json d h = elim (Option-cases (codec.parse json)) [
  | inl e ↦ ground (arith, h, e)
  | inr (x, e) ↦ (elim (Option-cases (validate x)) [
    | inl v ↦ ground (arith, h, e, v)
    | inr (y, v) ↦ ground (arith, h, e, v)
  ])
]

loaded_valid :
    (codec : Codec) (l : Loaded) (d : Descriptor)
    → status_of codec l ≡ done (valid d)
    → validate d ≡ none
loaded_valid codec (content json) d h = unmarshalled_valid codec json d (ground (arith, h))
loaded_valid codec mismatch d h = ground (arith, h)
loaded_valid codec unreadable d h = ground (arith, h)

held_valid :
    (codec : Codec) (c : Option Text) (d : Descriptor)
    → found codec c ≡ done (valid d)
    → validate d ≡ none
held_valid codec none d h = ground (arith, h)
held_valid codec (some bytes) d h = loaded_valid codec (codec.load bytes) d h

module _ (codec : Codec) (faithful : IsFaithful codec) (d : Descriptor)
    (writable : IsWritable codec d) (v : validate d ≡ none) where
  abbrev body_for : ℕ → Replica → Text
  body_for now r = (writable.built now (name_of r) (writable.marshalled).0).0

  replica_written :
      (r : Replica) (o : Objects) (now : ℕ)
      → write_replica codec d r (quiet o now)
        ≡ (done tt, quiet (obj_put (cell r) (body_for now r) o) now)
  unfolding write_replica write_replica_cell marshal turn
  replica_written r o now =
      rw
        (
          v,
          (writable.marshalled).1,
          write_replica_cell,
          (writable.built now (name_of r) (writable.marshalled).0).1,
          write_cell-put r (body_for now r) (quiet o now),
          put_over,
        )
        refl

  cell_written :
      (r : Replica) (o : Objects) (now : ℕ)
      → replica_at codec r (obj_put (cell r) (body_for now r) o) ≡ done (valid d)
  cell_written r o now =
      stored_at codec r o now (writable.marshalled).0 (body_for now r) d faithful v
        (writable.marshalled).1 (writable.built now (name_of r) (writable.marshalled).0).1

  -- The repair that Reconcile asks for leaves the chosen descriptor in both cells.
  healed :
      (act : Action) (a b : Status) (o : Objects) (now : ℕ)
      → replica_at codec l0 o ≡ done a
      → replica_at codec l1 o ≡ done b
      → Sound d act a b
      → (o' : Objects) × (heal_replicas codec d act (quiet o now) ≡ (done tt, quiet o' now))
        × BothHold codec o' d
  unfolding heal_replicas
  healed heal_none a b o now p q s = (o, refl, (p ∙ ap done s.0, q ∙ ap done s.1))
  healed heal_l0_from_l1 a b o now p q s = (
    obj_put (cell l0) (body_for now l0) o,
    replica_written l0 o now,
    (cell_written l0 o now, (other_at codec o (body_for now l0)).1 ∙ q ∙ ap done s),
  )
  healed heal_both_from_l1 a b o now p q s = (
    obj_put (cell l0) (body_for now l0) o,
    replica_written l0 o now,
    (cell_written l0 o now, (other_at codec o (body_for now l0)).1 ∙ q ∙ ap done s),
  )
  healed heal_l1_from_l0 a b o now p q s = (
    obj_put (cell l1) (body_for now l1) o,
    replica_written l1 o now,
    ((other_at codec o (body_for now l1)).0 ∙ p ∙ ap done s, cell_written l1 o now),
  )
  healed heal_both_from_l0 a b o now p q s = (
    obj_put (cell l1) (body_for now l1) o,
    replica_written l1 o now,
    ((other_at codec o (body_for now l1)).0 ∙ p ∙ ap done s, cell_written l1 o now),
  )

read_both-quiet :
    (codec : Codec) (o : Objects) (now : ℕ) (a b : Status)
    → replica_at codec l0 o ≡ done a
    → replica_at codec l1 o ≡ done b
    → read_both codec (quiet o now) ≡ (done (a, b), quiet o now)
unfolding read_both
read_both-quiet codec o now a b p q =
    rw
      (
        read_both,
        read_replica-quiet codec l0 o now,
        p,
        read_replica-quiet codec l0 o now,
        read_replica-quiet codec l1 o now,
        q,
        read_replica-quiet codec l0 o now,
        read_replica-quiet codec l1 o now,
      )
      refl

represented_valid :
    (codec : Codec) (o : Objects) (d : Descriptor) → Represents codec o d → validate d ≡ none
represented_valid codec o d h = elim (((reconcile_iff d h.status0 h.status1).0 h.settled).held) [
  | inl e ↦ held_valid codec (obj_get (cell l0) o) d (h.first ∙ ap done e)
  | inr e ↦ held_valid codec (obj_get (cell l1) o) d (h.second ∙ ap done e)
]

-- The opening of a store on a Location that nothing else touches, whose two cells represent `d`,
-- gives `d` and leaves it in both cells: a cell that was absent, corrupted or behind is written again.
-- `d` can be written, and what a cell holds is read back.
pub load_canonical_heals :
    (codec : Codec) (o : Objects) (now : ℕ) (d : Descriptor)
    → IsFaithful codec
    → IsWritable codec d
    → Represents codec o d
    → (o' : Objects) × (load_canonical_descriptor codec (quiet o now) ≡ (done d, quiet o' now))
      × BothHold codec o' d
unfolding load_canonical_descriptor
load_canonical_heals codec o now d faithful writable h =
    let (act, e) = h.settled in
    let (o', w, both) =
      healed codec faithful d writable (represented_valid codec o d h) act h.status0 h.status1 o now
        h.first h.second (chosen-Sound d act h.status0 h.status1 e) in
    (o', rw (read_both-quiet codec o now h.status0 h.status1 h.first h.second, e, w) refl, both)

-- The defect: a first cell whose manifest cannot be read is not Corrupted to ReadReplica, so the
-- opening of the store fails whatever the second cell holds, and heals nothing.
pub load_canonical_unreadable :
    (codec : Codec) (o : Objects) (now : ℕ) (bytes : Text)
    → obj_get (cell l0) o ≡ some bytes
    → codec.load bytes ≡ unreadable
    → load_canonical_descriptor codec (quiet o now) ≡ (failed unreadable_manifest, quiet o now)
unfolding load_canonical_descriptor read_both
load_canonical_unreadable codec o now bytes p u =
    rw
      (
        read_both,
        read_replica-quiet codec l0 o now,
        p,
        u,
        read_replica-quiet codec l0 o now,
        read_replica-quiet codec l1 o now,
      )
      refl
