-- ===== src/Descriptor/Cells.antt =====
-- The two cells, one at a time: what reading and writing one leaves.
use scrinium.Base.{
  ℕ, Text, false, Option, none, some, [], ◌∷◌, ◌≡◌, inl, inr, refl, ap, arith, text_eq, has_prefix,
  List, All, Option-cases,
}
use scrinium.Driver.{
  quiet, World, Turn, Objects, obj_get, obj_put, put, get, turn, not_exist, unless_fault,
}
use scrinium.Driver
use scrinium.Driver.Objects.{get-put, get-put_self}
use scrinium.Named.{
  cell_of, cell_path, write_cell, validate_name, ends_with_slash, has_double_slash, any_traversal,
  split_slash,
}
use scrinium.Descriptor.{
  stored, Descriptor, Replica, l0, l1, name_of, Codec, content, Outcome, done, failed, Status,
  absent, valid, validate, unmarshalled, status_of, read_replica, write_replica_cell,
}

abbrev pub cell : Replica → Text
cell r = cell_of (name_of r)

pub cell_ok : (r : Replica) → cell_path (name_of r) ≡ Driver.ok (cell r)
unfolding cell_path validate_name ends_with_slash has_double_slash any_traversal split_slash
    has_prefix text_eq
cell_ok l0 = refl
cell_ok l1 = refl

cells_apart : (text_eq (cell l0) (cell l1) ≡ false) × (text_eq (cell l1) (cell l0) ≡ false)
unfolding text_eq
cells_apart = (refl, refl)

-- What ReadReplica makes of the content of a cell.
abbrev pub found : Codec → Option Text → Outcome Status
found codec none = done absent
found codec (some bytes) = status_of codec (codec.load bytes)

abbrev pub replica_at : Codec → Replica → Objects → Outcome Status
replica_at codec r o = found codec (obj_get (cell r) o)

-- The other processes leave the Location alone; calls may fail and time may pass.
abbrev pub AreCalm : List Turn → Type 0
AreCalm ts = All (λ (t : Turn). (o : Objects) → t.others o ≡ o) ts

-- What a cell holds for `d` is read back.
abbrev pub IsFaithful : Codec → Type 0
IsFaithful codec =
    (now : ℕ) (name json body : Text) (d : Descriptor)
    → codec.marshal d ≡ some json
    → codec.build now name json ≡ some body
    → (codec.load body ≡ content json) × (codec.parse json ≡ some d)

pub read_replica-quiet :
    (codec : Codec) (r : Replica) (o : Objects) (now : ℕ)
    → read_replica codec r (quiet o now) ≡ (replica_at codec r o, quiet o now)
unfolding read_replica get turn
read_replica-quiet codec r o now = elim (Option-cases (obj_get (cell r) o)) [
  | inl e ↦ ground (arith, cell_ok r, e)
  | inr (bytes, e) ↦ ground (arith, cell_ok r, e)
]

-- The calls left the objects `o'` and only calm turns.
pub record Left (o' : Objects) (w' : World) : Type 0 where
  pub same : w'.objects ≡ o'
  pub calm : AreCalm w'.turns

-- A call either fails and leaves the objects, or does its work.
abbrev Either : {A : Type 0} → (A → Type 0) → Outcome A × World → Objects → Objects → Type 0
Either P (done a, w') o o' = P a × Left o' w'
Either P (failed e, w') o o' = Left o w'

-- A Put that is not exclusive writes whatever is there.
pub put_over :
    (p body : Text) (w : World)
    → put p body false w
      ≡ unless_fault (turn w) (λ v. (Driver.ok tt, record v { objects = obj_put p body v.objects }))
unfolding put turn
put_over p body w = elim (Option-cases (turn w).0) [
  | inl e ↦ (elim (Option-cases (obj_get p (turn w).1.objects)) [
    | inl n ↦ ground (arith, e, n)
    | inr (b, n) ↦ ground (arith, e, n)
  ])
  | inr (x, e) ↦ ground (arith, e)
]

put_calm :
    (p body : Text) (o : Objects) (now : ℕ) (ts : List Turn)
    → AreCalm ts
    → Either
        (λ _. Unit {0})
        (stored (put p body false) (record { objects = o; now = now; turns = ts }))
        o
        (obj_put p body o)
unfolding turn
put_calm p body o now [] h = rw put_over (tt, record { same = refl; calm = tt })
put_calm p body o now (t ∷ ts) h = elim (Option-cases t.fault) [
  | inl e ↦ rw (put_over, e) (tt, record { same = ap (obj_put p body) (h.0 o); calm = h.1 })
  | inr (x, e) ↦ rw (put_over, e) (record { same = h.0 o; calm = h.1 })
]

-- What writing one cell leaves.
abbrev pub Written : Codec → Replica → Text → Objects → Outcome (Unit {0}) × World → Type 0
Written codec r json o (done u, w') =
    (t : ℕ) × (body : Text) × (codec.build t (name_of r) json ≡ some body)
    × Left (obj_put (cell r) body o) w'
Written codec r json o (failed e, w') = Left o w'

of_put :
    (codec : Codec) (r : Replica) (json body : Text) (t : ℕ) (o : Objects)
    (p : Outcome (Unit {0}) × World)
    → codec.build t (name_of r) json ≡ some body
    → Either (λ _. Unit {0}) p o (obj_put (cell r) body o)
    → Written codec r json o p
of_put codec r json body t o (done u, w') b h = (t, body, b, h.1)
of_put codec r json body t o (failed e, w') b h = h

pub write_cell-put :
    (r : Replica) (body : Text) (w : World)
    → write_cell (name_of r) body false w ≡ put (cell r) body false w
unfolding write_cell
write_cell-put r body w = rw (cell_ok r) refl

pub write-Written :
    (codec : Codec) (r : Replica) (json : Text) (w : World)
    → AreCalm w.turns
    → Written codec r json w.objects (write_replica_cell codec (name_of r) json w)
unfolding write_replica_cell
write-Written codec r json w h = elim (Option-cases (codec.build w.now (name_of r) json)) [
  | inl e ↦ rw (write_replica_cell, e) (record { same = refl; calm = h })
  | inr (body, e) ↦
      rw (write_replica_cell, e, write_cell-put r body w)
        (of_put codec r json body w.now w.objects _ e
          (put_calm (cell r) body w.objects w.now w.turns h))
]

pub stored_at :
    (codec : Codec) (r : Replica) (o : Objects) (t : ℕ) (json body : Text) (d : Descriptor)
    → IsFaithful codec
    → validate d ≡ none
    → codec.marshal d ≡ some json
    → codec.build t (name_of r) json ≡ some body
    → replica_at codec r (obj_put (cell r) body o) ≡ done (valid d)
unfolding unmarshalled
stored_at codec r o t json body d faithful v m b =
    let back = faithful t (name_of r) json body d m b in
    rw (get-put_self (cell r) body o, back.0, unmarshalled, back.1, v) refl

pub other_at :
    (codec : Codec) (o : Objects) (body : Text)
    → (replica_at codec l0 (obj_put (cell l1) body o) ≡ replica_at codec l0 o)
      × (replica_at codec l1 (obj_put (cell l0) body o) ≡ replica_at codec l1 o)
other_at codec o body = (
  rw (get-put (cell l1) (cell l0) body o, cells_apart.1) refl,
  rw (get-put (cell l0) (cell l1) body o, cells_apart.0) refl,
)
