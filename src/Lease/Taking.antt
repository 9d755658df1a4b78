-- ===== src/Lease/Taking.antt =====
-- What Acquire owns, and how it came by it, when other processes act and fail between its calls.
use scrinium.Base.{
  Text, Bool, true, false, ◌||◌, Option, none, some, [], ◌≡◌, ◌⊎◌, inl, inr, refl, subst, arith,
  ◌==◌, text_eq, text_eq_sound, if◌then◌else◌, Bool-cases, Option-cases,
}
use scrinium.Driver.{quiet, World, Objects, Turn, obj_get, obj_put, put, get, turn}
use scrinium.Driver
use scrinium.Driver.Objects.{get-put_self, run-cases, result-cases}
use scrinium.Named.{validate_name, cell_of, cell_path, write_cell}
use scrinium.Lease.{
  LeaseRecord, Lease, Config, LeaseError, LeaseResult, Codec, ok, err, record_at, on_disk, create,
  take_over, contend, acquire_slot, acquire, read, write, lease_of, may_not_take, is_already_exists,
  is_not_found,
}
use scrinium.Lease.Acquire.{IsFaithful, MayTake, MayTake-cases}

-- The cell of the lease holds a valid record with the lease's nonce.
pub record Holds (codec : Codec) (l : Lease) (w : World) : Type 0 where
  pub bytes : Text
  pub found : LeaseRecord
  pub stored_there : obj_get (cell_of l.name) w.objects ≡ some bytes
  pub decoded : codec.decode bytes ≡ some found
  pub ours : found.nonce ≡ l.nonce

get_found :
    (p bytes : Text) (w w' : World)
    → get p w ≡ (Driver.ok bytes, w')
    → obj_get p w'.objects ≡ some bytes
unfolding get turn
get_found p bytes w w' h = ground (arith, h)

read_found :
    (codec : Codec) (l : Lease) (r : LeaseRecord) (w w' : World)
    → read codec l w ≡ (Driver.ok r, w')
    → r.nonce ≡ l.nonce
    → Holds codec l w'
unfolding read cell_path
read_found codec l r w w' h n = elim (result-cases (validate_name l.name)) [
  | inr (e, invalid) ↦ ground (arith, h, invalid)
  | inl (_, valid) ↦ (elim (run-cases (get (cell_of l.name) w)) [
    | inr (e, v, g) ↦ ground (arith, h, valid, g)
    | inl (bytes, v, g) ↦ (elim (Option-cases (codec.decode bytes)) [
      | inl d ↦ ground (arith, h, valid, g, d)
      | inr (found, d) ↦ record {
        bytes = bytes;
        found = found;
        stored_there = ground (arith, h, valid, g, d, get_found (cell_of l.name) bytes w v g);
        decoded = d;
        ours = ground (arith, h, valid, g, d, n);
      }
    ])
  ])
]

-- A write of the lease's cell that has succeeded: it stored the lease's record over the objects that
-- the others had left; an exclusive one found the cell empty then.
record Written (codec : Codec) (l : Lease) (exclusive : Bool) (w w' : World) : Type 0 where
  bytes : Text
  encoded : codec.encode l.name (record_at l w.now) ≡ some bytes
  put_there : w'.objects ≡ obj_put (cell_of l.name) bytes (turn w).1.objects
  free : exclusive ≡ true → obj_get (cell_of l.name) (turn w).1.objects ≡ none

put-objects :
    (p bytes : Text) (exclusive : Bool) (w w' : World)
    → put p bytes exclusive w ≡ (Driver.ok tt, w')
    → w'.objects ≡ obj_put p bytes (turn w).1.objects
unfolding put turn
put-objects p bytes exclusive w w' h = ground (arith, h)

put_free :
    (p bytes : Text) (w w' : World)
    → put p bytes true w ≡ (Driver.ok tt, w')
    → obj_get p (turn w).1.objects ≡ none
unfolding put turn
put_free p bytes w w' h = ground (arith, h)

write-Written :
    (codec : Codec) (l : Lease) (exclusive : Bool) (w w' : World)
    → write codec l exclusive w ≡ (ok tt, w')
    → Written codec l exclusive w w'
unfolding write write_cell cell_path
write-Written codec l exclusive w w' h =
    elim (Option-cases (codec.encode l.name (record_at l w.now))) [
      | inl e ↦ ground (arith, h, e)
      | inr (bytes, e) ↦ (elim (result-cases (validate_name l.name)) [
        | inr (_, invalid) ↦ ground (arith, h, e, invalid)
        | inl (_, valid) ↦ (elim (run-cases (put (cell_of l.name) bytes exclusive w)) [
          | inr (x, v, p) ↦ ground (arith, h, e, valid, p)
          | inl (_, v, p) ↦
              let same : v ≡ w' = ground (arith, h, e, valid, p) in
              let q : put (cell_of l.name) bytes exclusive w ≡ (Driver.ok tt, w') =
                subst (λ x. put (cell_of l.name) bytes exclusive w ≡ (Driver.ok tt, x)) same p in
              record {
                bytes = bytes;
                encoded = e;
                put_there = put-objects (cell_of l.name) bytes exclusive w w' q;
                free = λ x.
                    put_free (cell_of l.name) bytes w w'
                      (subst (λ b. put (cell_of l.name) bytes b w ≡ (Driver.ok tt, w')) x q);
              }
        ])
      ])
    ]

Written-Holds :
    (codec : Codec) (l : Lease) (exclusive : Bool) (w w' : World)
    → IsFaithful codec
    → Written codec l exclusive w w'
    → Holds codec l w'
Written-Holds codec l exclusive w w' faithful h = record {
  bytes = h.bytes;
  found = on_disk (record_at l w.now);
  stored_there = rw h.put_there (get-put_self (cell_of l.name) h.bytes (turn w).1.objects);
  decoded = faithful l.name (record_at l w.now) h.bytes h.encoded;
  ours = refl;
}

act-cases :
    {A : Type 0} (p : LeaseResult A × World)
    → ((a : A) × (w : World) × (p ≡ (ok a, w)))
      ⊎ ((e : LeaseError) × (w : World) × (p ≡ (err e, w)))
act-cases (ok a, w) = inl (a, w, refl)
act-cases (err e, w) = inr (e, w, refl)

-- How Acquire, from `w`, came to the lease `l` in `w'`, and the record that it reports as displaced.
-- Either its read gave no valid record, and its write met an empty cell; or its read found a record that
-- may be displaced, its write replaced the cell, and after that a read found its own nonce.
pub data Came (codec : Codec) (cfg : Config) (l : Lease) (w w' : World)
    : Option LeaseRecord → Type 0 where
  created :
      (e : Driver.Error) (v : World) (bytes : Text)
      → read codec l w ≡ (Driver.err e, v)
      → obj_get (cell_of l.name) (turn v).1.objects ≡ none
      → w'.objects ≡ obj_put (cell_of l.name) bytes (turn v).1.objects
      → Came codec cfg l w w' none
  taken :
      {previous : Option LeaseRecord} (current after : LeaseRecord) (v u : World) (bytes : Text)
      → read codec l w ≡ (Driver.ok current, v)
      → MayTake cfg current v.now
      → u.objects ≡ obj_put (cell_of l.name) bytes (turn v).1.objects
      → read codec l u ≡ (Driver.ok after, w')
      → after.nonce ≡ l.nonce
      → previous ≡ (if text_eq current.host_id l.host_id then none else some current)
      → Came codec cfg l w w' previous

-- Acquire from `w` has got its lease: it is the one it was tried for, the cell is that lease's, and it
-- came by it as it should.
pub record Takes (codec : Codec) (cfg : Config) (l : Lease) (w : World)
    (got : Lease × Option LeaseRecord) (w' : World) : Type 0 where
  pub lease : got.0 ≡ l
  pub holds : Holds codec l w'
  pub came : Came codec cfg l w w' got.1

create-Takes :
    (codec : Codec) (cfg : Config) (l : Lease) (got : Lease × Option LeaseRecord) (w v w' : World)
    (e : Driver.Error)
    → IsFaithful codec
    → read codec l w ≡ (Driver.err e, v)
    → create codec l v ≡ (ok got, w')
    → Takes codec cfg l w got w'
unfolding create
create-Takes codec cfg l got w v w' e faithful r h = elim (act-cases (write codec l true v)) [
  | inr (x, u, p) ↦ ground (arith, h, p)
  | inl (_, u, p) ↦
      let same : u ≡ w' = ground (arith, h, p) in
      let it : (l, none) ≡ got = ground (arith, h, p) in
      let q =
        write-Written codec l true v w' (subst (λ x. write codec l true v ≡ (ok tt, x)) same p) in
      subst (λ g. Takes codec cfg l w g w') it
        (record {
          lease = refl;
          holds = Written-Holds codec l true v w' faithful q;
          came = created e v q.bytes r (q.free refl) q.put_there;
        })
]

take_over-Takes :
    (codec : Codec) (cfg : Config) (l : Lease) (current : LeaseRecord)
    (got : Lease × Option LeaseRecord) (w v w' : World)
    → read codec l w ≡ (Driver.ok current, v)
    → MayTake cfg current v.now
    → take_over codec l current v ≡ (ok got, w')
    → Takes codec cfg l w got w'
unfolding take_over
take_over-Takes codec cfg l current got w v w' r may h = elim (act-cases (write codec l false v)) [
  | inr (e, u, p) ↦ ground (arith, h, p)
  | inl (_, u, p) ↦ (elim (run-cases (read codec l u)) [
    | inr (e, x, q) ↦ ground (arith, h, p, q)
    | inl (after, x, q) ↦ (elim (Bool-cases (text_eq after.nonce l.nonce)) [
      | inr other ↦ ground (arith, h, p, q, other)
      | inl same ↦
          let last : x ≡ w' = ground (arith, h, p, q, same) in
          let it : (l, if text_eq current.host_id l.host_id then none else some current) ≡ got =
            ground (arith, h, p, q, same) in
          let back : read codec l u ≡ (Driver.ok after, w') =
            subst (λ y. read codec l u ≡ (Driver.ok after, y)) last q in
          let ours = text_eq_sound after.nonce l.nonce same in
          let wrote = write-Written codec l false v u p in
          subst (λ g. Takes codec cfg l w g w') it
            (record {
              lease = refl;
              holds = read_found codec l after u w' back ours;
              came = taken current after v u wrote.bytes r may wrote.put_there back ours refl;
            })
    ])
  ])
]

contend-Takes :
    (codec : Codec) (cfg : Config) (l : Lease) (current : LeaseRecord)
    (got : Lease × Option LeaseRecord) (w v w' : World)
    → read codec l w ≡ (Driver.ok current, v)
    → contend codec cfg l current v ≡ (ok got, w')
    → Takes codec cfg l w got w'
unfolding contend
contend-Takes codec cfg l current got w v w' r h =
    elim (Bool-cases (may_not_take cfg current v.now)) [
      | inl held ↦ ground (arith, h, held)
      | inr free ↦
          take_over-Takes codec cfg l current got w v w' r (MayTake-cases cfg current v.now free)
            (ground (arith, h, free))
    ]

acquire_slot-Takes :
    (codec : Codec) (cfg : Config) (l : Lease) (got : Lease × Option LeaseRecord) (w w' : World)
    → IsFaithful codec
    → acquire_slot codec cfg l w ≡ (ok got, w')
    → Takes codec cfg l w got w'
unfolding acquire_slot
acquire_slot-Takes codec cfg l got w w' faithful h = elim (run-cases (read codec l w)) [
  | inl (current, v, p) ↦ contend-Takes codec cfg l current got w v w' p (ground (arith, h, p))
  | inr (e, v, p) ↦ (elim (Bool-cases (is_already_exists e || is_not_found e)) [
    | inr other ↦ ground (arith, h, p, other)
    | inl free ↦ create-Takes codec cfg l got w v w' e faithful p (ground (arith, h, p, free))
  ])
]

-- On any schedule of other processes and failures, where Acquire succeeds on a codec that reads back
-- what it wrote, the lease is the one of its configuration and nonce, at its last call to the driver
-- the cell holds a valid record with that nonce, and Acquire came by it in one of two ways. Its read
-- gave no valid record, and at its write the cell was empty; it reports no displaced record. Or its read
-- found a record that at that time was of a foreign store, expired, or of the same host, or that the
-- caller forced it to displace; and after its write it read its own nonce back from the cell. Then it
-- reports the record as displaced, unless that was of the same host.
pub acquire_owns :
    (codec : Codec) (cfg : Config) (nonce : Text) (got : Lease × Option LeaseRecord) (w w' : World)
    → IsFaithful codec
    → acquire codec (some nonce) cfg w ≡ (ok got, w')
    → Takes codec cfg (lease_of cfg nonce) w got w'
unfolding acquire
acquire_owns codec cfg nonce got w w' faithful h =
    elim (Bool-cases (text_eq cfg.name [] || (text_eq cfg.host_id [] || cfg.ttl == 0))) [
      | inl bad ↦ ground (arith, h, bad)
      | inr fine ↦ (elim (result-cases (validate_name cfg.name)) [
        | inr (_, invalid) ↦ ground (arith, h, fine, invalid)
        | inl (_, valid) ↦
            acquire_slot-Takes codec cfg (lease_of cfg nonce) got w w' faithful
              (ground (arith, h, fine, valid))
      ])
    ]
