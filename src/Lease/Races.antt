-- ===== src/Lease/Races.antt =====
-- Two callers that take over one record.
use scrinium.Base.{ℕ, Text, none, some, ◌≡◌, ◌≢◌, inl, inr, sym, subst, text_eq, if◌then◌else◌}
use scrinium.Driver.{quiet, World, Objects, Turn, obj_get, obj_put, put, get, turn}
use scrinium.Driver
use scrinium.Driver.Objects.{get-put_self}
use scrinium.Named.{validate_name, cell_of}
use scrinium.Lease.{
  LeaseRecord, Lease, Config, Codec, ok, err, record_at, on_disk, contend, lease_of, renew,
  lease_lost,
}
use scrinium.Lease.Holder.{renew_table}
use scrinium.Lease.Acquire.{IsFaithful, MayTake, may_take, contend-quiet}

-- A lease whose cell was overwritten with another nonce is lost.
overtaken :
    (codec : Codec) (l : Lease) (other : LeaseRecord) (name : Text) (o : Objects) (now : ℕ)
    (mine theirs : Text)
    → IsFaithful codec
    → validate_name l.name ≡ Driver.ok tt
    → l.name ≡ name
    → codec.encode l.name (record_at l now) ≡ some mine
    → codec.encode name other ≡ some theirs
    → other.nonce ≢ l.nonce
    → renew codec l (quiet (obj_put (cell_of name) theirs o) now)
      ≡ (err lease_lost, quiet (obj_put (cell_of name) theirs o) now)
overtaken codec l other name o now mine theirs faithful valid same em eo distinct =
    let there : obj_get (cell_of l.name) (obj_put (cell_of name) theirs o) ≡ some theirs =
      subst (λ n. obj_get (cell_of n) (obj_put (cell_of name) theirs o) ≡ some theirs) (sym same)
        (get-put_self (cell_of name) theirs o) in
    elim (renew_table codec l (obj_put (cell_of name) theirs o) now theirs mine (on_disk other)
      valid em there (faithful name other theirs eo)) [
        | inl (ours, _) ↦ absurd (distinct ours.1)
        | inr (_, lost) ↦ lost
      ]

-- Two callers with different nonces, under one valid name, with records that encode and a codec that
-- reads back what it wrote, that both read the same record, which each of them may displace: run one
-- after the other on a Location that nothing else touches, both succeed. The second overwrites the
-- first, and the next Renew of the first finds that its lease is lost.
pub both_take_over :
    (codec : Codec) (a b : Config) (nonce_a nonce_b : Text) (o : Objects) (now : ℕ)
    (current : LeaseRecord) (bytes_a bytes_b : Text)
    → IsFaithful codec
    → validate_name a.name ≡ Driver.ok tt
    → a.name ≡ b.name
    → nonce_a ≢ nonce_b
    → MayTake a current now
    → MayTake b current now
    → codec.encode a.name (record_at (lease_of a nonce_a) now) ≡ some bytes_a
    → codec.encode b.name (record_at (lease_of b nonce_b) now) ≡ some bytes_b
    → (w : World) × (contend codec a (lease_of a nonce_a) current (quiet o now) ≡ (
      ok (lease_of a nonce_a, if text_eq current.host_id a.host_id then none else some current),
      w,
    ))
      × (w' : World) × (contend codec b (lease_of b nonce_b) current w ≡ (
        ok (lease_of b nonce_b, if text_eq current.host_id b.host_id then none else some current),
        w',
      ))
      × (renew codec (lease_of a nonce_a) w' ≡ (err lease_lost, w'))
unfolding contend
both_take_over codec a b nonce_a nonce_b o now current bytes_a bytes_b faithful valid same distinct
      ma mb ea eb =
    let valid_b : validate_name b.name ≡ Driver.ok tt =
      subst (λ n. validate_name n ≡ Driver.ok tt) same valid in
    let taken_b =
      contend-quiet codec b nonce_b (obj_put (cell_of a.name) bytes_a o) now current bytes_b
        faithful valid_b eb (may_take b current now mb) in
    (
      quiet (obj_put (cell_of a.name) bytes_a o) now,
      contend-quiet codec a nonce_a o now current bytes_a faithful valid ea
          (may_take a current now ma),
      quiet (obj_put (cell_of b.name) bytes_b (obj_put (cell_of a.name) bytes_a o)) now,
      taken_b,
      overtaken codec (lease_of a nonce_a) (record_at (lease_of b nonce_b) now) b.name
          (obj_put (cell_of a.name) bytes_a o) now bytes_a bytes_b faithful valid same ea eb
          (λ n. distinct (sym n)),
    )
