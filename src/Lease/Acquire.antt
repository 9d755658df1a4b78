-- ===== src/Lease/Acquire.antt =====
-- Acquire on each content of the slot of a Location that nothing else touches.
use scrinium.Base.{
  ℕ, ◌≤◌, ◌<◌, Text, true, false, ◌||◌, none, some, [], ◌≡◌, ◌≢◌, ◌⊎◌, inl, inr, refl, arith, ltb,
  le→ltb_false, ltb_false→le, text_eq, text_eq_refl, text_eq_iff, if◌then◌else◌, Bool-cases,
}
use scrinium.Driver.{quiet, World, Objects, obj_get, obj_put}
use scrinium.Driver
use scrinium.Driver.Objects.{get-put_self}
use scrinium.Named.{validate_name, cell_of}
use scrinium.Lease.{
  LeaseRecord, Lease, Config, Codec, ok, err, lease_held, lease_held_by, record_at, on_disk, create,
  take_over, contend, acquire_slot, acquire, read, is_already_exists, is_not_found, lease_of,
  may_not_take, classify_store_ownership,
}
use scrinium.Lease.Table.{
  read_absent, read_corrupt, read_record, write_refused, write_new, write_over,
}

-- What Acquire demands of its configuration.
pub record IsUsable (cfg : Config) : Type 0 where
  pub valid : validate_name cfg.name ≡ Driver.ok tt
  pub named : cfg.name ≢ []
  pub hosted : cfg.host_id ≢ []
  pub lasting : 0 < cfg.ttl

-- A record may be displaced: its store is known to be another one, it is expired, it is of this
-- host, or the caller forces it.
pub data MayTake (cfg : Config) (current : LeaseRecord) (now : ℕ) : Type 0 where
  foreign_store :
      current.store_id ≢ []
      → cfg.store_id ≢ []
      → current.store_id ≢ cfg.store_id
      → MayTake cfg current now
  run_out : current.expires_at ≤ now → MayTake cfg current now
  own_host : current.host_id ≡ cfg.host_id → MayTake cfg current now
  forced : cfg.force ≡ true → MayTake cfg current now

-- The codec gives back what it wrote, with times in seconds.
abbrev pub IsFaithful : Codec → Type 0
IsFaithful codec =
    (name : Text) (r : LeaseRecord) (bytes : Text)
    → codec.encode name r ≡ some bytes
    → codec.decode bytes ≡ some (on_disk r)

pub may_take :
    (cfg : Config) (current : LeaseRecord) (now : ℕ)
    → MayTake cfg current now
    → may_not_take cfg current now ≡ false
unfolding classify_store_ownership
may_take cfg current now (foreign_store a b c) = ground (
  arith,
  a,
  b,
  c,
  text_eq_iff current.store_id [],
  text_eq_iff cfg.store_id [],
  text_eq_iff current.store_id cfg.store_id,
)
may_take cfg current now (run_out h) = rw (le→ltb_false now current.expires_at h) (ground arith)
may_take cfg current now (own_host h) =
    rw ((text_eq_iff current.host_id cfg.host_id).1 h) (ground arith)
may_take cfg current now (forced h) = rw h (ground arith)

pub MayTake-cases :
    (cfg : Config) (current : LeaseRecord) (now : ℕ)
    → may_not_take cfg current now ≡ false
    → MayTake cfg current now
unfolding classify_store_ownership
MayTake-cases cfg current now h = elim (Bool-cases cfg.force) [
  | inl f ↦ forced f
  | inr f ↦ (elim (Bool-cases (text_eq current.host_id cfg.host_id)) [
    | inl e ↦ own_host ((text_eq_iff current.host_id cfg.host_id).0 e)
    | inr e ↦ (elim (Bool-cases (ltb now current.expires_at)) [
      | inr g ↦ run_out (ltb_false→le now current.expires_at g)
      | inl g ↦
          foreign_store (λ z. ground (arith, h, e, f, g, text_eq_iff current.store_id []))
            (λ z. ground (arith, h, e, f, g, text_eq_iff cfg.store_id []))
            (λ z. ground (arith, h, e, f, g, text_eq_iff current.store_id cfg.store_id))
    ])
  ])
]

pub acquire_starts :
    (codec : Codec) (cfg : Config) (n : Text) (w : World)
    → IsUsable cfg
    → acquire codec (some n) cfg w ≡ acquire_slot codec cfg (lease_of cfg n) w
unfolding acquire
acquire_starts codec cfg n w u = ground (
  arith,
  u.valid,
  u.named,
  u.hosted,
  u.lasting,
  text_eq_iff cfg.name [],
  text_eq_iff cfg.host_id [],
)

pub take_over-quiet :
    (codec : Codec) (l : Lease) (o : Objects) (now : ℕ) (current : LeaseRecord) (bytes : Text)
    → IsFaithful codec
    → validate_name l.name ≡ Driver.ok tt
    → codec.encode l.name (record_at l now) ≡ some bytes
    → take_over codec l current (quiet o now) ≡ (
      ok (l, if text_eq current.host_id l.host_id then none else some current),
      quiet (obj_put (cell_of l.name) bytes o) now,
    )
unfolding take_over
take_over-quiet codec l o now current bytes faithful valid e = rw (
  write_over codec l valid o now bytes e,
  read_record codec l valid (obj_put (cell_of l.name) bytes o) now bytes (on_disk (record_at l now))
      (get-put_self (cell_of l.name) bytes o) (faithful l.name (record_at l now) bytes e),
  text_eq_refl l.nonce,
)

pub contend-quiet :
    (codec : Codec) (cfg : Config) (nonce : Text) (o : Objects) (now : ℕ) (current : LeaseRecord)
    (bytes : Text)
    → IsFaithful codec
    → validate_name cfg.name ≡ Driver.ok tt
    → codec.encode cfg.name (record_at (lease_of cfg nonce) now) ≡ some bytes
    → may_not_take cfg current now ≡ false
    → contend codec cfg (lease_of cfg nonce) current (quiet o now) ≡ (
      ok (lease_of cfg nonce, if text_eq current.host_id cfg.host_id then none else some current),
      quiet (obj_put (cell_of cfg.name) bytes o) now,
    )
unfolding contend
contend-quiet codec cfg nonce o now current bytes faithful valid e free =
    rw (contend, free)
      (take_over-quiet codec (lease_of cfg nonce) o now current bytes faithful valid e)

slot_held :
    (codec : Codec) (cfg : Config) (l : Lease) (current : LeaseRecord) (w w' : World)
    → read codec l w ≡ (Driver.ok current, w')
    → acquire_slot codec cfg l w ≡ contend codec cfg l current w'
unfolding acquire_slot
slot_held codec cfg l current w w' h = rw (acquire_slot, h, h) refl

slot_free :
    (codec : Codec) (cfg : Config) (l : Lease) (e : Driver.Error) (w w' : World)
    → read codec l w ≡ (Driver.err e, w')
    → is_already_exists e || is_not_found e ≡ true
    → acquire_slot codec cfg l w ≡ create codec l w'
unfolding acquire_slot
slot_free codec cfg l e w w' h t = rw (acquire_slot, h, h, t) refl

-- On a Location that nothing else touches, with a usable configuration and a record that encodes: an
-- empty slot is taken, the cell holds the caller's record, and nobody is displaced.
acquire_empty :
    (codec : Codec) (cfg : Config) (nonce : Text) (o : Objects) (now : ℕ) (bytes : Text)
    → IsUsable cfg
    → codec.encode cfg.name (record_at (lease_of cfg nonce) now) ≡ some bytes
    → obj_get (cell_of cfg.name) o ≡ none
    → acquire codec (some nonce) cfg (quiet o now)
      ≡ (ok (lease_of cfg nonce, none), quiet (obj_put (cell_of cfg.name) bytes o) now)
unfolding create
acquire_empty codec cfg nonce o now bytes u e h =
    let written = write_new codec (lease_of cfg nonce) u.valid o now bytes e h in
    rw (
      acquire_starts codec cfg nonce (quiet o now) u,
      slot_free codec cfg (lease_of cfg nonce) Driver.artifact_not_found (quiet o now) (quiet o now)
          (read_absent codec (lease_of cfg nonce) u.valid o now h) refl,
      create,
      written,
      written,
    )

-- On a Location that nothing else touches, with a usable configuration, a record that encodes and a
-- codec that reads back what it wrote, on a slot with a valid record: either the record may be
-- displaced, and then Acquire succeeds, the cell holds the caller's record and the old one is
-- returned where it was of another host; or it may not, and then Acquire reports its holder and
-- changes nothing.
pub acquire_populated :
    (codec : Codec) (cfg : Config) (nonce : Text) (o : Objects) (now : ℕ) (old bytes : Text)
    (current : LeaseRecord)
    → IsFaithful codec
    → IsUsable cfg
    → codec.encode cfg.name (record_at (lease_of cfg nonce) now) ≡ some bytes
    → obj_get (cell_of cfg.name) o ≡ some old
    → codec.decode old ≡ some current
    → (MayTake cfg current now
        × (acquire codec (some nonce) cfg (quiet o now) ≡ (
          ok (
            lease_of cfg nonce,
            if text_eq current.host_id cfg.host_id then none else some current,
          ),
          quiet (obj_put (cell_of cfg.name) bytes o) now,
        )))
      ⊎ (¬ MayTake cfg current now
          × (acquire codec (some nonce) cfg (quiet o now) ≡ (
            err (lease_held_by current.host_id current.agent_type current.expires_at),
            quiet o now,
          )))
unfolding contend
acquire_populated codec cfg nonce o now old bytes current faithful u e h d =
    elim (Bool-cases (may_not_take cfg current now)) [
      | inr taken ↦ inl (
        MayTake-cases cfg current now taken,
        rw (
          acquire_starts codec cfg nonce (quiet o now) u,
          slot_held codec cfg (lease_of cfg nonce) current (quiet o now) (quiet o now)
              (read_record codec (lease_of cfg nonce) u.valid o now old current h d),
          contend-quiet codec cfg nonce o now current bytes faithful u.valid e taken,
        ),
      )
      | inl held ↦ inr (
        λ m. ground (arith, held, may_take cfg current now m),
        rw (
          acquire_starts codec cfg nonce (quiet o now) u,
          slot_held codec cfg (lease_of cfg nonce) current (quiet o now) (quiet o now)
              (read_record codec (lease_of cfg nonce) u.valid o now old current h d),
          contend,
          held,
        ),
      )
    ]

-- On a Location that nothing else touches, with a usable configuration and a record that encodes: a
-- cell whose content is no valid record is never reclaimed. Acquire reports a held lease, with Force
-- as well, and changes nothing.
acquire_corrupt :
    (codec : Codec) (cfg : Config) (nonce : Text) (o : Objects) (now : ℕ) (old bytes : Text)
    → IsUsable cfg
    → codec.encode cfg.name (record_at (lease_of cfg nonce) now) ≡ some bytes
    → obj_get (cell_of cfg.name) o ≡ some old
    → codec.decode old ≡ none
    → acquire codec (some nonce) cfg (quiet o now) ≡ (err lease_held, quiet o now)
unfolding create
acquire_corrupt codec cfg nonce o now old bytes u e h d =
    let written = write_refused codec (lease_of cfg nonce) u.valid o now bytes old e h in
    rw (
      acquire_starts codec cfg nonce (quiet o now) u,
      slot_free codec cfg (lease_of cfg nonce) Driver.already_exists (quiet o now) (quiet o now)
          (read_corrupt codec (lease_of cfg nonce) u.valid o now old h d) refl,
      create,
      written,
      written,
    )
