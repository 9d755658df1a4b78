-- ===== src/Lease.antt =====
-- engine/lease/lease.go over the cell of engine/internal/named, and the ownership classes of
-- domain/store_ownership.go. The encoding of a record as an inline manifest is a parameter.
pub mod Table
pub mod Acquire
pub mod Holder
pub mod Races
pub mod Taking
mod Tests
use scrinium.Base.{
  to_second, ℕ, zero, suc, ◌+◌, ◌*◌, ◌/◌, ◌^◌, Text, Bool, true, false, not, ◌&&◌, ◌||◌, Option,
  none, some, List, [], ◌∷◌, ltb, leb, ◌==◌, if◌then◌else◌, text_eq,
}
use scrinium.Driver.{Error, Result, already_exists, artifact_not_found, not_exist, World, Exec, get}
use scrinium.Driver
use scrinium.Named.{validate_name, cell_path, write_cell, remove_cell, lift}

-- Times are in nanoseconds since the epoch.
pub record LeaseRecord : Type 0 where
  pub host_id : Text
  pub acquired_at : ℕ
  pub expires_at : ℕ
  pub agent_type : Text
  pub nonce : Text
  pub store_id : Text

-- Record.expired
abbrev pub expired : LeaseRecord → ℕ → Bool
expired r now = not (ltb now r.expires_at)

-- The fields of Lease but for its driver.
pub record Lease : Type 0 where
  pub name : Text
  pub host_id : Text
  pub agent_type : Text
  pub ttl : ℕ
  pub nonce : Text
  pub store_id : Text

-- A TTL that is not positive is 0.
pub record Config : Type 0 where
  pub name : Text
  pub host_id : Text
  pub agent_type : Text
  pub ttl : ℕ
  pub store_id : Text
  pub force : Bool

pub data LeaseError : Type 0 where
  bad_config : LeaseError
  no_nonce : LeaseError
  build_failed : LeaseError
  storage : Error → LeaseError
  lease_held : LeaseError
  lease_held_by : Text → Text → ℕ → LeaseError
  lease_lost : LeaseError

pub data LeaseResult {ℓ} (A : Type ℓ) : Type ℓ where
  ok : A → LeaseResult A
  err : LeaseError → LeaseResult A

abbrev pub Act : Type 0 → Type 0
Act A = World → LeaseResult A × World

abbrev pub continue : {A B : Type 0} → LeaseResult A → (A → Act B) → Act B
continue (ok a) f w = f a w
continue (err e) f w = (err e, w)

infixl 5 ◌>>=◌ ◌>>◌
abbrev pub ◌>>=◌ : {A B : Type 0} → Act A → (A → Act B) → Act B
◌>>=◌ m f w = let (r, w') = m w in continue r f w'

abbrev pub ◌>>◌ : {B : Type 0} → Act (Unit {0}) → Act B → Act B
m >> k = m >>= λ _. k

abbrev pub give : {A : Type 0} → A → Act A
give a w = (ok a, w)

abbrev pub refuse : {A : Type 0} → LeaseError → Act A
refuse e w = (err e, w)

-- `fmt.Errorf("...: %w", err)` around an error of the storage.
abbrev pub wrap : {A : Type 0} → Result A → LeaseResult A
wrap (Result.ok a) = ok a
wrap (Result.err e) = err (storage e)

abbrev pub stored : {A : Type 0} → Exec A → Act A
stored m w = let (r, w') = m w in (wrap r, w')

pub data StoreOwnership : Type 0 where
  unknown own foreign : StoreOwnership

unfoldable pub classify_store_ownership : Text → Text → StoreOwnership
classify_store_ownership recorded authoritative =
    if text_eq recorded [] || text_eq authoritative []
    then unknown
    else if text_eq recorded authoritative
    then own
    else foreign

abbrev pub is_foreign : StoreOwnership → Bool
is_foreign foreign = true
is_foreign _ = false

-- What a record reads back as: its times are cut to seconds by timefmt.
abbrev pub on_disk : LeaseRecord → LeaseRecord
on_disk r = record r { acquired_at = to_second r.acquired_at; expires_at = to_second r.expires_at }

-- json.Marshal with named.BuildInlineManifest, and json.Unmarshal after the decoding and the checks
-- of named.LoadCell: none where the encoding fails, and where the content is no valid record.
pub record Codec : Type 0 where
  pub encode : Text → LeaseRecord → Option Text
  pub decode : Text → Option LeaseRecord

-- Lease.record, at a time.
abbrev pub record_at : Lease → ℕ → LeaseRecord
record_at l now = record {
  host_id = l.host_id;
  acquired_at = now;
  expires_at = now + l.ttl;
  agent_type = l.agent_type;
  nonce = l.nonce;
  store_id = l.store_id;
}

-- The displaced record is returned where it belonged to another host.
abbrev pub verdict : Lease → LeaseRecord → LeaseRecord → Act (Lease × Option LeaseRecord)
verdict l current after =
    if text_eq after.nonce l.nonce
    then give (l, if text_eq current.host_id l.host_id then none else some current)
    else refuse lease_held

abbrev pub may_not_take : Config → LeaseRecord → ℕ → Bool
may_not_take cfg current now =
    not (is_foreign (classify_store_ownership current.store_id cfg.store_id))
    && (not (expired current now) && (not (text_eq current.host_id cfg.host_id) && not cfg.force))

abbrev pub lease_of : Config → Text → Lease
lease_of cfg nonce = record {
  name = cfg.name;
  host_id = cfg.host_id;
  agent_type = cfg.agent_type;
  ttl = cfg.ttl;
  nonce = nonce;
  store_id = cfg.store_id;
}

abbrev pub is_not_found : Error → Bool
is_not_found artifact_not_found = true
is_not_found not_exist = true
is_not_found _ = false

abbrev pub is_already_exists : Error → Bool
is_already_exists already_exists = true
is_already_exists _ = false

abbrev pub still_ours : Lease → LeaseRecord → Bool
still_ours l current = text_eq current.host_id l.host_id && text_eq current.nonce l.nonce

module _ (codec : Codec) where
  -- Lease.write
  unfoldable pub write : Lease → Bool → Act (Unit {0})
  write l exclusive w = elim (codec.encode l.name (record_at l w.now)) [
    | none ↦ (err build_failed, w)
    | some bytes ↦ stored (write_cell l.name bytes exclusive) w
  ]

  -- Lease.read: the content of the cell. All but an absent cell and a valid record is
  -- errs.ErrAlreadyExists, errors of the driver included.
  unfoldable pub read : Lease → Exec LeaseRecord
  read l w =
      let (r, w') = Driver.◌>>=◌ (lift (cell_path l.name)) get w in
      elim r [
        | Result.err e ↦ (elim e [
          | not_exist ↦ (Result.err artifact_not_found, w')
          | other ↦ (Result.err already_exists, w')
        ])
        | Result.ok bytes ↦ (elim (codec.decode bytes) [
          | none ↦ (Result.err already_exists, w')
          | some found ↦ (Result.ok found, w')
        ])
      ]

  -- The empty slot of Acquire: a lost race is surfaced as held.
  unfoldable pub create : Lease → Act (Lease × Option LeaseRecord)
  create l w =
      let (r, w') = write l true w in
      elim r [
        | ok _ ↦ (ok (l, none), w')
        | err e ↦ (elim e [
          | storage x ↦ (elim x [
            | already_exists ↦ (err lease_held, w')
            | other ↦ (err (storage other), w')
          ])
          | build_failed ↦ (err build_failed, w')
          | other ↦ (err other, w')
        ])
      ]

  -- The reclaim of Acquire: overwrite, read back, and see whose nonce is there.
  unfoldable pub take_over : Lease → LeaseRecord → Act (Lease × Option LeaseRecord)
  take_over l current = do write l false; after ← stored (read l); verdict l current after

  -- The live part of Acquire, over the record that was read.
  unfoldable pub contend : Config → Lease → LeaseRecord → Act (Lease × Option LeaseRecord)
  contend cfg l current w =
      if may_not_take cfg current w.now
      then (err (lease_held_by current.host_id current.agent_type current.expires_at), w)
      else take_over l current w

  -- The switch of Acquire on the first read.
  unfoldable pub acquire_slot : Config → Lease → Act (Lease × Option LeaseRecord)
  acquire_slot cfg l w =
      let (r, w') = read l w in
      elim r [
        | Result.ok current ↦ contend cfg l current w'
        | Result.err e ↦
            if is_already_exists e || is_not_found e then create l w' else (err (storage e), w')
      ]

  -- Acquire, with the nonce that newNonce drew (none: its source failed).
  unfoldable pub acquire : Option Text → Config → Act (Lease × Option LeaseRecord)
  acquire nonce cfg w =
      if text_eq cfg.name [] || (text_eq cfg.host_id [] || cfg.ttl == 0)
      then (err bad_config, w)
      else (elim (validate_name cfg.name) [
        | Result.err e ↦ (err (storage e), w)
        | Result.ok _ ↦ (elim nonce [
          | none ↦ (err no_nonce, w)
          | some n ↦ acquire_slot cfg (lease_of cfg n) w
        ])
      ])

  unfoldable pub renew : Lease → Act (Unit {0})
  renew l w =
      let (r, w') = read l w in
      elim r [
        | Result.err e ↦ if is_not_found e then (err lease_lost, w') else (err (storage e), w')
        | Result.ok current ↦
            if still_ours l current then write l false w' else (err lease_lost, w')
      ]

  unfoldable pub release : Lease → Act (Unit {0})
  release l w =
      let (r, w') = read l w in
      elim r [
        | Result.err e ↦ if is_not_found e then (ok tt, w') else (err (storage e), w')
        | Result.ok current ↦
            if still_ours l current then stored (remove_cell l.name) w' else (ok tt, w')
      ]
