-- ===== src/Descriptor.antt =====
-- engine/store/internal/descriptor and engine/store/internal/reconcile: the store's descriptor in its
-- two cells, the choice between them, and their repair at the opening of the store
-- (engine/store/lifecycle_construct.go, lifecycle_open.go).
pub mod Consensus
pub mod Cells
pub mod Register
pub mod Healing
mod Tests
use scrinium.Base.{
  ℕ, Text, Bool, true, false, not, ◌&&◌, Option, none, some, [], codes, text_eq, ltb, ◌==◌,
  if◌then◌else◌,
}
use scrinium.Driver.{Error, World, not_exist, artifact_not_found, get}
use scrinium.Driver
use scrinium.Named.{cell_path, write_cell, remove_cell, lift}

pub record KdfParams : Type 0 where
  pub algorithm : Text
  pub time : ℕ
  pub memory : ℕ
  pub threads : ℕ
  pub salt : Text

-- A schema version below 0 is 0 here: Validate refuses both alike.
pub record Descriptor : Type 0 where
  pub store_id : Text
  pub schema_version : ℕ
  pub sequence : ℕ
  pub dek : Text
  pub dek_encrypted : Bool
  pub kdf_params : Option KdfParams

pub data Invalid : Type 0 where
  empty_store_id bad_schema_version unsupported_schema_version : Invalid
  zero_sequence empty_dek missing_kdf_params : Invalid

abbrev pub current_schema_version : ℕ
current_schema_version = 1

abbrev check_key : Descriptor → Option Invalid
check_key d =
    if d.dek_encrypted
    then (if text_eq d.dek []
        then some empty_dek
        else (elim d.kdf_params [ none ↦ some missing_kdf_params | some _ ↦ none ]))
    else none

-- Validate
unfoldable pub validate : Descriptor → Option Invalid
validate d =
    if text_eq d.store_id []
    then some empty_store_id
    else if d.schema_version == 0
    then some bad_schema_version
    else if ltb current_schema_version d.schema_version
    then some unsupported_schema_version
    else if d.sequence == 0
    then some zero_sequence
    else check_key d

abbrev same_params : Option KdfParams → Option KdfParams → Bool
same_params none none = true
same_params none (some b) = false
same_params (some a) none = false
same_params (some a) (some b) =
    text_eq a.algorithm b.algorithm
    && (a.time == b.time)
    && (a.memory == b.memory)
    && (a.threads == b.threads)
    && text_eq a.salt b.salt

abbrev same_flag : Bool → Bool → Bool
same_flag true b = b
same_flag false b = not b

-- Equal, of two descriptors that are there.
unfoldable pub equal : Descriptor → Descriptor → Bool
equal a b =
    text_eq a.store_id b.store_id
    && (a.schema_version == b.schema_version)
    && (a.sequence == b.sequence)
    && same_flag a.dek_encrypted b.dek_encrypted
    && text_eq a.dek b.dek
    && same_params a.kdf_params b.kdf_params

pub data Replica : Type 0 where
  l0 l1 : Replica

-- Name and BackupName.
abbrev pub name_of : Replica → Text
name_of l0 = codes "store.descriptor"
name_of l1 = codes "store.descriptor.backup"

-- What named.LoadWithKeys makes of the bytes of a cell: the inline content, a content hash that does
-- not match (ErrCorruptedContent), or a manifest that it cannot read.
pub data Loaded : Type 0 where
  content : Text → Loaded
  mismatch unreadable : Loaded

-- json.MarshalIndent and the json.Decoder of Unmarshal, and the inline manifests of
-- engine/internal/named/manifest.go with the SHA-256 registry, which record the time.
pub record Codec : Type 0 where
  pub marshal : Descriptor → Option Text
  pub parse : Text → Option Descriptor
  pub build : ℕ → Text → Text → Option Text
  pub load : Text → Loaded

pub data Failure : Type 0 where
  invalid : Invalid → Failure
  not_marshalled not_built unreadable_manifest : Failure
  storage : Error → Failure
  nothing_there store_not_found store_corrupted split_brain : Failure

pub data Outcome (A : Type 0) : Type 0 where
  done : A → Outcome A
  failed : Failure → Outcome A

abbrev pub Act : Type 0 → Type 0
Act A = World → Outcome A × World

abbrev pub continue : {A B : Type 0} → Outcome A → (A → Act B) → Act B
continue (done a) f w = f a w
continue (failed e) f w = (failed e, w)

infixl 5 ◌>>=◌ ◌>>◌
abbrev pub ◌>>=◌ : {A B : Type 0} → Act A → (A → Act B) → Act B
◌>>=◌ m f w = let (r, w') = m w in continue r f w'

abbrev pub ◌>>◌ : {B : Type 0} → Act (Unit {0}) → Act B → Act B
m >> k = m >>= λ _. k

abbrev pub wrap : {A : Type 0} → Driver.Result A → Outcome A
wrap (Driver.ok a) = done a
wrap (Driver.err e) = failed (storage e)

abbrev pub stored : {A : Type 0} → Driver.Exec A → Act A
stored m w = let (r, w') = m w in (wrap r, w')

abbrev pub pure : {A : Type 0} → Outcome A → Act A
pure r w = (r, w)

abbrev pub or_fail : {A : Type 0} → Failure → Option A → Outcome A
or_fail e none = failed e
or_fail e (some a) = done a

abbrev pub checked : {A : Type 0} → Option Invalid → Outcome A → Outcome A
checked none r = r
checked (some e) r = failed (invalid e)

-- Marshal
unfoldable pub marshal : Codec → Descriptor → Outcome Text
marshal codec d = checked (validate d) (or_fail not_marshalled (codec.marshal d))

unfoldable pub write_replica_cell : Codec → Text → Text → Act (Unit {0})
write_replica_cell codec name json w = elim (codec.build w.now name json) [
  | none ↦ (failed not_built, w)
  | some body ↦ stored (write_cell name body false) w
]

unfoldable pub write_both : Codec → Descriptor → Act (Unit {0})
write_both codec d = do
  json ← pure (marshal codec d)
  write_replica_cell codec (name_of l0) json
  write_replica_cell codec (name_of l1) json

unfoldable pub write_replica : Codec → Descriptor → Replica → Act (Unit {0})
write_replica codec d r = do
  json ← pure (marshal codec d)
  write_replica_cell codec (name_of r) json

unfoldable pub remove_both : Act (Unit {0})
remove_both = do stored (remove_cell (name_of l0)); stored (remove_cell (name_of l1))

-- Status, with the descriptor that ReadReplica returns beside Valid.
pub data Status : Type 0 where
  absent corrupted : Status
  valid : Descriptor → Status

-- Unmarshal, where any failure leaves a replica Corrupted.
unfoldable pub unmarshalled : Codec → Text → Status
unmarshalled codec json = elim (codec.parse json) [
  | none ↦ corrupted
  | some d ↦ (elim (validate d) [ none ↦ valid d | some _ ↦ corrupted ])
]

abbrev pub status_of : Codec → Loaded → Outcome Status
status_of codec (content json) = done (unmarshalled codec json)
status_of codec mismatch = done corrupted
status_of codec unreadable = failed unreadable_manifest

-- The cases of ReadReplica on the driver's answer: a missing cell is Absent, any other failure of
-- the driver is passed on.
abbrev pub replica_status : Codec → Driver.Result Text → Outcome Status
replica_status codec (Driver.ok bytes) = status_of codec (codec.load bytes)
replica_status codec (Driver.err not_exist) = done absent
replica_status codec (Driver.err other) = failed (storage other)

unfoldable pub read_replica : Codec → Replica → Act Status
read_replica codec r w =
    let (path, _) = lift (cell_path (name_of r)) w in
    elim path [
      | Driver.err e ↦ (failed (storage e), w)
      | Driver.ok p ↦ (let (bytes, w') = get p w in (replica_status codec bytes, w'))
    ]

-- ReadBoth reads both replicas before it looks at either error.
unfoldable pub read_both : Codec → Act (Status × Status)
read_both codec w =
    let (a, w') = read_replica codec l0 w in
    let (b, w'') = read_replica codec l1 w' in
    elim a [
      | failed e ↦ (failed e, w'')
      | done s ↦ (elim b [ failed e ↦ (failed e, w'') | done t ↦ (done (s, t), w'') ])
    ]

pub data Action : Type 0 where
  heal_none heal_l0_from_l1 heal_l1_from_l0 heal_both_from_l0 heal_both_from_l1 : Action

-- Result, less the two statuses that it repeats.
pub record Choice : Type 0 where
  pub canonical : Descriptor
  pub action : Action

abbrev pub chosen : Descriptor → Action → Outcome Choice
chosen d a = done (record { canonical = d; action = a })

-- Reconcile
unfoldable pub reconcile : Status → Status → Outcome Choice
reconcile absent absent = failed nothing_there
reconcile absent corrupted = failed store_corrupted
reconcile corrupted absent = failed store_corrupted
reconcile corrupted corrupted = failed store_corrupted
reconcile absent (valid b) = chosen b heal_l0_from_l1
reconcile corrupted (valid b) = chosen b heal_l0_from_l1
reconcile (valid a) absent = chosen a heal_l1_from_l0
reconcile (valid a) corrupted = chosen a heal_l1_from_l0
reconcile (valid a) (valid b) =
    if equal a b
    then chosen a heal_none
    else if ltb b.sequence a.sequence
    then chosen a heal_both_from_l0
    else if ltb a.sequence b.sequence
    then chosen b heal_both_from_l1
    else failed split_brain

unfoldable pub heal_replicas : Codec → Descriptor → Action → Act (Unit {0})
heal_replicas codec d heal_none w = (done tt, w)
heal_replicas codec d heal_l0_from_l1 w = write_replica codec d l0 w
heal_replicas codec d heal_both_from_l1 w = write_replica codec d l0 w
heal_replicas codec d heal_l1_from_l0 w = write_replica codec d l1 w
heal_replicas codec d heal_both_from_l0 w = write_replica codec d l1 w

-- The switch of loadCanonicalDescriptor on the error of Reconcile.
abbrev pub mapped : Outcome Choice → Outcome Choice
mapped (failed nothing_there) = failed store_not_found
mapped other = other

unfoldable pub load_canonical_descriptor : Codec → Act Descriptor
load_canonical_descriptor codec = do
  (a, b) ← read_both codec
  rec ← pure (mapped (reconcile a b))
  heal_replicas codec rec.canonical rec.action
  pure (done rec.canonical)
