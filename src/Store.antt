-- ===== src/Store.antt =====
-- The in-memory state of an open store: domain/state.go, engine/store/store_type.go, the entry
-- gates of engine/store/access.go, SetMaintenanceMode of engine/store/admin_state.go and the
-- liveness sentinel of engine/store/liveness.go.
pub mod Gates
pub mod Sentinel
pub mod Governance
mod Tests
use scrinium.Base.{
  ℕ, Text, Bool, true, false, not, ◌&&◌, ◌||◌, Option, none, some, List, [], ◌∷◌, ◌++◌, leb, ◌==◌,
  text_eq, if◌then◌else◌,
}

pub data StoreState : Type 0 where
  bootstrapping locked unlocked degraded corrupted : StoreState

-- A Go uint8; `other` is a value that names no regime.
pub data MaintenanceMode : Type 0 where
  mode_none read_only offline : MaintenanceMode
  other : ℕ → MaintenanceMode

pub data CtxError : Type 0 where
  cancelled deadline_exceeded : CtxError

pub data Refusal : Type 0 where
  ctx_error : CtxError → Refusal
  closed_store store_corrupted store_offline not_ready store_locked store_read_only : Refusal
  invalid_mode : ℕ → Refusal

-- What the store publishes. The human-readable reasons are left out.
pub data Event {ℓ} (C : Type ℓ) : Type ℓ where
  degraded_lost : Event C
  degraded_substituted : Text → Event C
  recovered : Event C
  config_updated : C → Event C

-- `C` is config.StoreConfig; `events` is what went to the publisher, oldest first.
pub record Store (C : Type 0) : Type 0 where
  pub store_id : Text
  pub active_config : C
  pub last_config_seq : ℕ
  pub state : StoreState
  pub offline_by_sentinel : Bool
  pub substituted : Bool
  pub maintenance : MaintenanceMode
  pub closed : Bool
  pub events : List (Event C)

-- `ctx.Err()`: none while the context is live.
abbrev pub Ctx : Type 0
Ctx = Option CtxError

pub is_offline : MaintenanceMode → Bool
is_offline offline = true
is_offline _ = false

pub is_read_only : MaintenanceMode → Bool
is_read_only read_only = true
is_read_only _ = false

pub is_corrupted : StoreState → Bool
is_corrupted corrupted = true
is_corrupted _ = false

pub is_bootstrapping : StoreState → Bool
is_bootstrapping bootstrapping = true
is_bootstrapping _ = false

pub is_locked : StoreState → Bool
is_locked locked = true
is_locked _ = false

module _ {C : Type 0} where
  unfoldable pub check_operational : Store C → Option Refusal
  unfolding is_corrupted is_offline is_bootstrapping is_locked
  check_operational s =
      if s.closed
      then some closed_store
      else if is_corrupted s.state
      then some store_corrupted
      else if is_offline s.maintenance
      then some store_offline
      else if is_bootstrapping s.state
      then some not_ready
      else if is_locked s.state
      then some store_locked
      else none

  unfoldable pub check_writable : Store C → Option Refusal
  unfolding check_operational is_read_only
  check_writable s = elim (check_operational s) [
    | some e ↦ some e
    | none ↦ if is_read_only s.maintenance then some store_read_only else none
  ]

  unfoldable pub enter_read : Ctx → Store C → Option Refusal
  unfolding check_operational
  enter_read (some e) s = some (ctx_error e)
  enter_read none s = check_operational s

  -- The lifecycle and the regime, which the code reads under two locks, are read at one moment.
  unfoldable pub enter_write : Ctx → Store C → Option Refusal
  unfolding check_writable
  enter_write (some e) s = some (ctx_error e)
  enter_write none s = check_writable s

  unfoldable pub enter_admin : Ctx → Store C → Option Refusal
  unfolding is_corrupted is_offline is_bootstrapping
  enter_admin (some e) s = some (ctx_error e)
  enter_admin none s =
      if s.closed
      then some closed_store
      else if is_corrupted s.state
      then some store_corrupted
      else if is_offline s.maintenance
      then some store_offline
      else if is_bootstrapping s.state
      then some not_ready
      else none

  -- It sets the regime and leaves the sentinel's own flags as they are.
  unfoldable pub set_maintenance_mode : Ctx → MaintenanceMode → Store C → Option Refusal × Store C
  set_maintenance_mode (some e) mode s = (some (ctx_error e), s)
  set_maintenance_mode none (other n) s = (some (invalid_mode n), s)
  set_maintenance_mode none mode s = (none, record s { maintenance = mode })

  publish : Event C → Store C → Store C
  publish e s = record s { events = s.events ++ (e ∷ []) }

  unfoldable pub sentinel_lost : Store C → Store C
  unfolding publish is_offline
  sentinel_lost s =
      if is_offline s.maintenance && not s.offline_by_sentinel
      then s
      else let flipped = record s { maintenance = offline; offline_by_sentinel = true } in
        if s.offline_by_sentinel then flipped else publish degraded_lost flipped

  unfoldable pub sentinel_substituted : Text → Store C → Store C
  unfolding publish is_offline
  sentinel_substituted foreign s =
      if is_offline s.maintenance && not s.offline_by_sentinel
      then s
      else let flipped = record s {
        maintenance = offline;
        offline_by_sentinel = true;
        substituted = true;
      } in
        if s.substituted then flipped else publish (degraded_substituted foreign) flipped

  unfoldable pub sentinel_healthy : Store C → Store C
  unfolding publish
  sentinel_healthy s =
      if not s.offline_by_sentinel || s.substituted
      then s
      else publish recovered (record s { maintenance = mode_none; offline_by_sentinel = false })

-- What descriptor.Read answers to one probe.
pub data DescriptorRead : Type 0 where
  answers : Text → DescriptorRead
  unreadable : DescriptorRead
  timed_out : CtxError → DescriptorRead

-- What the config files answer to one probe: activeConfigSeq (none for an error or no version), and
-- readConfig after config.ApplyDefaults and config.ValidateImmutable (none for an error of either).
pub record GovernanceRead (C : Type 0) : Type 0 where
  pub active_seq : Option ℕ
  pub read_config : Option (C × ℕ)

module _ {C : Type 0} where
  -- The part of refreshGovernance after the second lock: `s` is what it finds then.
  unfoldable pub swap_config : C × ℕ → Store C → Store C
  unfolding publish
  swap_config (cfg, read_seq) s =
      if leb read_seq s.last_config_seq
      then s
      else publish (config_updated cfg)
          (record s { active_config = cfg; last_config_seq = read_seq })

  -- `others` is what other goroutines do between the two locks.
  unfoldable pub refresh_governance : GovernanceRead C → (Store C → Store C) → Store C → Store C
  unfolding swap_config
  refresh_governance g others s = elim g.active_seq [
    | none ↦ s
    | some seq ↦
        if seq == s.last_config_seq
        then s
        else (elim g.read_config [ none ↦ s | some found ↦ swap_config found (others s) ])
  ]

  unfoldable pub probe_liveness :
      DescriptorRead → GovernanceRead C → (Store C → Store C) → Store C → Store C
  probe_liveness (timed_out e) g others s = s
  probe_liveness unreadable g others s = sentinel_lost s
  probe_liveness (answers id) g others s =
      if text_eq id s.store_id
      then refresh_governance g others (sentinel_healthy s)
      else sentinel_substituted id s
