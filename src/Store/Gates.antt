-- ===== src/Store/Gates.antt =====
-- The entry gates of engine/store/access.go against each other and against SetMaintenanceMode.
use scrinium.Base.{true, false, none, some, ◌≡◌, ◌≢◌, ◌↔◌, ◌⊎◌, arith}
use scrinium.Store.{
  Store, Ctx, unlocked, degraded, locked, read_only, offline, mode_none, closed_store, store_locked,
  store_read_only, enter_read, enter_write, enter_admin, set_maintenance_mode,
}

-- What lets a write through, said without the gates.
pub record IsWritable {C : Type 0} (ctx : Ctx) (s : Store C) : Type 0 where
  pub live : ctx ≡ none
  pub open_store : s.closed ≡ false
  pub serving : (s.state ≡ unlocked) ⊎ (s.state ≡ degraded)
  pub not_offline : s.maintenance ≢ offline
  pub not_read_only : s.maintenance ≢ read_only

module _ {C : Type 0} where
  gate-IsWritable : (ctx : Ctx) (s : Store C) → enter_write ctx s ≡ none → IsWritable ctx s
  unfolding enter_write
  gate-IsWritable ctx s h = record {
    live = ground arith;
    open_store = ground arith;
    serving = ground arith;
    not_offline = λ e. ground arith;
    not_read_only = λ e. ground arith;
  }

  gate_of_writable : (ctx : Ctx) (s : Store C) → IsWritable ctx s → enter_write ctx s ≡ none
  unfolding enter_write
  gate_of_writable ctx s w = ground (arith, w.not_offline, w.not_read_only)

  -- A write is let through exactly when the context is live, the store is open, its state is
  -- Unlocked or Degraded, and the regime is neither Offline nor ReadOnly.
  pub enter_write_iff : (ctx : Ctx) (s : Store C) → (enter_write ctx s ≡ none) ↔ IsWritable ctx s
  enter_write_iff ctx s = (gate-IsWritable ctx s, gate_of_writable ctx s)

  -- The three gates differ only where they should: what a write passes a read passes, what a read
  -- passes an admin call passes; an admin call passes where a read does not only in state Locked,
  -- which the read then names; and a write is refused where a read passes only under ReadOnly,
  -- which the write then names.
  gates_nested :
      (ctx : Ctx) (s : Store C)
      → (enter_write ctx s ≡ none → enter_read ctx s ≡ none)
        × (enter_read ctx s ≡ none → enter_admin ctx s ≡ none)
        × (enter_admin ctx s ≡ none
            → (enter_read ctx s ≡ none)
              ⊎ ((s.state ≡ locked) × (enter_read ctx s ≡ some store_locked)))
        × (enter_read ctx s ≡ none
            → (enter_write ctx s ≡ none)
              ⊎ ((s.maintenance ≡ read_only) × (enter_write ctx s ≡ some store_read_only)))
  unfolding enter_write enter_read enter_admin
  gates_nested ctx s = (λ h. ground arith, λ h. ground arith, λ h. ground arith, λ h. ground arith)

  -- Close wins over everything but a dead context: all three gates of a closed store name it.
  closed_first :
      (s : Store C)
      → s.closed ≡ true
      → (enter_read none s ≡ some closed_store)
        × (enter_write none s ≡ some closed_store)
        × (enter_admin none s ≡ some closed_store)
  unfolding enter_write enter_read enter_admin
  closed_first s h = (ground arith, ground arith, ground arith)

  -- SetMaintenanceMode is the way out of any regime: with a live context it takes an open store in
  -- state Unlocked to one that accepts writes, whatever regime it was under.
  maintenance_escape :
      (s : Store C)
      → s.closed ≡ false
      → s.state ≡ unlocked
      → ((set_maintenance_mode none mode_none s).0 ≡ none)
        × (enter_write none (set_maintenance_mode none mode_none s).1 ≡ none)
  unfolding set_maintenance_mode enter_write
  maintenance_escape s o u = (ground arith, ground arith)
