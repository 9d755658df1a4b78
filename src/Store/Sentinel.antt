-- ===== src/Store/Sentinel.antt =====
-- The liveness sentinel of engine/store/liveness.go over sequences of probes, and beside
-- SetMaintenanceMode.
use scrinium.Base.{
  ℕ, zero, suc, Text, true, false, none, List, [], ◌∷◌, ◌++◌, ◌≡◌, refl, All, arith, Bool-cases,
  inl, inr, text_eq, text_eq_refl,
}
use scrinium.Store.{
  Store, MaintenanceMode, mode_none, offline, DescriptorRead, answers, unreadable, timed_out,
  GovernanceRead, degraded_lost, recovered, sentinel_lost, sentinel_substituted, sentinel_healthy,
  refresh_governance, probe_liveness, set_maintenance_mode,
}

-- One tick of the sentinel: what it reads, and what other goroutines do meanwhile.
pub record Tick (C : Type 0) : Type 0 where
  pub descriptor : DescriptorRead
  pub governance : GovernanceRead C
  pub others : Store C → Store C

module _ {C : Type 0} where
  pub run_ticks : List (Tick C) → Store C → Store C
  run_ticks [] s = s
  run_ticks (t ∷ ts) s = run_ticks ts (probe_liveness t.descriptor t.governance t.others s)

  -- The other goroutines of the tick leave the regime and the sentinel's flags alone.
  pub record IsQuiet (t : Tick C) : Type 0 where
    pub mode : (s : Store C) → (t.others s).maintenance ≡ s.maintenance
    pub flag : (s : Store C) → (t.others s).offline_by_sentinel ≡ s.offline_by_sentinel
    pub sticky : (s : Store C) → (t.others s).substituted ≡ s.substituted

  pub record SameFlags (s t : Store C) : Type 0 where
    pub mode : t.maintenance ≡ s.maintenance
    pub flag : t.offline_by_sentinel ≡ s.offline_by_sentinel
    pub sticky : t.substituted ≡ s.substituted

  refresh-SameFlags :
      (t : Tick C) (s : Store C)
      → IsQuiet t
      → SameFlags s (refresh_governance t.governance t.others s)
  unfolding refresh_governance
  refresh-SameFlags t s q = record {
    mode = ground (arith, q.mode s);
    flag = ground (arith, q.flag s);
    sticky = ground (arith, q.sticky s);
  }

  -- The regime is Offline by the operator's own hand.
  pub record IsOperatorOffline (s : Store C) : Type 0 where
    pub mode : s.maintenance ≡ offline
    pub flag : s.offline_by_sentinel ≡ false

  pub record IsSubstituted (s : Store C) : Type 0 where
    pub mode : s.maintenance ≡ offline
    pub flag : s.offline_by_sentinel ≡ true
    pub sticky : s.substituted ≡ true

  healthy-IsOperatorOffline :
      (s : Store C) → IsOperatorOffline s → IsOperatorOffline (sentinel_healthy s)
  unfolding sentinel_healthy
  healthy-IsOperatorOffline s h = ground arith

  healthy-IsSubstituted : (s : Store C) → IsSubstituted s → IsSubstituted (sentinel_healthy s)
  unfolding sentinel_healthy
  healthy-IsSubstituted s h = ground arith

  abbrev pub nothing_new : GovernanceRead C
  nothing_new = record { active_seq = none; read_config = none }

  operator_by_flags : (s t : Store C) → SameFlags s t → IsOperatorOffline s → IsOperatorOffline t
  operator_by_flags s t f h = ground arith

  lost-IsOperatorOffline : (s : Store C) → IsOperatorOffline s → IsOperatorOffline (sentinel_lost s)
  unfolding sentinel_lost
  lost-IsOperatorOffline s h = ground arith

  substituted-IsOperatorOffline :
      (id : Text) (s : Store C)
      → IsOperatorOffline s
      → IsOperatorOffline (sentinel_substituted id s)
  unfolding sentinel_substituted
  substituted-IsOperatorOffline id s h = ground arith

  flags-IsSubstituted : (s t : Store C) → SameFlags s t → IsSubstituted s → IsSubstituted t
  flags-IsSubstituted s t f h = ground arith

  lost-IsSubstituted : (s : Store C) → IsSubstituted s → IsSubstituted (sentinel_lost s)
  unfolding sentinel_lost
  lost-IsSubstituted s h = ground arith

  sentinel_substituted-IsSubstituted :
      (id : Text) (s : Store C) → IsSubstituted s → IsSubstituted (sentinel_substituted id s)
  unfolding sentinel_substituted
  sentinel_substituted-IsSubstituted id s h = ground arith

-- Induction over the probes, for a property of the flags that loss, substitution and recovery keep.
module _ {C : Type 0} (P : Store C → Type 0)
    (by_flags : (s t : Store C) → SameFlags s t → P s → P t)
    (by_lost : (s : Store C) → P s → P (sentinel_lost s))
    (by_substituted : (id : Text) (s : Store C) → P s → P (sentinel_substituted id s))
    (by_healthy : (s : Store C) → P s → P (sentinel_healthy s)) where
  probe_keeps :
      (d : DescriptorRead) (t : Tick C) (s : Store C)
      → IsQuiet t
      → P s
      → P (probe_liveness d t.governance t.others s)
  unfolding probe_liveness
  probe_keeps (answers id) t s q h = elim (Bool-cases (text_eq id s.store_id)) [
    | inl e ↦ rw e (by_flags _ _ (refresh-SameFlags t (sentinel_healthy s) q) (by_healthy s h))
    | inr e ↦ rw e (by_substituted id s h)
  ]
  probe_keeps unreadable t s q h = by_lost s h
  probe_keeps (timed_out e) t s q h = h

  run_ticks_keeps : (ts : List (Tick C)) (s : Store C) → All IsQuiet ts → P s → P (run_ticks ts s)
  unfolding run_ticks
  run_ticks_keeps [] s q h = h
  run_ticks_keeps (t ∷ ts) s q h = run_ticks_keeps ts _ q.1 (probe_keeps t.descriptor t s q.0 h)

module _ {C : Type 0} where
  -- An Offline that the operator set while the sentinel had not is never touched: whatever the
  -- probes find, it stays Offline and stays the operator's, if the goroutines that run beside them
  -- leave the regime and the flags alone.
  pub ticks-IsOperatorOffline :
      (ts : List (Tick C)) (s : Store C)
      → All IsQuiet ts
      → IsOperatorOffline s
      → IsOperatorOffline (run_ticks ts s)
  ticks-IsOperatorOffline =
      run_ticks_keeps IsOperatorOffline operator_by_flags lost-IsOperatorOffline
        substituted-IsOperatorOffline healthy-IsOperatorOffline

  -- A substituted store never heals by itself: whatever later probes find, the original store
  -- included, it stays Offline and stays marked, if the goroutines that run beside them leave the
  -- regime and the flags alone.
  pub substitution_sticky :
      (ts : List (Tick C)) (s : Store C)
      → All IsQuiet ts
      → IsSubstituted s
      → IsSubstituted (run_ticks ts s)
  substitution_sticky =
      run_ticks_keeps IsSubstituted flags-IsSubstituted lost-IsSubstituted
        sentinel_substituted-IsSubstituted healthy-IsSubstituted

  -- `n` probes in a row that cannot read the descriptor.
  pub outage : ℕ → Store C → Store C
  outage zero s = s
  outage (suc n) s = outage n (probe_liveness unreadable nothing_new (λ t. t) s)

  still_lost :
      (s : Store C) → s.maintenance ≡ offline → s.offline_by_sentinel ≡ true → sentinel_lost s ≡ s
  unfolding sentinel_lost
  still_lost s m f = ground arith

  outage_again :
      (n : ℕ) (s : Store C)
      → s.maintenance ≡ offline
      → s.offline_by_sentinel ≡ true
      → outage n s ≡ s
  unfolding outage probe_liveness
  outage_again zero s m f = refl
  outage_again (suc n) s m f = rw (still_lost s m f) (outage_again n s m f)

  -- The store after the first probe of an outage.
  abbrev pub lost_from : Store C → Store C
  lost_from s = record s {
    maintenance = offline;
    offline_by_sentinel = true;
    events = s.events ++ (degraded_lost ∷ []);
  }

  first_loss :
      (s : Store C)
      → s.maintenance ≡ mode_none
      → s.offline_by_sentinel ≡ false
      → sentinel_lost s ≡ lost_from s
  unfolding sentinel_lost
  first_loss s m f = ground arith

  healed :
      (s : Store C)
      → s.maintenance ≡ mode_none
      → s.offline_by_sentinel ≡ false
      → s.substituted ≡ false
      → probe_liveness (answers s.store_id) nothing_new (λ t. t) (lost_from s)
        ≡ record s { events = (s.events ++ (degraded_lost ∷ [])) ++ (recovered ∷ []) }
  unfolding probe_liveness sentinel_healthy refresh_governance
  healed s m f u = rw (text_eq_refl s.store_id) (ground arith)

  -- A transient outage of a store that has no maintenance regime and is neither offline by the sentinel
  -- nor substituted, of any length of at least one probe, with no new version of the configuration on
  -- disk and no other goroutine that changes the store meanwhile: it takes the store Offline with one
  -- degraded event, and the first probe that reads the same store_id again puts it back as it was, with
  -- one recovered event more.
  pub outage_heals :
      (n : ℕ) (s : Store C)
      → s.maintenance ≡ mode_none
      → s.offline_by_sentinel ≡ false
      → s.substituted ≡ false
      → (outage (suc n) s ≡ lost_from s)
        × (probe_liveness (answers s.store_id) nothing_new (λ t. t) (outage (suc n) s)
            ≡ record s { events = (s.events ++ (degraded_lost ∷ [])) ++ (recovered ∷ []) })
  outage_heals n s m f u = (all_lost, rw all_lost (healed s m f u))
    where
      all_lost : outage (suc n) s ≡ lost_from s
      all_lost =
          unfold outage probe_liveness in
          rw (first_loss s m f) (outage_again n (lost_from s) refl refl)

  -- The defect: SetMaintenanceMode leaves offlineBySentinel set, so whatever regime the operator
  -- asks for during an outage of a store that is not substituted, ReadOnly and Offline included, the
  -- first probe that finds the store healthy drops it to None. There is no new version of the
  -- configuration on disk, and no other goroutine changes the store meanwhile.
  pub operator_mode_overwritten :
      (m : MaintenanceMode) (s : Store C)
      → s.offline_by_sentinel ≡ true
      → s.substituted ≡ false
      → (probe_liveness
          (answers s.store_id)
          nothing_new
          (λ t. t)
          (set_maintenance_mode none m s).1).maintenance
        ≡ mode_none
  unfolding probe_liveness sentinel_healthy refresh_governance set_maintenance_mode
  operator_mode_overwritten m s f u = ground (arith, text_eq_refl s.store_id)
