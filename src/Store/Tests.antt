-- ===== src/Store/Tests.antt =====
-- Concrete stores, and the theorems of the siblings at them.
use scrinium.Base.{ℕ, none, some, true, false, [], ◌∷◌, ◌≡◌, ◌↔◌, refl}
use scrinium.Store.{
  Store, unlocked, mode_none, offline, answers, unreadable, GovernanceRead, degraded_lost,
  recovered, enter_write, set_maintenance_mode, probe_liveness, refresh_governance,
}
use scrinium.Store.Gates.{IsWritable, enter_write_iff}
use scrinium.Store.Sentinel.{
  Tick, IsQuiet, IsOperatorOffline, IsSubstituted, run_ticks, outage, nothing_new, lost_from,
  ticks-IsOperatorOffline, substitution_sticky, outage_heals, operator_mode_overwritten,
}
use scrinium.Store.Governance.{Refreshed, refresh_newer_wins}

-- A serving store; its config is a number.
abbrev serving : Store ℕ
serving = record {
  store_id = 1 ∷ 2 ∷ [];
  active_config = 10;
  last_config_seq = 3;
  state = unlocked;
  offline_by_sentinel = false;
  substituted = false;
  maintenance = mode_none;
  closed = false;
  events = [];
}

abbrev new_version : GovernanceRead ℕ
new_version = record { active_seq = some 5; read_config = some (42, 5) }

abbrev lost_tick : Tick ℕ
lost_tick = record { descriptor = unreadable; governance = nothing_new; others = λ s. s }

abbrev healthy_tick : Tick ℕ
healthy_tick = record {
  descriptor = answers (1 ∷ 2 ∷ []);
  governance = new_version;
  others = λ s. s;
}

abbrev foreign_tick : Tick ℕ
foreign_tick = record { descriptor = answers (9 ∷ []); governance = nothing_new; others = λ s. s }

lost_tick-IsQuiet : IsQuiet lost_tick
lost_tick-IsQuiet = record { mode = λ s. refl; flag = λ s. refl; sticky = λ s. refl }

healthy_tick-IsQuiet : IsQuiet healthy_tick
healthy_tick-IsQuiet = record { mode = λ s. refl; flag = λ s. refl; sticky = λ s. refl }

foreign_tick-IsQuiet : IsQuiet foreign_tick
foreign_tick-IsQuiet = record { mode = λ s. refl; flag = λ s. refl; sticky = λ s. refl }

enter_write_iff_example : (enter_write none serving ≡ none) ↔ IsWritable none serving
enter_write_iff_example = enter_write_iff none serving

ticks-IsOperatorOffline_example : IsOperatorOffline (
    run_ticks
      (lost_tick ∷ healthy_tick ∷ foreign_tick ∷ [])
      (record serving { maintenance = offline }))
ticks-IsOperatorOffline_example =
    ticks-IsOperatorOffline (lost_tick ∷ healthy_tick ∷ foreign_tick ∷ [])
      (record serving { maintenance = offline })
      (lost_tick-IsQuiet, (healthy_tick-IsQuiet, (foreign_tick-IsQuiet, tt)))
      (record { mode = refl; flag = refl })

abbrev replaced : Store ℕ
replaced = record serving { maintenance = offline; offline_by_sentinel = true; substituted = true }

substitution_sticky_example : IsSubstituted (run_ticks (foreign_tick ∷ healthy_tick ∷ []) replaced)
substitution_sticky_example =
    substitution_sticky (foreign_tick ∷ healthy_tick ∷ []) replaced
      (foreign_tick-IsQuiet, (healthy_tick-IsQuiet, tt))
      (record { mode = refl; flag = refl; sticky = refl })

outage_heals_example :
    (outage 3 serving ≡ lost_from serving)
    × (probe_liveness (answers (1 ∷ 2 ∷ [])) nothing_new (λ t. t) (outage 3 serving)
        ≡ record serving { events = degraded_lost ∷ recovered ∷ [] })
outage_heals_example = outage_heals 2 serving refl refl refl

operator_mode_overwritten_example :
    (probe_liveness
      (answers (1 ∷ 2 ∷ []))
      nothing_new
      (λ t. t)
      (set_maintenance_mode none offline (lost_from serving)).1).maintenance
    ≡ mode_none
operator_mode_overwritten_example = operator_mode_overwritten offline (lost_from serving) refl refl

refresh_newer_wins_example :
    Refreshed new_version serving
      (record serving { last_config_seq = 6 })
      (refresh_governance new_version (λ s. record s { last_config_seq = 6 }) serving)
refresh_newer_wins_example =
    refresh_newer_wins new_version (λ s. record s { last_config_seq = 6 }) serving
