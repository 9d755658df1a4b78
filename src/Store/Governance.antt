-- ===== src/Store/Governance.antt =====
-- refreshGovernance of engine/store/liveness.go beside the goroutines that may run between its two
-- locks.
use scrinium.Base.{
  ℕ, ◌<◌, ◌≤◌, none, some, [], ◌∷◌, ◌++◌, ◌≡◌, inl, inr, refl, subst, arith, Bool-cases,
  Option-cases, ◌==◌, leb,
}
use scrinium.Store.{Store, GovernanceRead, config_updated, swap_config, refresh_governance}

-- There is nothing to adopt: no version is on disk, or the version on disk is the one in use, or it
-- could not be read.
pub data NothingNew {C : Type 0} (g : GovernanceRead C) (s : Store C) : Type 0 where
  no_version : g.active_seq ≡ none → NothingNew g s
  in_use : g.active_seq ≡ some s.last_config_seq → NothingNew g s
  unread : g.read_config ≡ none → NothingNew g s

-- What one refresh does, from the store that it first read, `s`, and the one that the other
-- goroutines left, `mid`: nothing, where there is nothing to adopt; nothing more, where what the
-- others left is as new as what it read; or a swap to the newer version that it read.
pub data Refreshed {C : Type 0} (g : GovernanceRead C) (s mid after : Store C) : Type 0 where
  untouched : NothingNew g s → after ≡ s → Refreshed g s mid after
  kept :
      (cfg : C) (seq : ℕ)
      → g.read_config ≡ some (cfg, seq)
      → seq ≤ mid.last_config_seq
      → after ≡ mid
      → Refreshed g s mid after
  swapped :
      (cfg : C) (seq : ℕ)
      → g.read_config ≡ some (cfg, seq)
      → mid.last_config_seq < seq
      → after ≡ record mid {
        active_config = cfg;
        last_config_seq = seq;
        events = mid.events ++ (config_updated cfg ∷ []);
      }
      → Refreshed g s mid after

module _ {C : Type 0} where
  swap-Refreshed :
      (g : GovernanceRead C) (s mid : Store C) (cfg : C) (seq : ℕ)
      → g.read_config ≡ some (cfg, seq)
      → Refreshed g s mid (swap_config (cfg, seq) mid)
  unfolding swap_config
  swap-Refreshed g s mid cfg seq e = elim (Bool-cases (leb seq mid.last_config_seq)) [
    | inl old ↦ kept cfg seq e (ground (arith, old)) (rw old refl)
    | inr new ↦ swapped cfg seq e (ground (arith, new)) (rw new refl)
  ]

  -- A refresh ends in one of three ways, whatever else runs between its two locks. Where there is
  -- nothing to adopt (no version on disk, the version in use, or one that cannot be read), it leaves
  -- the store as it found it. Otherwise it has read a version: where that is no newer than the one
  -- that the others left, the store stays as the others left it, so a local UpdateConfig that won the
  -- race is not overwritten; where it is strictly newer, that configuration and its number replace
  -- theirs, with one event, and nothing else changes.
  pub refresh_newer_wins :
      (g : GovernanceRead C) (others : Store C → Store C) (s : Store C)
      → Refreshed g s (others s) (refresh_governance g others s)
  unfolding refresh_governance
  refresh_newer_wins g others s = elim (Option-cases g.active_seq) [
    | inl none_there ↦ untouched (no_version none_there) (rw none_there refl)
    | inr (seq, a) ↦ (elim (Bool-cases (seq == s.last_config_seq)) [
      | inl same ↦ untouched (in_use (ground (arith, a, same))) (rw (a, same) refl)
      | inr differs ↦ (elim (Option-cases g.read_config) [
        | inl r ↦ untouched (unread r) (rw (a, differs, r) refl)
        | inr ((cfg, read_seq), r) ↦
            subst (Refreshed g s (others s)) (rw (a, differs, r) refl)
              (swap-Refreshed g s (others s) cfg read_seq r)
      ])
    ])
  ]
