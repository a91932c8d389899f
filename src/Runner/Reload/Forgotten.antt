-- ===== src/Runner/Reload/Forgotten.antt =====
-- Reload and the series of the devices that left the inventory.
use jconfig.Prelude.{
  Bool, true, false, [], ◌∷◌, ◌≡◌, inl, inr, refl, ◌∙◌, none, some, is_some, ◌==◌, nat_equality,
  list_equality, text_eq, Bool-cases, if◌then◌else◌,
}
use mathlib.Core.Path.{subst}
use jconfig.Prelude.Dict.{Dict, get}
use jconfig.Prelude.Time.{Time, Duration}
use jconfig.Strings.Basic.{Text}
use jconfig.Config.Types.{Config}
use jconfig.Metrics.{Metrics, forget_device}
use jconfig.Metrics.Laws.{IsForgotten, forget_device-IsForgotten, IsForgotten-forget}
use jconfig.Runner.Types.{State, Runner}
use jconfig.Runner.Table.{forget_removed, config_gauges, reload}
use jconfig.Runner.Reload.{named, reload-get}

forget_removed-IsForgotten :
    (states old : Dict Text State) (m : Metrics) (n : Text)
    → IsForgotten n m
    → IsForgotten n (forget_removed states old m)
unfolding forget_removed
forget_removed-IsForgotten states [] m n h = h
forget_removed-IsForgotten states ((name, st) ∷ old) m n h =
    forget_removed-IsForgotten states old _ n (by_test (is_some (get name states)))
  where
    by_test : (b : Bool) → IsForgotten n (if b then m else forget_device name m)
    by_test true = h
    by_test false = IsForgotten-forget n name m h

-- A device of the old table that the new one lacks is forgotten.
forget_removed_gone :
    (states old : Dict Text State) (m : Metrics) (n : Text)
    → is_some (get n old) ≡ true
    → get n states ≡ none
    → IsForgotten n (forget_removed states old m)
unfolding forget_removed get
forget_removed_gone states [] m n h k = absurd (cc)
forget_removed_gone states ((name, st) ∷ old) m n h k = elim (Bool-cases (name == n)) [
  | inl e ↦
      subst
        (λ x.
          get x states ≡ none
          → IsForgotten x (
              forget_removed states old
                (if is_some (get name states) then m else forget_device name m)))
        ((text_eq name n).0 e) at_head k
  | inr e ↦ forget_removed_gone states old _ n (rw e at h) k
]
  where
    at_head :
        get name states ≡ none
        → IsForgotten name (
            forget_removed states old
              (if is_some (get name states) then m else forget_device name m))
    at_head e =
        rw e (forget_removed-IsForgotten states old _ name (forget_device-IsForgotten name m))

config_gauges-IsForgotten :
    (cfg : Config) (m : Metrics) (n : Text) → IsForgotten n m → IsForgotten n (config_gauges cfg m)
unfolding config_gauges
config_gauges-IsForgotten cfg m n f = record {
  device_info = f.device_info;
  backup_success = f.backup_success;
  backup_last_attempt = f.backup_last_attempt;
  backup_last_success = f.backup_last_success;
  backup_last_duration = f.backup_last_duration;
  backup_duration = f.backup_duration;
  backup_total = f.backup_total;
  backup_errors = f.backup_errors;
  backup_last_error = f.backup_last_error;
  consecutive_failures = f.consecutive_failures;
  config_bytes = f.config_bytes;
  config_lines = f.config_lines;
  config_changed_total = f.config_changed_total;
  config_last_changed = f.config_last_changed;
  device_last_commit = f.device_last_commit;
  device_last_commit_by = f.device_last_commit_by;
  git_commits_total = f.git_commits_total;
}

module _ {S : Type 0} (draws : Text → Duration → Duration) (now : Time) (cfg : Config)
    (r : Runner S) where
  -- A device that left the inventory has no series left in any per-device vector.
  pub reload-IsForgotten :
      (n : Text) (st : State)
      → get n r.states ≡ some st
      → named n cfg.devices ≡ none
      → IsForgotten n (reload draws now cfg r).metrics
  unfolding reload
  reload-IsForgotten n st h k = config_gauges-IsForgotten cfg _ n (
      forget_removed_gone _ r.states r.metrics n (rw h refl)
        (reload-get draws now cfg r n ∙ (rw k refl)))
