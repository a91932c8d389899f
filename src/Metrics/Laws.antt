-- ===== src/Metrics/Laws.antt =====
-- What the updates of the collectors leave of a device's series.
use jconfig.Prelude.{
  Bool, true, false, ◌≡◌, refl, ◌∙◌, Option, none, nat_equality, list_equality, if◌then◌else◌,
}
use jconfig.Prelude.Dict.{get, get-remove_if}
use jconfig.Strings.Basic.{Text}
use jconfig.Metrics.{Labels, Vec, Metrics, of_device, delete_device, forget_device}

-- No series of the vector carries the device.
abbrev pub IsAbsent : {V : Type 0} → Text → Vec V → Type 0
IsAbsent device v = (labels : Labels) → of_device device labels ≡ true → get labels v ≡ none

delete_device-IsAbsent :
    {V : Type 0} (device : Text) (v : Vec V) → IsAbsent device (delete_device device v)
unfolding delete_device
delete_device-IsAbsent device v labels h = get-remove_if (of_device device) labels v ∙ (rw h refl)

-- No vector with a device label carries the device.
pub record IsForgotten (device : Text) (m : Metrics) : Type 0 where
  pub device_info : IsAbsent device m.device_info
  pub backup_success : IsAbsent device m.backup_success
  pub backup_last_attempt : IsAbsent device m.backup_last_attempt
  pub backup_last_success : IsAbsent device m.backup_last_success
  pub backup_last_duration : IsAbsent device m.backup_last_duration
  pub backup_duration : IsAbsent device m.backup_duration
  pub backup_total : IsAbsent device m.backup_total
  pub backup_errors : IsAbsent device m.backup_errors
  pub backup_last_error : IsAbsent device m.backup_last_error
  pub consecutive_failures : IsAbsent device m.consecutive_failures
  pub config_bytes : IsAbsent device m.config_bytes
  pub config_lines : IsAbsent device m.config_lines
  pub config_changed_total : IsAbsent device m.config_changed_total
  pub config_last_changed : IsAbsent device m.config_last_changed
  pub device_last_commit : IsAbsent device m.device_last_commit
  pub device_last_commit_by : IsAbsent device m.device_last_commit_by
  pub git_commits_total : IsAbsent device m.git_commits_total

-- ForgetDevice leaves no series of the device in any vector that has a device label.
pub forget_device-IsForgotten :
    (device : Text) (m : Metrics) → IsForgotten device (forget_device device m)
unfolding forget_device
forget_device-IsForgotten device m = record {
  device_info = delete_device-IsAbsent device m.device_info;
  backup_success = delete_device-IsAbsent device m.backup_success;
  backup_last_attempt = delete_device-IsAbsent device m.backup_last_attempt;
  backup_last_success = delete_device-IsAbsent device m.backup_last_success;
  backup_last_duration = delete_device-IsAbsent device m.backup_last_duration;
  backup_duration = delete_device-IsAbsent device m.backup_duration;
  backup_total = delete_device-IsAbsent device m.backup_total;
  backup_errors = delete_device-IsAbsent device m.backup_errors;
  backup_last_error = delete_device-IsAbsent device m.backup_last_error;
  consecutive_failures = delete_device-IsAbsent device m.consecutive_failures;
  config_bytes = delete_device-IsAbsent device m.config_bytes;
  config_lines = delete_device-IsAbsent device m.config_lines;
  config_changed_total = delete_device-IsAbsent device m.config_changed_total;
  config_last_changed = delete_device-IsAbsent device m.config_last_changed;
  device_last_commit = delete_device-IsAbsent device m.device_last_commit;
  device_last_commit_by = delete_device-IsAbsent device m.device_last_commit_by;
  git_commits_total = delete_device-IsAbsent device m.git_commits_total;
}

none_either : {A : Type 0} {o : Option A} (b : Bool) → o ≡ none → (if b then none else o) ≡ none
none_either true e = refl
none_either false e = e

delete-IsAbsent :
    {V : Type 0} (device other : Text) (v : Vec V)
    → IsAbsent device v
    → IsAbsent device (delete_device other v)
unfolding delete_device
delete-IsAbsent device other v h labels k =
    get-remove_if (of_device other) labels v ∙ none_either (of_device other labels) (h labels k)

-- Forgetting another device brings nothing back.
pub IsForgotten-forget :
    (device other : Text) (m : Metrics)
    → IsForgotten device m
    → IsForgotten device (forget_device other m)
unfolding forget_device
IsForgotten-forget device other m f = record {
  device_info = delete-IsAbsent device other m.device_info f.device_info;
  backup_success = delete-IsAbsent device other m.backup_success f.backup_success;
  backup_last_attempt = delete-IsAbsent device other m.backup_last_attempt f.backup_last_attempt;
  backup_last_success = delete-IsAbsent device other m.backup_last_success f.backup_last_success;
  backup_last_duration = delete-IsAbsent device other m.backup_last_duration f.backup_last_duration;
  backup_duration = delete-IsAbsent device other m.backup_duration f.backup_duration;
  backup_total = delete-IsAbsent device other m.backup_total f.backup_total;
  backup_errors = delete-IsAbsent device other m.backup_errors f.backup_errors;
  backup_last_error = delete-IsAbsent device other m.backup_last_error f.backup_last_error;
  consecutive_failures = delete-IsAbsent device other m.consecutive_failures f.consecutive_failures;
  config_bytes = delete-IsAbsent device other m.config_bytes f.config_bytes;
  config_lines = delete-IsAbsent device other m.config_lines f.config_lines;
  config_changed_total = delete-IsAbsent device other m.config_changed_total f.config_changed_total;
  config_last_changed = delete-IsAbsent device other m.config_last_changed f.config_last_changed;
  device_last_commit = delete-IsAbsent device other m.device_last_commit f.device_last_commit;
  device_last_commit_by =
      delete-IsAbsent device other m.device_last_commit_by f.device_last_commit_by;
  git_commits_total = delete-IsAbsent device other m.git_commits_total f.git_commits_total;
}
