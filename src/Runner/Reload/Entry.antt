-- ===== src/Runner/Reload/Entry.antt =====
-- The entries of the table after a reload, field by field.
use jconfig.Prelude.{
  Bool, true, false, [], ◌≡◌, ◌≢◌, refl, ap, Option, none, some, arith, nat_equality, list_equality,
}
use mathlib.Core.Path.{subst}
use jconfig.Prelude.Int.{pos, negsuc, ◌+ℤ◌, ◌≤ℤ◌, leb_ℤ}
use jconfig.Prelude.Dict.{Dict, get}
use jconfig.Prelude.Time.{Time, Duration}
use jconfig.Strings.Basic.{Text}
use jconfig.Config.Types.{Config, Device, is_enabled, bool_or}
use jconfig.Runner.Types.{State, Runner}
use jconfig.Runner.Table.{start_delay, new_state, refreshed, state_or, reload}
use jconfig.Runner.Reload.{named, entry_of, entry_or, reload-get}

-- An entry that shows what the inventory says of its device.
pub record IsOfDevice (d : Device) (e : State) : Type 0 where
  pub host : e.host ≡ d.host
  pub group : e.group ≡ d.group
  pub vendor : e.vendor ≡ d.vendor
  pub transport : e.transport ≡ d.transport
  pub enabled : e.enabled ≡ is_enabled d
  pub interval : e.interval ≡ d.interval

-- An entry with all that another one says of the device's backups, its next run included.
pub record HasHistory (old e : State) : Type 0 where
  pub name : e.name ≡ old.name
  pub hostname : e.hostname ≡ old.hostname
  pub model : e.model ≡ old.model
  pub os_version : e.os_version ≡ old.os_version
  pub last_attempt : e.last_attempt ≡ old.last_attempt
  pub last_success : e.last_success ≡ old.last_success
  pub last_changed : e.last_changed ≡ old.last_changed
  pub next_run : e.next_run ≡ old.next_run
  pub last_error : e.last_error ≡ old.last_error
  pub last_stage : e.last_stage ≡ old.last_stage
  pub failures : e.failures ≡ old.failures
  pub last_commit : e.last_commit ≡ old.last_commit
  pub device_commit : e.device_commit ≡ old.device_commit
  pub device_commit_by : e.device_commit_by ≡ old.device_commit_by
  pub duration : e.duration ≡ old.duration
  pub running : e.running ≡ old.running

-- An entry of a device that was never backed up.
pub record IsUntried (d : Device) (e : State) : Type 0 where
  pub name : e.name ≡ d.name
  pub no_identity : (e.hostname ≡ []) × (e.model ≡ []) × (e.os_version ≡ [])
  pub no_attempt : e.last_attempt ≡ none
  pub no_success : (e.last_success ≡ none) × (e.last_changed ≡ none) × (e.last_commit ≡ [])
  pub no_failure : (e.failures ≡ 0) × (e.last_error ≡ []) × (e.last_stage ≡ [])
  pub no_commit : (e.device_commit ≡ none) × (e.device_commit_by ≡ [])
  pub no_duration : e.duration ≡ pos 0
  pub idle : e.running ≡ false

-- When a new device runs first: after its interval if the configuration says not to run on start,
-- and else after a random part of the jitter, or at once if there is no jitter.
pub record IsScheduled (draw : Duration → Duration) (now : Time) (cfg : Config) (d : Device)
    (e : State) : Type 0 where
  pub not_on_start : cfg.scheduler.run_on_start ≡ some false → e.next_run ≡ some (now +ℤ d.interval)
  pub spread :
      cfg.scheduler.run_on_start ≢ some false
      → pos 1 ≤ℤ cfg.scheduler.jitter
      → e.next_run ≡ some (now +ℤ draw cfg.scheduler.jitter)
  pub at_once :
      cfg.scheduler.run_on_start ≢ some false
      → cfg.scheduler.jitter ≤ℤ pos 0
      → e.next_run ≡ some now

add_zero : (t : Time) → t +ℤ pos 0 ≡ t
unfolding ◌+ℤ◌
add_zero (pos n) = ground arith
add_zero (negsuc n) = ground arith

starts : (o : Option Bool) → o ≢ some false → bool_or true o ≡ true
starts none h = refl
starts (some true) h = refl
starts (some false) h = absurd (h refl)

new_state-IsScheduled :
    (draw : Duration → Duration) (now : Time) (cfg : Config) (d : Device)
    → IsScheduled draw now cfg d (refreshed d (new_state draw now cfg d))
unfolding new_state start_delay
new_state-IsScheduled draw now cfg d = record {
  not_on_start = λ h. rw h refl;
  spread = λ h j.
      let late : leb_ℤ cfg.scheduler.jitter (pos 0) ≡ false = ground arith in
      rw (starts cfg.scheduler.run_on_start h, late) refl;
  at_once = λ h j.
      let none_left : leb_ℤ cfg.scheduler.jitter (pos 0) ≡ true = ground arith in
      rw (starts cfg.scheduler.run_on_start h, none_left) (ap some (add_zero now));
}

new_state-IsUntried :
    (draw : Duration → Duration) (now : Time) (cfg : Config) (d : Device)
    → IsUntried d (refreshed d (new_state draw now cfg d))
unfolding new_state
new_state-IsUntried draw now cfg d = record {
  name = refl;
  no_identity = (refl, refl, refl);
  no_attempt = refl;
  no_success = (refl, refl, refl);
  no_failure = (refl, refl, refl);
  no_commit = (refl, refl);
  no_duration = refl;
  idle = refl;
}

refreshed-HasHistory : (d : Device) (old : State) → HasHistory old (refreshed d old)
refreshed-HasHistory d old = record {
  name = refl;
  hostname = refl;
  model = refl;
  os_version = refl;
  last_attempt = refl;
  last_success = refl;
  last_changed = refl;
  next_run = refl;
  last_error = refl;
  last_stage = refl;
  failures = refl;
  last_commit = refl;
  device_commit = refl;
  device_commit_by = refl;
  duration = refl;
  running = refl;
}

refreshed-IsOfDevice : (d : Device) (st : State) → IsOfDevice d (refreshed d st)
refreshed-IsOfDevice d st = record {
  host = refl;
  group = refl;
  vendor = refl;
  transport = refl;
  enabled = refl;
  interval = refl;
}

-- What a device's entry is to be, given the one it had before, if it had one.
pub record IsEntry (draw : Duration → Duration) (now : Time) (cfg : Config) (d : Device)
    (before : Option State) (e : State) : Type 0 where
  pub of_device : IsOfDevice d e
  pub kept : (old : State) → before ≡ some old → HasHistory old e
  pub untried : before ≡ none → IsUntried d e × IsScheduled draw now cfg d e

refreshed-IsEntry :
    (draw : Duration → Duration) (now : Time) (cfg : Config) (d : Device) (before : Option State)
    → IsEntry draw now cfg d before (refreshed d (state_or (new_state draw now cfg d) before))
refreshed-IsEntry draw now cfg d none = record {
  of_device = refreshed-IsOfDevice d (new_state draw now cfg d);
  kept = λ old h. absurd cc;
  untried = λ h. (new_state-IsUntried draw now cfg d, new_state-IsScheduled draw now cfg d);
}
refreshed-IsEntry draw now cfg d (some st) = record {
  of_device = refreshed-IsOfDevice d st;
  kept = λ old h.
      let same : st ≡ old = cc in
      subst (λ x. HasHistory x (refreshed d st)) same (refreshed-HasHistory d st);
  untried = λ h. absurd cc;
}

-- What the table holds of a name after a reload: nothing if the inventory does not name it, else the
-- entry of the device, which is the last one of that name.
abbrev pub HasEntry :
    (Text → Duration → Duration)
    → Time
    → Config
    → Dict Text State
    → Option Device
    → Option State
    → Type 0
HasEntry draws now cfg old none o = o ≡ none
HasEntry draws now cfg old (some d) o =
    (e : State) × (o ≡ some e) × IsEntry (draws d.name) now cfg d (get d.name old) e

-- After a reload the table has an entry for exactly the names of the new inventory. It shows what the
-- inventory says of the device. A device that was in the table keeps all that is known of its
-- backups, and its next run. One that was not has none of that, and runs first after its interval if
-- the configuration says not to run on start, else after a random part of the jitter, or at once if
-- there is no jitter.
pub reload-entry :
    {S : Type 0} (draws : Text → Duration → Duration) (now : Time) (cfg : Config) (r : Runner S)
    (n : Text)
    → HasEntry draws now cfg r.states (named n cfg.devices) (get n (reload draws now cfg r).states)
reload-entry draws now cfg r n = rw (reload-get draws now cfg r n) (of_named (named n cfg.devices))
  where
    of_named :
        (o : Option Device)
        → HasEntry draws now cfg r.states o (entry_or draws now cfg r.states none o)
    of_named none = refl
    of_named (some d) = (
      entry_of draws now cfg r.states d,
      refl,
      refreshed-IsEntry (draws d.name) now cfg d (get d.name r.states),
    )
