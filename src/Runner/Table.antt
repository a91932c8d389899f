-- ===== src/Runner/Table.antt =====
-- internal/runner/runner.go: the table of devices, its reload, and what the scheduler reads of it.
use jconfig.Prelude.{
  ℕ, ◌+◌, Bool, true, false, not, List, [], ◌∷◌, map, Option, none, some, is_some, length,
  nat_equality, list_equality, ltb, if◌then◌else◌,
}
use jconfig.Prelude.Int.{pos, ltb_ℤ, leb_ℤ, ◌+ℤ◌}
use jconfig.Prelude.Dict.{Dict, get, put}
use jconfig.Prelude.Time.{Time, Duration, after}
use jconfig.Strings.Basic.{Text}
use jconfig.Strings.Order.{sort_by}
use jconfig.Config.Types.{Config, Device, bool_or, is_enabled, enabled_devices}
use jconfig.Metrics.{Metrics, bool_value, forget_device}
use jconfig.Runner.Types.{State, fresh, Runner}

-- startDelay; `draw j` is the random number below `j`.
unfoldable pub start_delay : (Duration → Duration) → Config → Duration
start_delay draw cfg = let j = cfg.scheduler.jitter in if leb_ℤ j (pos 0) then pos 0 else draw j

-- The state of a device that was not in the table. Load sets run_on_start, which is not nil here.
unfoldable pub new_state : (Duration → Duration) → Time → Config → Device → State
unfolding start_delay
new_state draw now cfg d = record (fresh d.name) {
  next_run = some (
      if not (bool_or true cfg.scheduler.run_on_start)
      then now +ℤ d.interval
      else now +ℤ start_delay draw cfg);
}

abbrev pub refreshed : Device → State → State
refreshed d st = record st {
  host = d.host;
  group = d.group;
  vendor = d.vendor;
  transport = d.transport;
  enabled = is_enabled d;
  interval = d.interval;
}

abbrev pub state_or : State → Option State → State
state_or s none = s
state_or s (some st) = st

-- The loop of Reload over the new inventory; `draws` gives each device its random draw.
unfoldable pub reload_states :
    (Text → Duration → Duration)
    → Time
    → Config
    → Dict Text State
    → List Device
    → Dict Text State
    → Dict Text State
unfolding new_state
reload_states draws now cfg old [] states = states
reload_states draws now cfg old (d ∷ ds) states = reload_states draws now cfg old ds (
    put d.name (refreshed d (state_or (new_state (draws d.name) now cfg d) (get d.name old)))
      states)

-- The loop of Reload over the old table.
unfoldable pub forget_removed : Dict Text State → Dict Text State → Metrics → Metrics
forget_removed states [] m = m
forget_removed states ((name, st) ∷ old) m =
    forget_removed states old (if is_some (get name states) then m else forget_device name m)

-- The gauges that Reload sets.
unfoldable pub config_gauges : Config → Metrics → Metrics
config_gauges cfg m = record m {
  devices_total = pos (length cfg.devices);
  devices_enabled = pos (length (enabled_devices cfg));
  git_push_enabled = bool_value cfg.repo.push.enabled;
  config_load = put (cfg.file_path ∷ []) (pos 1) m.config_load;
}

unfoldable pub failing : Dict Text State → ℕ
failing [] = 0
failing ((name, st) ∷ m) = (if ltb 0 st.failures then 1 else 0) + failing m

-- dueDevices: a device is due if it is enabled, has a state, is not running, and its next run is
-- not in the future.
abbrev pub state_due : Time → Option State → Bool
state_due now none = false
state_due now (some st) =
    if st.running then false else elim st.next_run [ none ↦ true | some t ↦ not (after t now) ]

unfoldable pub due_in : Time → Dict Text State → List Device → List Device
unfolding is_enabled
due_in now states [] = []
due_in now states (d ∷ ds) =
    let rest = due_in now states ds in
    if not (is_enabled d)
    then rest
    else if state_due now (get d.name states)
    then d ∷ rest
    else rest

module _ {S : Type 0} where
  unfoldable pub reload : (Text → Duration → Duration) → Time → Config → Runner S → Runner S
  unfolding reload_states forget_removed config_gauges
  reload draws now cfg r =
      let states = reload_states draws now cfg r.states cfg.devices [] in
      record r {
        cfg = cfg;
        states = states;
        metrics = config_gauges cfg (forget_removed states r.states r.metrics);
      }

  unfoldable pub set_store : S → Runner S → Runner S
  set_store st r = record r { store = st }

  unfoldable pub due_devices : Time → Runner S → List Device
  unfolding due_in
  due_devices now r = due_in now r.states r.cfg.devices

  unfoldable pub retry_delay : Device → Runner S → Duration
  retry_delay d r =
      let v = r.cfg.scheduler.retry_interval in if ltb_ℤ (pos 0) v then v else d.interval

  -- update: nothing happens if the device has left the table.
  unfoldable pub update : Text → (State → State) → Runner S → Runner S
  update name fn r = elim (get name r.states) [
    | none ↦ r
    | some st ↦ record r { states = put name (fn st) r.states }
  ]

  unfoldable pub set_running : Text → Bool → Runner S → Runner S
  unfolding update
  set_running name b = update name (λ st. record st { running = b })

  unfoldable pub failing_count : Runner S → ℕ
  unfolding failing
  failing_count r = failing r.states

  -- States: a snapshot, sorted by name.
  unfoldable pub states_sorted : Runner S → List State
  states_sorted r = sort_by (λ st. st.name) (map (λ e. e.1) r.states)
