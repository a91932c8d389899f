-- ===== src/Runner/Backup.antt =====
-- internal/runner/runner.go: the backup of one device. Its steps follow the source: the start, the
-- failure of the fetch, the failure of the commit, and the success.
pub mod Effect
pub mod Gauges
pub mod Branches
pub mod Health
use jconfig.Prelude.{
  ℕ, ◌+◌, true, false, [], ◌∷◌, Option, none, some, arith, length, ◌==◌, nat_equality,
  list_equality, if◌then◌else◌,
}
use jconfig.Prelude.Int.{ℤ, pos, ◌+ℤ◌}
use jconfig.Prelude.Dict.{Dict, get, put}
use jconfig.Prelude.Time.{Time, Duration, is_zero, unix}
use jconfig.Strings.Basic.{Text, codes}
use jconfig.Config.Types.{Config, Device}
use jconfig.Config.Vendors.{vendor_routeros}
use jconfig.Device.Result.{Error, message, stage_of, Fetched, Outcome, ok, failed}
use jconfig.Metrics.{
  Metrics, inc, delete_device, op_commit, observe_attempt, observe_success, observe_failure,
  observe_git,
}
use jconfig.Prelude.Answer.{Answer, good, bad, is_bad}
use jconfig.Store.Api.{CommitRequest, CommitResult, StoreApi}
use jconfig.Runner.Names.{repo_path}
use jconfig.Runner.Message.{commit_message, count_lines}
use jconfig.Runner.Types.{State, DeviceResult, Runner, Readings}
use jconfig.Runner.Table.{update, set_running, retry_delay}

abbrev pub stage_git : Text
stage_git = codes "git"

-- fetchDevice: the only place that knows which vendors exist.
unfoldable pub fetch_device : (Device → Outcome) → (Device → Outcome) → Device → Outcome
fetch_device junos routeros d = if d.vendor == vendor_routeros then routeros d else junos d

-- The files of a commit: one for each fetched format.
unfoldable pub files_of : Text → Device → Dict Text Text → Dict Text Text → Dict Text Text
files_of layout d [] files = files
files_of layout d ((format, content) ∷ rest) files =
    files_of layout d rest (put (repo_path layout d format) content files)

-- The gauges set in the same loop.
unfoldable pub size_gauges : Text → Dict Text Text → Metrics → Metrics
size_gauges name [] m = m
size_gauges name ((format, content) ∷ rest) m = size_gauges name rest (record m {
  config_bytes = put (name ∷ format ∷ []) (pos (length content)) m.config_bytes;
  config_lines = put (name ∷ format ∷ []) (pos (count_lines content)) m.config_lines;
})

-- `failures` after the update of a failure: 0 if the device has left the table.
abbrev pub failures_of : Option State → ℕ
failures_of none = 0
failures_of (some st) = st.failures

-- The collectors that a change sets, and those that name the device.
unfoldable pub change_metrics : Text → Time → Metrics → Metrics
change_metrics name now m = record m {
  config_changed_total = inc (name ∷ []) m.config_changed_total;
  config_last_changed = put (name ∷ []) (unix now) m.config_last_changed;
  git_commits_total = inc (name ∷ []) m.git_commits_total;
}

unfoldable pub info_metrics : Device → Fetched → Metrics → Metrics
info_metrics d f m = record m {
  device_info =
      put (d.name ∷ d.host ∷ d.group ∷ d.vendor ∷ d.transport ∷ f.model ∷ f.os_version ∷ []) (pos 1)
        (delete_device d.name m.device_info);
  device_last_commit =
      (if is_zero f.last_commit
        then m.device_last_commit
        else put (d.name ∷ []) (unix f.last_commit) m.device_last_commit);
  device_last_commit_by =
      (if f.last_commit_by == []
        then m.device_last_commit_by
        else put (d.name ∷ f.last_commit_by ∷ []) (pos 1)
            (delete_device d.name m.device_last_commit_by));
}

abbrev pub failed_result : Text → Text → Text → Duration → DeviceResult
failed_result name stage error elapsed = record {
  device = name;
  succeeded = false;
  changed = false;
  commit = [];
  stage = stage;
  error = error;
  duration = elapsed;
}

-- The update of a success.
unfoldable pub succeed : Device → Fetched → CommitResult → Readings → State → State
succeed d f c t st = record st {
  last_success = some t.now;
  last_error = [];
  last_stage = [];
  failures = 0;
  duration = t.elapsed;
  hostname = f.hostname;
  model = f.model;
  os_version = f.os_version;
  device_commit_by = f.last_commit_by;
  device_commit = (if is_zero f.last_commit then st.device_commit else some f.last_commit);
  last_changed = (if c.changed then some t.now else st.last_changed);
  last_commit = (if c.changed then c.hash else st.last_commit);
  next_run = some (t.now +ℤ d.interval);
}

module _ {S : Type 0} (api : StoreApi S) (format_time : Time → Text) where
  -- Up to the fetch: the device is marked running and the attempt is recorded.
  unfoldable pub begin : Device → Readings → Runner S → Runner S
  unfolding set_running
  begin d t r =
      let marked = set_running d.name true r in
      let seen = record marked { metrics = observe_attempt d.name t.start marked.metrics } in
      update d.name (λ st. record st { last_attempt = some t.start }) seen

  unfoldable pub fetch_failed : Device → Error → Readings → Runner S → DeviceResult × Runner S
  unfolding update retry_delay
  fetch_failed d e t r =
      let stage = stage_of e in
      let next = t.now +ℤ retry_delay d r in
      let noted =
        update d.name
          (λ st. record st {
            failures = st.failures + 1;
            last_error = message e;
            last_stage = stage;
            duration = t.elapsed;
            next_run = some next;
          })
          r in
      (
        failed_result d.name stage (message e) t.elapsed,
        record noted {
          metrics =
              observe_failure d.name stage t.elapsed (failures_of (get d.name noted.states))
                noted.metrics;
        },
      )

  -- A git failure is a backup failure: the configuration was fetched but not stored.
  unfoldable pub commit_failed : Device → Text → Readings → Runner S → DeviceResult × Runner S
  unfolding update retry_delay
  commit_failed d error t r =
      let next = t.now +ℤ retry_delay d r in
      let noted =
        update d.name
          (λ st. record st {
            failures = st.failures + 1;
            last_error = error;
            last_stage = stage_git;
            next_run = some next;
          })
          r in
      (
        failed_result d.name stage_git error t.elapsed,
        record noted {
          metrics =
              observe_failure d.name stage_git t.elapsed (failures_of (get d.name noted.states))
                noted.metrics;
        },
      )

  unfoldable pub committed :
      Device → Fetched → CommitResult → Readings → Runner S → DeviceResult × Runner S
  unfolding update succeed change_metrics info_metrics
  committed d f c t r =
      let changed = if c.changed then change_metrics d.name t.now r.metrics else r.metrics in
      let seen = info_metrics d f (observe_success d.name t.now t.elapsed changed) in
      (
        record {
          device = d.name;
          succeeded = true;
          changed = c.changed;
          commit = c.hash;
          stage = [];
          error = [];
          duration = t.elapsed;
        },
        update d.name (succeed d f c t) (record r { metrics = seen }),
      )

  abbrev pub after_commit :
      Device → Fetched → Readings → Runner S → Answer CommitResult → DeviceResult × Runner S
  after_commit d f t r (bad e) = commit_failed d e t r
  after_commit d f t r (good c) = committed d f c t r

  unfoldable pub request_of : Config → Device → Fetched → Readings → CommitRequest
  unfolding files_of
  request_of cfg d f t =
      let files = files_of cfg.repo.layout d f.configs [] in
      record {
        device = d.name;
        files = files;
        text = commit_message format_time cfg.repo.commit_prefix d f files;
        at_time = t.commit_time;
      }

  -- The commit of what was fetched, and what follows it.
  unfoldable pub store_fetched : Device → Fetched → Readings → Runner S → DeviceResult × Runner S
  unfolding request_of size_gauges commit_failed committed
  store_fetched d f t r =
      let (answer, s) = api.commit r.store (request_of r.cfg d f t) in
      let sized = size_gauges d.name f.configs r.metrics in
      after_commit d f t
        (record r { store = s; metrics = observe_git op_commit (is_bad answer) t.git_time sized })
        answer

  abbrev pub after_fetch : Device → Readings → Runner S → Outcome → DeviceResult × Runner S
  after_fetch d t r (failed e) = fetch_failed d e t r
  after_fetch d t r (ok f) = store_fetched d f t r

  -- The deferred reset of the running mark ends every path.
  unfoldable pub backup : Device → Outcome → Readings → Runner S → DeviceResult × Runner S
  unfolding begin fetch_failed store_fetched
  backup d fetched t r =
      let (res, r') = after_fetch d t (begin d t r) fetched in (res, set_running d.name false r')
