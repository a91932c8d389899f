-- ===== src/Runner/Run.antt =====
-- internal/runner/runner.go: a run over several devices, and the repository's gauges after it.
--
-- The backups of a run are listed in the order in which they finish. A device whose goroutine saw
-- the cancelled context before it got a slot is skipped. Backups of a run overlap in time, up to the
-- configured concurrency; each touches the entry and the series of its own device only, and the
-- repository serialises commits, so they are modelled one after the other.
pub mod Summary
pub mod Invariant
use jconfig.Prelude.{
  ℕ, ◌+◌, Bool, true, false, not, List, [], ◌∷◌, ◌++◌, Option, none, some, arith, length, ◌==◌,
  nat_equality, list_equality, ltb, if◌then◌else◌,
}
use jconfig.Prelude.Int.{ℤ, pos}
use jconfig.Prelude.Time.{Time, Duration, is_zero, unix}
use jconfig.Strings.Basic.{Text, codes}
use jconfig.Strings.Order.{sort_by}
use jconfig.Config.Types.{Device, enabled_devices}
use jconfig.Device.Result.{Outcome}
use jconfig.Metrics.{
  Metrics, inc, op_push, op_status, observe_git, bool_value, result_success, result_failure,
}
use jconfig.Prelude.Answer.{Answer, good, bad, is_bad}
use jconfig.Store.Api.{StoreApi}
use jconfig.Runner.Types.{DeviceResult, RunSummary, Runner, Readings}
use jconfig.Runner.Table.{failing_count, due_devices}
use jconfig.Runner.Backup.{backup}

-- What happened to a device in a run: cancelled before it got a slot, or backed up.
pub data Fate : Type 0 where
  skipped : Fate
  backed_up : Outcome → Readings → Fate

abbrev pub Job : Type 0
Job = Device × Fate

pub record RunTimes : Type 0 where
  pub started : Time
  pub elapsed : Duration
  pub status_time : Time
  pub finished : Time

pub data RunAnswer : Type 0 where
  busy_error : RunAnswer
  unknown_device : Text → RunAnswer
  summary : RunSummary → RunAnswer

-- The loop over the results.
unfoldable pub count_ok : List DeviceResult → ℕ
count_ok [] = 0
count_ok (res ∷ rest) = (if res.succeeded then 1 else 0) + count_ok rest

unfoldable pub count_failed : List DeviceResult → ℕ
count_failed [] = 0
count_failed (res ∷ rest) = (if res.succeeded then 0 else 1) + count_failed rest

unfoldable pub count_changed : List DeviceResult → ℕ
count_changed [] = 0
count_changed (res ∷ rest) = (if res.changed then 1 else 0) + count_changed rest

unfoldable pub summarise : RunTimes → List DeviceResult → RunSummary
unfolding count_ok count_failed count_changed
summarise times results = record {
  started = times.started;
  duration = times.elapsed;
  total = length results;
  succeeded = count_ok results;
  failed = count_failed results;
  changed = count_changed results;
  pushed = false;
  push_error = [];
  devices = sort_by (λ res. res.device) results;
}

abbrev pub empty_summary : Time → RunSummary
empty_summary started = record {
  started = started;
  duration = pos 0;
  total = 0;
  succeeded = 0;
  failed = 0;
  changed = 0;
  pushed = false;
  push_error = [];
  devices = [];
}

-- The gauges of the newest commit and of uncommitted changes.
unfoldable pub head_gauges : Time → Answer (Time × Text) → Metrics → Metrics
head_gauges now (good (t, hash)) m = if is_zero t then m else record m { git_last_commit = unix t }
head_gauges now (bad e) m = observe_git op_status true now m

unfoldable pub dirty_gauges : Time → Answer Bool → Metrics → Metrics
dirty_gauges now (good b) m = record m { git_repo_dirty = bool_value b }
dirty_gauges now (bad e) m = observe_git op_status true now m

unfoldable pub push_gauges : Time → Answer Bool → Metrics → Metrics
push_gauges now (bad e) m =
    let seen = observe_git op_push true now m in record seen { git_push_success = pos 0 }
push_gauges now (good pushed) m =
    let seen = observe_git op_push false now m in
    record seen { git_push_success = pos 1; git_last_push = unix now }

unfoldable pub noted_push : Answer Bool → RunSummary → RunSummary
noted_push (bad e) sum = record sum { push_error = e }
noted_push (good pushed) sum = record sum { pushed = pushed }

unfoldable pub unpushed_gauges : Time → Answer ℕ → Metrics → Metrics
unpushed_gauges now (bad e) m = observe_git op_status true now m
unpushed_gauges now (good ahead) m = record m { git_unpushed_commits = pos ahead }

module _ {S : Type 0} (api : StoreApi S) (format_time : Time → Text) where
  -- The goroutines of the run, in the order in which they finish.
  unfoldable pub run_jobs : List Job → Runner S → List DeviceResult × Runner S
  run_jobs [] r = ([], r)
  run_jobs ((d, skipped) ∷ jobs) r = run_jobs jobs r
  run_jobs ((d, backed_up fetched t) ∷ jobs) r =
      let (res, r') = backup api format_time d fetched t r in
      let (results, last) = run_jobs jobs r' in (res ∷ results, last)

  unfoldable pub sync_repo_metrics : RunTimes → RunSummary → Runner S → RunSummary × Runner S
  unfolding head_gauges dirty_gauges push_gauges noted_push unpushed_gauges
  sync_repo_metrics times sum r =
      let now = times.status_time in
      let m1 = head_gauges now (api.head_commit r.store) r.metrics in
      let m2 = dirty_gauges now (api.dirty r.store) m1 in
      if not r.cfg.repo.push.enabled
      then (sum, record r { metrics = m2 })
      else let (answer, s1) = api.push r.store in
        let (ahead, s2) = api.unpushed s1 in
        let m3 = push_gauges now answer m2 in
        (noted_push answer sum, record r { store = s2; metrics = unpushed_gauges now ahead m3 })

  -- The gauges and counters at the end of a run; the deferred calls reset the rest.
  unfoldable pub finish_run : RunTimes → RunSummary → Runner S → Runner S
  unfolding failing_count
  finish_run times sum r =
      let m = r.metrics in
      record r {
        busy = false;
        metrics = record m {
          run_last = unix times.finished;
          run_duration = sum.duration;
          run_total =
              inc ((if ltb 0 sum.failed then result_failure else result_success) ∷ []) m.run_total;
          devices_failing = pos (failing_count r);
          run_in_progress = pos 0;
        };
      }

  unfoldable pub start_run : Runner S → Runner S
  start_run r =
      let m = r.metrics in record r { busy = true; metrics = record m { run_in_progress = pos 1 } }

  abbrev pub run_locked : RunTimes → List Job → Runner S → RunAnswer × Runner S
  run_locked times [] r = (summary (empty_summary times.started), r)
  run_locked times (job ∷ jobs) r =
      let (results, r') = run_jobs (job ∷ jobs) (start_run r) in
      let (sum, r'') = sync_repo_metrics times (summarise times results) r' in
      (summary sum, finish_run times sum r'')

  -- run: TryLock fails while another run goes on.
  unfoldable pub run : RunTimes → List Job → Runner S → RunAnswer × Runner S
  unfolding run_jobs start_run sync_repo_metrics summarise finish_run
  run times jobs r = if r.busy then (busy_error, r) else run_locked times jobs r

  -- The fates are what happens to each device that the caller chose, in the order of finishing.
  unfoldable pub run_all : RunTimes → (List Device → List Job) → Runner S → RunAnswer × Runner S
  unfolding run
  run_all times fates r = run times (fates (enabled_devices r.cfg)) r

  abbrev pub find_device : Text → List Device → Option Device
  find_device name [] = none
  find_device name (d ∷ ds) = if d.name == name then some d else find_device name ds

  abbrev pub run_found :
      RunTimes → (List Device → List Job) → Text → Runner S → Option Device → RunAnswer × Runner S
  run_found times fates name r none = (unknown_device name, r)
  run_found times fates name r (some d) = run times (fates (d ∷ [])) r

  unfoldable pub run_device :
      RunTimes → (List Device → List Job) → Text → Runner S → RunAnswer × Runner S
  unfolding run
  run_device times fates name r = run_found times fates name r (find_device name r.cfg.devices)

  -- runDue: an error is logged, and ErrBusy is not even that.
  abbrev pub run_if_any : RunTimes → (List Device → List Job) → List Device → Runner S → Runner S
  run_if_any times fates [] r = r
  run_if_any times fates (d ∷ ds) r = (run times (fates (d ∷ ds)) r).1

  unfoldable pub run_due : Time → RunTimes → (List Device → List Job) → Runner S → Runner S
  unfolding run
  run_due now times fates r = run_if_any times fates (due_devices now r) r

  -- Ready: the repository must be readable; the error is what is said otherwise.
  unfoldable pub ready : Runner S → Option Text
  ready r = elim (api.head_commit r.store) [
    | good head ↦ none
    | bad e ↦ some (codes "repository not readable: " ++ e)
  ]
