-- ===== src/Runner/Backup/Branches.antt =====
-- What a backup does to the table on each of its paths.
use jconfig.Prelude.{
  ◌+◌, true, false, ◌≡◌, ◌∙◌, some, arith, nat_equality, list_equality, if◌then◌else◌,
}
use mathlib.Core.Path.{subst, ap₂}
use jconfig.Prelude.Int.{pos, ltb_ℤ, ◌+ℤ◌}
use jconfig.Prelude.Time.{Time, Duration}
use jconfig.Strings.Basic.{Text}
use jconfig.Config.Types.{Config, Device}
use jconfig.Device.Result.{Error, message, stage_of, Fetched, Outcome, ok, failed}
use jconfig.Metrics.{observe_attempt, observe_git, op_commit, observe_success}
use jconfig.Metrics.Health.{SameFor-trans, observe_failure-SameFor, observe_success-SameFor}
use jconfig.Prelude.Answer.{Answer, good, bad, is_bad}
use jconfig.Store.Api.{CommitResult, StoreApi}
use jconfig.Runner.Types.{State, Runner, Readings}
use jconfig.Runner.Table.{update, set_running, retry_delay}
use jconfig.Runner.Backup.{
  stage_git, size_gauges, change_metrics, info_metrics, succeed, begin, fetch_failed, commit_failed,
  committed, store_fetched, backup, request_of, after_commit, after_fetch,
}
use jconfig.Runner.Backup.Effect.{Touches, update-Touches, metrics-Touches, Touches-trans}
use jconfig.Runner.Backup.Gauges.{
  observe_attempt-SameFor, observe_git-SameFor, size_gauges-SameFor, change_metrics-SameFor,
  info_metrics-SameFor,
}

-- The entry of the device once the backup has begun, and on each way out.
abbrev pub begun : Readings → State → State
begun t st = record st { running = true; last_attempt = some t.start }

abbrev pub fetch_failure : Duration → Error → Readings → State → State
fetch_failure delay e t st = record st {
  failures = st.failures + 1;
  last_error = message e;
  last_stage = stage_of e;
  duration = t.elapsed;
  next_run = some (t.now +ℤ delay);
}

abbrev pub commit_failure : Duration → Text → Readings → State → State
commit_failure delay error t st = record st {
  failures = st.failures + 1;
  last_error = error;
  last_stage = stage_git;
  next_run = some (t.now +ℤ delay);
}

abbrev pub stopped : State → State
stopped st = record st { running = false }

update-store :
    {S : Type 0} (name : Text) (f : State → State) (r : Runner S)
    → (update name f r).store ≡ r.store
unfolding update
update-store name f r = ground arith

pub update-metrics :
    {S : Type 0} (name : Text) (f : State → State) (r : Runner S)
    → (update name f r).metrics ≡ r.metrics
unfolding update
update-metrics name f r = ground arith

module _ {S : Type 0} (api : StoreApi S) (format_time : Time → Text) (d : Device)
    (t : Readings) where
  pub begin-Touches : (r : Runner S) → Touches d.name (begun t) r (begin api format_time d t r)
  unfolding begin set_running
  begin-Touches r =
      let marked = set_running d.name true r in
      Touches-trans
        (Touches-trans (update-Touches d.name (λ st. record st { running = true }) r) (
          metrics-Touches d.name marked marked.store (observe_attempt d.name t.start marked.metrics)
            (λ n h. observe_attempt-SameFor d.name n t.start marked.metrics)))
        (update-Touches d.name (λ st. record st { last_attempt = some t.start }) _)

  fetch_failed-Touches :
      (e : Error) (r : Runner S)
      → Touches d.name
          (fetch_failure (retry_delay d r) e t)
          r
          (fetch_failed api format_time d e t r).1
  unfolding fetch_failed
  fetch_failed-Touches e r =
      let noted = update d.name (fetch_failure (retry_delay d r) e t) r in
      Touches-trans (update-Touches d.name (fetch_failure (retry_delay d r) e t) r) (
        metrics-Touches d.name noted noted.store _
          (λ n h. observe_failure-SameFor d.name t.elapsed noted.metrics (stage_of e) _ n h))

  commit_failed-Touches :
      (e : Text) (r : Runner S)
      → Touches d.name
          (commit_failure (retry_delay d r) e t)
          r
          (commit_failed api format_time d e t r).1
  unfolding commit_failed
  commit_failed-Touches e r =
      let noted = update d.name (commit_failure (retry_delay d r) e t) r in
      Touches-trans (update-Touches d.name (commit_failure (retry_delay d r) e t) r) (
        metrics-Touches d.name noted noted.store _
          (λ n h. observe_failure-SameFor d.name t.elapsed noted.metrics stage_git _ n h))

  committed-Touches :
      (f : Fetched) (c : CommitResult) (r : Runner S)
      → Touches d.name (succeed d f c t) r (committed api format_time d f c t r).1
  unfolding committed
  committed-Touches f c r =
      let changed = if c.changed then change_metrics d.name t.now r.metrics else r.metrics in
      Touches-trans
        (metrics-Touches d.name r r.store
          (info_metrics d f (observe_success d.name t.now t.elapsed changed))
          (λ n h. SameFor-trans (change_metrics-SameFor c.changed d.name n t.now r.metrics) (
            SameFor-trans (observe_success-SameFor d.name t.elapsed changed t.now n h)
              (info_metrics-SameFor d f n _))))
        (update-Touches d.name (succeed d f c t) _)

abbrev pub commit_step :
    Duration → Device → Readings → Fetched → Answer CommitResult → State → State
commit_step delay d t f (bad e) = commit_failure delay e t
commit_step delay d t f (good c) = succeed d f c t

-- What the entry of the device becomes between the start and the deferred reset.
abbrev pub step_of :
    Duration → Device → Readings → (Fetched → Answer CommitResult) → Outcome → State → State
step_of delay d t answer (failed e) = fetch_failure delay e t
step_of delay d t answer (ok f) = commit_step delay d t f (answer f)

module _ {S : Type 0} (api : StoreApi S) (format_time : Time → Text) where
  -- The answer that the repository gives to the commit of what was fetched.
  abbrev pub answer_in : Runner S → Device → Readings → Fetched → Answer CommitResult
  answer_in r d t f = (api.commit r.store (request_of api format_time r.cfg d f t)).0

  module _ (d : Device) (t : Readings) where
    pub begin-store : (r : Runner S) → (begin api format_time d t r).store ≡ r.store
    unfolding begin set_running
    begin-store r =
        update-store d.name (λ st. record st { last_attempt = some t.start }) _
        ∙ update-store d.name (λ st. record st { running = true }) r

    after_commit-Touches :
        (f : Fetched) (r : Runner S) (a : Answer CommitResult)
        → Touches d.name
            (commit_step (retry_delay d r) d t f a)
            r
            (after_commit api format_time d f t r a).1
    after_commit-Touches f r (bad e) = commit_failed-Touches api format_time d t e r
    after_commit-Touches f r (good c) = committed-Touches api format_time d t f c r

    store_fetched-Touches :
        (f : Fetched) (r : Runner S)
        → Touches d.name
            (commit_step (retry_delay d r) d t f (answer_in r d t f))
            r
            (store_fetched api format_time d f t r).1
    unfolding store_fetched retry_delay
    store_fetched-Touches f r =
        let (answer, s) = api.commit r.store (request_of api format_time r.cfg d f t) in
        let sized = size_gauges d.name f.configs r.metrics in
        let seen = observe_git op_commit (is_bad answer) t.git_time sized in
        Touches-trans
          (metrics-Touches d.name r s seen (λ n h.
            SameFor-trans (size_gauges-SameFor d.name n f.configs r.metrics)
              (observe_git-SameFor op_commit n (is_bad answer) t.git_time sized)))
          (after_commit-Touches f (record r { store = s; metrics = seen }) answer)

    pub after_fetch-Touches :
        (fetched : Outcome) (r : Runner S)
        → Touches d.name
            (step_of (retry_delay d r) d t (answer_in r d t) fetched)
            r
            (after_fetch api format_time d t r fetched).1
    after_fetch-Touches (failed e) r = fetch_failed-Touches api format_time d t e r
    after_fetch-Touches (ok f) r = store_fetched-Touches f r

    -- The whole backup, on the entry of its device.
    abbrev pub backup_step : Runner S → Outcome → State → State
    backup_step r fetched st =
        stopped (step_of (retry_delay d r) d t (answer_in r d t) fetched (begun t st))

    pub same_step :
        (r r' : Runner S) (fetched : Outcome)
        → r'.cfg ≡ r.cfg
        → r'.store ≡ r.store
        → step_of (retry_delay d r') d t (answer_in r' d t) fetched
          ≡ step_of (retry_delay d r) d t (answer_in r d t) fetched
    unfolding retry_delay
    same_step r r' fetched e h =
        ap₂
          (λ c s.
            step_of (delay_in c) d t (λ f. (api.commit s (request_of api format_time c d f t)).0)
              fetched)
          e h
      where
        delay_in : Config → Duration
        delay_in c = let v = c.scheduler.retry_interval in if ltb_ℤ (pos 0) v then v else d.interval

    pub backup-Touches :
        (fetched : Outcome) (r : Runner S)
        → Touches d.name (backup_step r fetched) r (backup api format_time d fetched t r).1
    unfolding backup set_running
    backup-Touches fetched r =
        let started = begin api format_time d t r in
        let first = begin-Touches api format_time d t r in
        let second =
          subst (λ f. Touches d.name f started (after_fetch api format_time d t started fetched).1)
            (same_step r started fetched first.same_cfg (begin-store r))
            (after_fetch-Touches fetched started) in
        Touches-trans (Touches-trans first second) (update-Touches d.name stopped _)
