-- ===== src/Runner/Run/Invariant.antt =====
-- What every run keeps: the agreement of table and collectors, and the lock.
use jconfig.Prelude.{
  ℕ, Bool, true, false, List, [], ◌∷◌, ◌≡◌, inl, inr, refl, ap, arith, nat_equality, list_equality,
  Bool-cases, if◌then◌else◌,
}
use jconfig.Prelude.Dict.{get}
use jconfig.Prelude.Time.{Time}
use jconfig.Strings.Basic.{Text}
use jconfig.Metrics.{Metrics, observe_git}
use jconfig.Metrics.Health.{SameFor, SameFor-trans}
use jconfig.Prelude.Answer.{Answer, good, bad}
use jconfig.Store.Api.{StoreApi}
use jconfig.Runner.Types.{RunSummary, Runner}
use jconfig.Runner.Backup.Gauges.{observe_git-SameFor}
use jconfig.Runner.Backup.Health.{Agrees-SameFor, TableAgrees, backup-TableAgrees}
use jconfig.Runner.Run.{
  Job, skipped, backed_up, RunTimes, busy_error, summarise, head_gauges, dirty_gauges, push_gauges,
  unpushed_gauges, run_jobs, sync_repo_metrics, start_run, finish_run, run_locked, run,
}

-- The same table, and health series that read the same.
pub record SameView {S : Type 0} (r r' : Runner S) : Type 0 where
  pub same_states : r'.states ≡ r.states
  pub same_series : (n : Text) → SameFor n r.metrics r'.metrics

pub SameView-TableAgrees :
    {S : Type 0} {r r' : Runner S} → SameView r r' → TableAgrees r → TableAgrees r'
SameView-TableAgrees v agrees n st h =
    Agrees-SameFor (v.same_series n) (agrees n st (rw v.same_states at h))

pub untouched :
    {n : Text} (m m' : Metrics)
    → m'.consecutive_failures ≡ m.consecutive_failures
    → m'.backup_success ≡ m.backup_success
    → m'.backup_last_error ≡ m.backup_last_error
    → SameFor n m m'
untouched {n} m m' a b c = record {
  count = ap (get (n ∷ [])) a;
  success = ap (get (n ∷ [])) b;
  errors = λ rest. ap (get (n ∷ rest)) c;
}

head_gauges-SameFor :
    (now : Time) (a : Answer (Time × Text)) (n : Text) (m : Metrics)
    → SameFor n m (head_gauges now a m)
unfolding head_gauges
head_gauges-SameFor now (good (t, hash)) n m =
    untouched m _ (ground arith) (ground arith) (ground arith)
head_gauges-SameFor now (bad e) n m = observe_git-SameFor _ n true now m

dirty_gauges-SameFor :
    (now : Time) (a : Answer Bool) (n : Text) (m : Metrics) → SameFor n m (dirty_gauges now a m)
unfolding dirty_gauges
dirty_gauges-SameFor now (good b) n m = untouched m _ refl refl refl
dirty_gauges-SameFor now (bad e) n m = observe_git-SameFor _ n true now m

push_gauges-SameFor :
    (now : Time) (a : Answer Bool) (n : Text) (m : Metrics) → SameFor n m (push_gauges now a m)
unfolding push_gauges observe_git
push_gauges-SameFor now (good b) n m = untouched m _ refl refl refl
push_gauges-SameFor now (bad e) n m = untouched m _ refl refl refl

unpushed_gauges-SameFor :
    (now : Time) (a : Answer ℕ) (n : Text) (m : Metrics) → SameFor n m (unpushed_gauges now a m)
unfolding unpushed_gauges
unpushed_gauges-SameFor now (good k) n m = untouched m _ refl refl refl
unpushed_gauges-SameFor now (bad e) n m = observe_git-SameFor _ n true now m

module _ {S : Type 0} (api : StoreApi S) (format_time : Time → Text) where
  run_jobs-TableAgrees :
      (jobs : List Job) (r : Runner S)
      → TableAgrees r
      → TableAgrees (run_jobs api format_time jobs r).1
  unfolding run_jobs
  run_jobs-TableAgrees [] r h = h
  run_jobs-TableAgrees ((d, skipped) ∷ jobs) r h = run_jobs-TableAgrees jobs r h
  run_jobs-TableAgrees ((d, backed_up fetched t) ∷ jobs) r h =
      run_jobs-TableAgrees jobs _ (backup-TableAgrees api format_time d t fetched r h)

  sync-SameView :
      (times : RunTimes) (sum : RunSummary) (r : Runner S)
      → SameView r (sync_repo_metrics api format_time times sum r).1
  unfolding sync_repo_metrics
  sync-SameView times sum r =
      let now = times.status_time in
      let m1 = head_gauges now (api.head_commit r.store) r.metrics in
      let m2 = dirty_gauges now (api.dirty r.store) m1 in
      let two : (n : Text) → SameFor n r.metrics m2 = λ n.
        SameFor-trans (head_gauges-SameFor now (api.head_commit r.store) n r.metrics)
          (dirty_gauges-SameFor now (api.dirty r.store) n m1) in
      elim (Bool-cases r.cfg.repo.push.enabled) [
        | inl e ↦ rw e (record {
          same_states = refl;
          same_series = λ n. SameFor-trans (two n) (
              SameFor-trans (push_gauges-SameFor now (api.push r.store).0 n m2)
                (unpushed_gauges-SameFor now (api.unpushed (api.push r.store).1).0 n _));
        })
        | inr e ↦ rw e (record { same_states = refl; same_series = two })
      ]

  start_run-SameView : (r : Runner S) → SameView r (start_run api format_time r)
  unfolding start_run
  start_run-SameView r = record {
    same_states = refl;
    same_series = λ n. untouched _ _ refl refl refl;
  }

  finish_run-SameView :
      (times : RunTimes) (sum : RunSummary) (r : Runner S)
      → SameView r (finish_run api format_time times sum r)
  unfolding finish_run
  finish_run-SameView times sum r = record {
    same_states = refl;
    same_series = λ n. untouched _ _ refl refl refl;
  }

  -- A run keeps the agreement of the table and the collectors for every device, whether or not
  -- it gets the lock, and whatever the fates of its devices.
  pub run-TableAgrees :
      (times : RunTimes) (jobs : List Job) (r : Runner S)
      → TableAgrees r
      → TableAgrees (run api format_time times jobs r).1
  unfolding run
  run-TableAgrees times [] r h = ground_empty r.busy
    where
      ground_empty :
          (b : Bool)
          → TableAgrees (if b then (busy_error, r) else (run_locked api format_time times [] r)).1
      ground_empty true = h
      ground_empty false = h
  run-TableAgrees times (job ∷ jobs) r h =
      let (results, r') = run_jobs api format_time (job ∷ jobs) (start_run api format_time r) in
      let synced = sync_repo_metrics api format_time times (summarise times results) r' in
      elim (Bool-cases r.busy) [
        | inl e ↦ rw e h
        | inr e ↦ rw e (
            SameView-TableAgrees (finish_run-SameView times synced.0 synced.1) (
              SameView-TableAgrees (sync-SameView times (summarise times results) r') (
                run_jobs-TableAgrees (job ∷ jobs) (start_run api format_time r)
                  (SameView-TableAgrees (start_run-SameView r) h))))
      ]

  -- A run requested while another holds the lock is refused and changes nothing.
  pub run_while_busy :
      (times : RunTimes) (jobs : List Job) (r : Runner S)
      → r.busy ≡ true
      → run api format_time times jobs r ≡ (busy_error, r)
  unfolding run
  run_while_busy times jobs r h = rw h refl

  -- A run that gets the lock gives it back.
  pub run_unlocks :
      (times : RunTimes) (jobs : List Job) (r : Runner S)
      → r.busy ≡ false
      → (run api format_time times jobs r).1.busy ≡ false
  unfolding run finish_run
  run_unlocks times [] r h = rw h refl
  run_unlocks times (job ∷ jobs) r h = rw h refl
