-- ===== src/Runner/Run/Summary.antt =====
-- What the summary of a run says.
use jconfig.Prelude.{
  ℕ, ◌+◌, ◌≤◌, Bool, true, false, List, [], ◌∷◌, ◌≡◌, inl, inr, refl, sym, ap, ◌∙◌, arith, All,
  length, nat_equality, list_equality, Bool-cases, if◌then◌else◌,
}
use jconfig.Prelude.Time.{Time}
use jconfig.Strings.Basic.{Text}
use jconfig.Strings.Order.{sort_by, IsSorted, sort_by-IsSorted, weigh, weigh-sort_by}
use jconfig.Device.Result.{Fetched, Outcome, ok, failed}
use jconfig.Config.Types.{Device}
use jconfig.Prelude.Answer.{Answer, good, bad}
use jconfig.Store.Api.{CommitResult, StoreApi}
use jconfig.Runner.Types.{DeviceResult, RunSummary, Runner, Readings}
use jconfig.Runner.Backup.{
  fetch_failed, commit_failed, committed, store_fetched, backup, begin, after_commit, after_fetch,
}
use jconfig.Runner.Run.{
  Job, skipped, backed_up, RunTimes, summary, count_ok, count_failed, count_changed, summarise,
  empty_summary, noted_push, run_jobs, start_run, sync_repo_metrics, run,
}

count_total :
    (results : List DeviceResult) → count_ok results + count_failed results ≡ length results
unfolding count_ok count_failed
count_total [] = omega arith
count_total (res ∷ rest) = ground (arith, count_total rest)

-- A result that reports a change reports success.
abbrev IsHonest : DeviceResult → Type 0
IsHonest res = res.changed ≡ true → res.succeeded ≡ true

count_changed-le :
    (results : List DeviceResult) → All IsHonest results → count_changed results ≤ count_ok results
unfolding count_ok count_changed
count_changed-le [] h = omega arith
count_changed-le (res ∷ rest) h = ground (arith, h.0, count_changed-le rest h.1)

-- The summary's figures and its list of results belong together.
pub record IsConsistent (sum : RunSummary) : Type 0 where
  pub total_is : sum.total ≡ length sum.devices
  pub split : sum.succeeded + sum.failed ≡ sum.total
  pub counted_ok : sum.succeeded ≡ count_ok sum.devices
  pub changed_le : sum.changed ≤ sum.succeeded
  pub sorted : IsSorted (λ (res : DeviceResult). res.device) sum.devices

abbrev ok_weight : DeviceResult → ℕ
ok_weight res = if res.succeeded then 1 else 0

count_ok-weigh : (results : List DeviceResult) → count_ok results ≡ weigh ok_weight results
unfolding count_ok weigh
count_ok-weigh [] = refl
count_ok-weigh (res ∷ rest) = ap (◌+◌ (ok_weight res)) (count_ok-weigh rest)

length-weigh : (results : List DeviceResult) → length results ≡ weigh (λ _. 1) results
unfolding weigh
length-weigh [] = refl
length-weigh (res ∷ rest) = omega (arith, length-weigh rest)

summarise-IsConsistent :
    (times : RunTimes) (results : List DeviceResult)
    → All IsHonest results
    → IsConsistent (summarise times results)
unfolding summarise
summarise-IsConsistent times results h =
    let sorted = sort_by (λ (res : DeviceResult). res.device) results in
    record {
      total_is =
          length-weigh results
          ∙ sym (weigh-sort_by (λ _. 1) (λ res. res.device) results)
          ∙ sym (length-weigh sorted);
      split = count_total results;
      counted_ok =
          count_ok-weigh results
          ∙ sym (weigh-sort_by ok_weight (λ res. res.device) results)
          ∙ sym (count_ok-weigh sorted);
      changed_le = count_changed-le results h;
      sorted = sort_by-IsSorted (λ res. res.device) results;
    }

summarise-total :
    (times : RunTimes) (results : List DeviceResult)
    → (summarise times results).total ≡ length results
unfolding summarise
summarise-total times results = refl

-- How many devices were backed up, not skipped.
unfoldable pub count_backed_up : List Job → ℕ
count_backed_up [] = 0
count_backed_up ((d, skipped) ∷ jobs) = count_backed_up jobs
count_backed_up ((d, backed_up fetched t) ∷ jobs) = 1 + count_backed_up jobs

module _ {S : Type 0} (api : StoreApi S) (format_time : Time → Text) where
  after_commit-IsHonest :
      (d : Device) (f : Fetched) (t : Readings) (r : Runner S) (a : Answer CommitResult)
      → IsHonest (after_commit api format_time d f t r a).0
  unfolding commit_failed committed
  after_commit-IsHonest d f t r (bad e) h = h
  after_commit-IsHonest d f t r (good c) h = refl

  after_fetch-IsHonest :
      (d : Device) (t : Readings) (r : Runner S) (fetched : Outcome)
      → IsHonest (after_fetch api format_time d t r fetched).0
  unfolding fetch_failed store_fetched
  after_fetch-IsHonest d t r (failed e) h = h
  after_fetch-IsHonest d t r (ok f) h = after_commit-IsHonest d f t _ _ h

  run_jobs-IsHonest :
      (jobs : List Job) (r : Runner S) → All IsHonest (run_jobs api format_time jobs r).0
  unfolding run_jobs backup
  run_jobs-IsHonest [] r = tt
  run_jobs-IsHonest ((d, skipped) ∷ jobs) r = run_jobs-IsHonest jobs r
  run_jobs-IsHonest ((d, backed_up fetched t) ∷ jobs) r =
      (after_fetch-IsHonest d t (begin api format_time d t r) fetched, run_jobs-IsHonest jobs _)

  length-run_jobs :
      (jobs : List Job) (r : Runner S)
      → length (run_jobs api format_time jobs r).0 ≡ count_backed_up jobs
  unfolding run_jobs count_backed_up
  length-run_jobs [] r = refl
  length-run_jobs ((d, skipped) ∷ jobs) r = length-run_jobs jobs r
  length-run_jobs ((d, backed_up fetched t) ∷ jobs) r =
      omega (arith, length-run_jobs jobs (backup api format_time d fetched t r).1)

  noted_push-IsConsistent :
      (answer : Answer Bool) (sum : RunSummary)
      → IsConsistent sum
      → IsConsistent (noted_push answer sum)
  unfolding noted_push
  noted_push-IsConsistent (bad e) sum c = record {
    total_is = c.total_is;
    split = c.split;
    counted_ok = c.counted_ok;
    changed_le = c.changed_le;
    sorted = c.sorted;
  }
  noted_push-IsConsistent (good b) sum c = record {
    total_is = c.total_is;
    split = c.split;
    counted_ok = c.counted_ok;
    changed_le = c.changed_le;
    sorted = c.sorted;
  }

  noted_push-total :
      (answer : Answer Bool) (sum : RunSummary) → (noted_push answer sum).total ≡ sum.total
  unfolding noted_push
  noted_push-total (bad e) sum = refl
  noted_push-total (good b) sum = refl

  sync-IsConsistent :
      (times : RunTimes) (sum : RunSummary) (r : Runner S)
      → IsConsistent sum
      → IsConsistent (sync_repo_metrics api format_time times sum r).0
        × ((sync_repo_metrics api format_time times sum r).0.total ≡ sum.total)
  unfolding sync_repo_metrics
  sync-IsConsistent times sum r c = elim (Bool-cases r.cfg.repo.push.enabled) [
    | inl e ↦ rw e (
      noted_push-IsConsistent (api.push r.store).0 sum c,
      noted_push-total (api.push r.store).0 sum,
    )
    | inr e ↦ rw e (c, refl)
  ]

  -- A run that gets the lock reports a summary: as many results as devices were backed up, each
  -- of them a success or a failure, no more changes than successes, and the results sorted by
  -- device.
  pub run-IsConsistent :
      (times : RunTimes) (jobs : List Job) (r : Runner S)
      → r.busy ≡ false
      → (sum : RunSummary) × ((run api format_time times jobs r).0 ≡ summary sum)
        × IsConsistent sum
        × (sum.total ≡ count_backed_up jobs)
  unfolding run
  run-IsConsistent times [] r h =
      (empty_summary times.started, rw h refl, empty, unfold count_backed_up in refl)
    where
      empty : IsConsistent (empty_summary times.started)
      empty = record {
        total_is = refl;
        split = refl;
        counted_ok = unfold count_ok in refl;
        changed_le = omega arith;
        sorted = tt;
      }
  run-IsConsistent times (job ∷ jobs) r h =
      let (results, r') = run_jobs api format_time (job ∷ jobs) (start_run api format_time r) in
      let (c, n) =
        sync-IsConsistent times (summarise times results) r'
          (summarise-IsConsistent times results (run_jobs-IsHonest (job ∷ jobs) _)) in
      (
        (sync_repo_metrics api format_time times (summarise times results) r').0,
        rw h refl,
        c,
        n ∙ summarise-total times results ∙ length-run_jobs (job ∷ jobs) _,
      )
