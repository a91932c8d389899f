-- ===== src/Runner/Backup/Health.antt =====
-- The collectors and the table: what Prometheus sees of a device and what the runner knows of it.
use jconfig.Prelude.{
  ℕ, ◌+◌, ◌<◌, false, ◌≡◌, ◌≢◌, inl, inr, refl, sym, ap, ◌∙◌, Option, none, some, arith, ◌==◌,
  nat_equality, list_equality, text_eq, Bool-cases, if◌then◌else◌,
}
use mathlib.Core.Path.{subst}
use jconfig.Prelude.Dict.{get}
use jconfig.Prelude.Time.{Time}
use jconfig.Strings.Basic.{Text}
use jconfig.Config.Types.{Device}
use jconfig.Device.Result.{Error, stage_of, Fetched, Outcome, ok, failed}
use jconfig.Metrics.{Metrics, observe_success}
use jconfig.Metrics.Health.{
  IsFailing, IsHealthy, SameFor, IsFailing-SameFor, IsHealthy-SameFor, observe_failure-IsFailing,
  observe_success-IsHealthy,
}
use jconfig.Prelude.Answer.{Answer, good, bad}
use jconfig.Store.Api.{CommitResult, StoreApi}
use jconfig.Runner.Types.{State, Runner, Readings}
use jconfig.Runner.Table.{set_running, retry_delay}
use jconfig.Runner.Backup.{
  stage_git, change_metrics, begin, succeed, fetch_failed, commit_failed, committed, store_fetched,
  backup, after_commit, after_fetch,
}
use jconfig.Runner.Backup.Effect.{Touches, map_state, update-Touches}
use jconfig.Runner.Backup.Gauges.{info_metrics-SameFor}
use jconfig.Runner.Backup.Branches.{
  begun, fetch_failure, commit_failure, stopped, update-metrics, begin-Touches, begin-store,
  same_step, commit_step, step_of, answer_in, backup_step, backup-Touches,
}

-- The health series of a device say what its entry says. Before its first backup ends they
-- say nothing.
pub record Agrees (m : Metrics) (name : Text) (st : State) : Type 0 where
  pub failing : 0 < st.failures → IsFailing m name st.failures st.last_stage
  pub healthy : st.failures ≡ 0 → st.last_success ≢ none → IsHealthy m name

abbrev pub TableAgrees : {S : Type 0} → Runner S → Type 0
TableAgrees r = (name : Text) (st : State) → get name r.states ≡ some st → Agrees r.metrics name st

pub Agrees-SameFor :
    {n : Text} {m m' : Metrics} {st : State} → SameFor n m m' → Agrees m n st → Agrees m' n st
Agrees-SameFor s a = record {
  failing = λ h. IsFailing-SameFor s (a.failing h);
  healthy = λ h k. IsHealthy-SameFor s (a.healthy h k);
}

failing-Agrees :
    (m : Metrics) (n : Text) (k : ℕ) (st : State)
    → st.failures ≡ k + 1
    → IsFailing m n (k + 1) st.last_stage
    → Agrees m n st
failing-Agrees m n k st e f = record {
  failing = λ h. rw e f;
  healthy = λ h k'. absurd (omega arith);
}

healthy-Agrees :
    (m : Metrics) (n : Text) (st : State) → st.failures ≡ 0 → IsHealthy m n → Agrees m n st
healthy-Agrees m n st e h = record { failing = λ f. absurd (omega arith); healthy = λ f k. h }

module _ {S : Type 0} where
  pub self_entry :
      {d : Text} {f : State → State} {r r' : Runner S} (st : State)
      → Touches d f r r'
      → get d r.states ≡ some st
      → get d r'.states ≡ some (f st)
  self_entry {d} {f} st t h = t.states d ∙ (rw ((text_eq d d).1 refl) (ap (map_state f) h))

map_state-some :
    (f : State → State) (o : Option State) (st : State)
    → map_state f o ≡ some st
    → (old : State) × (o ≡ some old) × (f old ≡ st)
map_state-some f none st h = absurd (cc)
map_state-some f (some old) st h = (old, refl, cc)

module _ {S : Type 0} {d : Text} {f : State → State} {r r' : Runner S}
    (touched : Touches d f r r') where
  self-Agrees :
      ((old : State) → get d r.states ≡ some old → Agrees r'.metrics d (f old))
      → (st : State) → get d r'.states ≡ some st
      → Agrees r'.metrics d st
  self-Agrees own st h =
      let at_d : get d r'.states ≡ map_state f (get d r.states) =
        touched.states d ∙ (rw ((text_eq d d).1 refl)) in
      let (old, found, image) = map_state-some f (get d r.states) st (sym at_d ∙ h) in
      subst (Agrees r'.metrics d) image (own old found)

  other-Agrees :
      TableAgrees r
      → (n : Text) (st : State) → (d == n) ≡ false
      → get n r'.states ≡ some st
      → Agrees r'.metrics n st
  other-Agrees agrees n st e h =
      Agrees-SameFor (touched.others n e) (agrees n st (sym (touched.states n ∙ (rw e)) ∙ h))

  Touches-TableAgrees :
      ((old : State) → get d r.states ≡ some old → Agrees r'.metrics d (f old))
      → TableAgrees r
      → TableAgrees r'
  Touches-TableAgrees own agrees n st h = elim (Bool-cases (d == n)) [
    | inl e ↦
        subst (λ x. (st' : State) → get x r'.states ≡ some st' → Agrees r'.metrics x st')
          ((text_eq d n).0 e) (self-Agrees own) st h
    | inr e ↦ other-Agrees agrees n st e h
  ]

module _ {S : Type 0} (api : StoreApi S) (format_time : Time → Text) (d : Device)
    (t : Readings) where
  fetch_failed-IsFailing :
      (e : Error) (r : Runner S) (st : State)
      → get d.name r.states ≡ some st
      → IsFailing
          (fetch_failed api format_time d e t r).1.metrics
          d.name
          (st.failures + 1)
          (stage_of e)
  unfolding fetch_failed
  fetch_failed-IsFailing e r st h =
      rw (self_entry st (update-Touches d.name (fetch_failure (retry_delay d r) e t) r) h)
        (observe_failure-IsFailing d.name t.elapsed _ (stage_of e) (st.failures + 1))

  commit_failed-IsFailing :
      (e : Text) (r : Runner S) (st : State)
      → get d.name r.states ≡ some st
      → IsFailing
          (commit_failed api format_time d e t r).1.metrics
          d.name
          (st.failures + 1)
          stage_git
  unfolding commit_failed
  commit_failed-IsFailing e r st h =
      rw (self_entry st (update-Touches d.name (commit_failure (retry_delay d r) e t) r) h)
        (observe_failure-IsFailing d.name t.elapsed _ stage_git (st.failures + 1))

  pub committed-IsHealthy :
      (f : Fetched) (c : CommitResult) (r : Runner S)
      → IsHealthy (committed api format_time d f c t r).1.metrics d.name
  unfolding committed
  committed-IsHealthy f c r =
      let changed = if c.changed then change_metrics d.name t.now r.metrics else r.metrics in
      rw (update-metrics d.name _ _) (
        IsHealthy-SameFor
          (info_metrics-SameFor d f d.name (observe_success d.name t.now t.elapsed changed))
          (observe_success-IsHealthy d.name t.elapsed changed t.now))

  after_commit-Agrees :
      (f : Fetched) (r : Runner S) (a : Answer CommitResult) (st : State)
      → get d.name r.states ≡ some st
      → Agrees
          (after_commit api format_time d f t r a).1.metrics
          d.name
          (commit_step (retry_delay d r) d t f a st)
  unfolding succeed
  after_commit-Agrees f r (bad e) st h =
      failing-Agrees _ d.name st.failures _ refl (commit_failed-IsFailing e r st h)
  after_commit-Agrees f r (good c) st h =
      healthy-Agrees _ d.name (succeed d f c t st) refl (committed-IsHealthy f c r)

  after_fetch-Agrees :
      (fetched : Outcome) (r : Runner S) (st : State)
      → get d.name r.states ≡ some st
      → Agrees
          (after_fetch api format_time d t r fetched).1.metrics
          d.name
          (step_of (retry_delay d r) d t (answer_in api format_time r d t) fetched st)
  unfolding store_fetched retry_delay
  after_fetch-Agrees (failed e) r st h =
      failing-Agrees _ d.name st.failures _ refl (fetch_failed-IsFailing e r st h)
  after_fetch-Agrees (ok f) r st h = after_commit-Agrees f _ _ st h

  backup_self-Agrees :
      (fetched : Outcome) (r : Runner S) (st : State)
      → get d.name r.states ≡ some st
      → Agrees
          (backup api format_time d fetched t r).1.metrics
          d.name
          (backup_step api format_time d t r fetched st)
  unfolding backup set_running
  backup_self-Agrees fetched r st h =
      let started = begin api format_time d t r in
      let first = begin-Touches api format_time d t r in
      let agrees =
        subst
          (λ f.
            Agrees (after_fetch api format_time d t started fetched).1.metrics d.name
              (f (begun t st)))
          (same_step api format_time d t r started fetched first.same_cfg
            (begin-store api format_time d t r))
          (after_fetch-Agrees fetched started (begun t st) (self_entry st first h)) in
      rw (update-metrics d.name stopped (after_fetch api format_time d t started fetched).1)
        (record { failing = agrees.failing; healthy = agrees.healthy })

  -- The series that Prometheus reads agree with the runner's table before a backup, so they agree
  -- after it, for this device and for every other: a device whose last backup failed shows its
  -- count of failures in a row, a success gauge of 0 and an error in the last stage only, and a
  -- device whose last backup succeeded shows 0 failures, a success gauge of 1 and no error.
  pub backup-TableAgrees :
      (fetched : Outcome) (r : Runner S)
      → TableAgrees r
      → TableAgrees (backup api format_time d fetched t r).1
  backup-TableAgrees fetched r =
      Touches-TableAgrees (backup-Touches api format_time d t fetched r)
        (backup_self-Agrees fetched r)
