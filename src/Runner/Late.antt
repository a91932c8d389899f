-- ===== src/Runner/Late.antt =====
-- A backup that ends after a reload has removed its device.
use jconfig.Prelude.{
  List, [], ◌∷◌, ◌≡◌, refl, ◌∙◌, none, some, All, nat_equality, list_equality, text_eq,
}
use jconfig.Prelude.Int.{ℤ, pos}
use jconfig.Prelude.Dict.{get}
use jconfig.Prelude.Time.{Time, Duration}
use jconfig.Strings.Basic.{Text}
use jconfig.Config.Types.{Config, Device}
use jconfig.Device.Result.{stage_of, Fetched, Outcome, ok, failed}
use jconfig.Metrics.{Metrics, of_device}
use jconfig.Metrics.Laws.{IsForgotten}
use jconfig.Metrics.Health.{SameFor, SameFor-refl, SameFor-trans, observe_failure-IsFailing}
use jconfig.Prelude.Answer.{Answer, good, bad}
use jconfig.Store.Api.{StoreApi}
use jconfig.Runner.Types.{Runner, Readings}
use jconfig.Runner.Table.{reload}
use jconfig.Runner.Backup.{
  stage_git, fetch_failed, commit_failed, store_fetched, after_commit, after_fetch,
}
use jconfig.Runner.Backup.Branches.{after_fetch-Touches}
use jconfig.Runner.Backup.Health.{committed-IsHealthy}
use jconfig.Runner.Reload.{named, reload-get}
use jconfig.Runner.Reload.Agreement.{reload-SameFor_absent}

-- One reload: the random draws, the time and the configuration.
pub record Reloading : Type 0 where
  pub draws : Text → Duration → Duration
  pub at : Time
  pub cfg : Config

abbrev pub reload_once : {S : Type 0} → Reloading → Runner S → Runner S
reload_once one r = reload one.draws one.at one.cfg r

abbrev pub reload_each : {S : Type 0} → List Reloading → Runner S → Runner S
reload_each [] r = r
reload_each (one ∷ rest) r = reload_each rest (reload_once one r)

-- The configuration of a reload does not name the device.
abbrev pub Lacks : Text → Reloading → Type 0
Lacks n one = named n one.cfg.devices ≡ none

-- Reloads without the device leave it out of the table and its health series as they are.
reload_each-SameFor :
    {S : Type 0} (n : Text) (reloads : List Reloading) (r : Runner S)
    → get n r.states ≡ none
    → All (Lacks n) reloads
    → (get n (reload_each reloads r).states ≡ none)
      × SameFor n r.metrics (reload_each reloads r).metrics
reload_each-SameFor n [] r h lacking = (h, SameFor-refl n r.metrics)
reload_each-SameFor n (one ∷ rest) r h lacking =
    let absent : get n (reload_once one r).states ≡ none =
      reload-get one.draws one.at one.cfg r n ∙ (rw lacking.0 refl) in
    let (gone, kept) = reload_each-SameFor n rest (reload_once one r) absent lacking.1 in
    (gone, SameFor-trans (reload-SameFor_absent one.draws one.at one.cfg r n h) kept)

abbrev HasSuccessSeries : Text → Metrics → Type 0
HasSuccessSeries n m = (v : ℤ) × (get (n ∷ []) m.backup_success ≡ some v)

HasSuccessSeries-not-IsForgotten :
    (n : Text) (m : Metrics) → HasSuccessSeries n m → ¬ IsForgotten n m
HasSuccessSeries-not-IsForgotten n m (v, e) f =
    let gone = f.backup_success (n ∷ []) (unfold of_device in (text_eq n n).1 refl) in cc (gone, e)

module _ {S : Type 0} (api : StoreApi S) (format_time : Time → Text) (d : Device)
    (t : Readings) where
  after_commit-HasSuccessSeries :
      (f : Fetched) (r : Runner S) (a : Answer _)
      → HasSuccessSeries d.name (after_commit api format_time d f t r a).1.metrics
  unfolding commit_failed
  after_commit-HasSuccessSeries f r (bad e) =
      (pos 0, (observe_failure-IsFailing d.name t.elapsed _ stage_git _).success)
  after_commit-HasSuccessSeries f r (good c) =
      (pos 1, (committed-IsHealthy api format_time d t f c r).success)

  after_fetch-HasSuccessSeries :
      (fetched : Outcome) (r : Runner S)
      → HasSuccessSeries d.name (after_fetch api format_time d t r fetched).1.metrics
  unfolding fetch_failed store_fetched
  after_fetch-HasSuccessSeries (failed e) r =
      (pos 0, (observe_failure-IsFailing d.name t.elapsed _ (stage_of e) _).success)
  after_fetch-HasSuccessSeries (ok f) r = after_commit-HasSuccessSeries f _ _

  absent_after :
      (fetched : Outcome) (r : Runner S)
      → get d.name r.states ≡ none
      → get d.name (after_fetch api format_time d t r fetched).1.states ≡ none
  absent_after fetched r h =
      (after_fetch-Touches api format_time d t fetched r).states d.name
      ∙ (rw ((text_eq d.name d.name).1 refl) (rw h refl))

  -- If a device is not in the table when its backup ends, because a reload dropped it, the end of the
  -- backup creates series of the device again. They outlast any sequence of reloads to
  -- configurations without the device, and the reload after those, to whatever configuration.
  pub late_backup-not-IsForgotten :
      (fetched : Outcome) (r : Runner S) (reloads : List Reloading) (last : Reloading)
      → get d.name r.states ≡ none
      → All (Lacks d.name) reloads
      → ¬ IsForgotten d.name
          (reload_once last
            (reload_each reloads (after_fetch api format_time d t r fetched).1)).metrics
  late_backup-not-IsForgotten fetched r reloads last h lacking =
      let ended = (after_fetch api format_time d t r fetched).1 in
      let (absent, kept) =
        reload_each-SameFor d.name reloads ended (absent_after fetched r h) lacking in
      let kept_last =
        reload-SameFor_absent last.draws last.at last.cfg (reload_each reloads ended) d.name
          absent in
      let (v, e) = after_fetch-HasSuccessSeries fetched r in
      HasSuccessSeries-not-IsForgotten d.name _ (v, kept_last.success ∙ (kept.success ∙ e))
