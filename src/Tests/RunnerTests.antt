-- ===== src/Tests/RunnerTests.antt =====
-- internal/runner: the theorems at concrete inputs.
use jconfig.Prelude.{
  ℕ, true, not, List, [], ◌∷◌, ◌≡◌, ◌↔◌, refl, some, arith, nat_equality, list_equality, list_beq,
}
use mathlib.Core.List.{Mem}
use jconfig.Prelude.Int.{pos, ◌+ℤ◌}
use jconfig.Prelude.Dict.{get}
use jconfig.Prelude.Time.{after}
use jconfig.Strings.Basic.{Text, codes, replace_all, trim}
use jconfig.Strings.Space.{trim_space}
use jconfig.Config.Types.{Config}
use jconfig.Device.Result.{Outcome, ok, failed, plain}
use jconfig.Metrics.Laws.{IsForgotten}
use jconfig.Runner.Types.{State, fresh, Runner, RunSummary}
use jconfig.Runner.Names.{sanitize_name}
use jconfig.Runner.Names.Safe.{IsComponent, sanitize_name-IsComponent}
use jconfig.Runner.Table.{reload, state_due, due_devices, retry_delay}
use jconfig.Runner.Backup.{backup, after_fetch}
use jconfig.Runner.Backup.Branches.{answer_in}
use jconfig.Runner.Backup.Health.{TableAgrees, backup-TableAgrees}
use jconfig.Runner.Run.{RunTimes, Job, backed_up, skipped, run, summary, busy_error}
use jconfig.Runner.Run.Summary.{IsConsistent, count_backed_up, run-IsConsistent}
use jconfig.Runner.Run.Invariant.{run_while_busy}
use jconfig.Runner.Reload.{named}
use jconfig.Runner.Reload.Entry.{HasEntry, reload-entry}
use jconfig.Runner.Reload.Forgotten.{reload-IsForgotten}
use jconfig.Runner.Late.{Reloading, reload_once, reload_each, late_backup-not-IsForgotten}
use jconfig.Runner.Due.{IsDue, delay_after, backup-due, due_devices-mem}
use jconfig.Tests.Samples.{device, config, counting, no_time, readings, fetched, runner}

sanitize_runs : sanitize_name (codes " ../core/mx1.. ") ≡ codes "__core_mx1_"
unfolding sanitize_name codes trim_space replace_all trim
sanitize_runs = refl

sanitize_name-IsComponent_example : IsComponent (sanitize_name (codes "../etc"))
sanitize_name-IsComponent_example = sanitize_name-IsComponent (codes "../etc")

abbrev fetch_error : Outcome
fetch_error = failed (plain (codes "timeout"))

-- At the start no backup has ended, so there is nothing to agree on.
runner-TableAgrees : TableAgrees runner
unfolding get
runner-TableAgrees name st h =
    let fresh_entry : fresh device.name ≡ st = only_entry name st h in
    rw (← fresh_entry)
      (record { failing = λ k. absurd (omega arith); healthy = λ k n. absurd (n refl) })
  where
    only_entry : (n : Text) (s : State) → get n runner.states ≡ some s → fresh device.name ≡ s
    only_entry n s k = ground arith

entry : get device.name runner.states ≡ some (fresh device.name)
unfolding get list_beq codes
entry = refl

backup-TableAgrees_example :
    TableAgrees (backup counting no_time device fetch_error readings runner).1
backup-TableAgrees_example =
    backup-TableAgrees counting no_time device readings fetch_error runner runner-TableAgrees

backup-due_example :
    state_due
      (pos 99)
      (get device.name (backup counting no_time device fetch_error readings runner).1.states)
    ≡ not (
        after
          (readings.now
            +ℤ delay_after
                (retry_delay device runner)
                device.interval
                (answer_in counting no_time runner device readings)
                fetch_error)
          (pos 99))
backup-due_example =
    backup-due counting no_time device readings fetch_error runner (fresh device.name) (pos 99)
      entry

due_devices-mem_example :
    Mem device (due_devices (pos 5) runner)
    ↔ (Mem device runner.cfg.devices × IsDue (pos 5) runner.states device)
due_devices-mem_example = due_devices-mem (pos 5) runner device

abbrev times : RunTimes
times = record { started = pos 10; elapsed = pos 5; status_time = pos 15; finished = pos 15 }

abbrev jobs : List Job
jobs = (device, backed_up (ok fetched) readings) ∷ (device, skipped) ∷ []

run-IsConsistent_example :
    (sum : RunSummary) × ((run counting no_time times jobs runner).0 ≡ summary sum)
    × IsConsistent sum
    × (sum.total ≡ count_backed_up jobs)
run-IsConsistent_example = run-IsConsistent counting no_time times jobs runner refl

abbrev busy_runner : Runner ℕ
busy_runner = record runner { busy = true }

run_while_busy_example : run counting no_time times jobs busy_runner ≡ (busy_error, busy_runner)
run_while_busy_example = run_while_busy counting no_time times jobs busy_runner refl

abbrev empty_config : Config
empty_config = record config { devices = [] }

reload-entry_example :
    HasEntry
      (λ n j. pos 0)
      (pos 20)
      config
      runner.states
      (named device.name config.devices)
      (get device.name (reload (λ n j. pos 0) (pos 20) config runner).states)
reload-entry_example = reload-entry (λ n j. pos 0) (pos 20) config runner device.name

reload-IsForgotten_example :
    IsForgotten device.name (reload (λ n j. pos 0) (pos 20) empty_config runner).metrics
reload-IsForgotten_example =
    reload-IsForgotten (λ n j. pos 0) (pos 20) empty_config runner device.name (fresh device.name)
      entry (unfold named in refl)

abbrev emptied : Runner ℕ
emptied = record runner { states = [] }

abbrev removal : Reloading
removal = record { draws = λ n j. pos 0; at = pos 20; cfg = empty_config }

abbrev return : Reloading
return = record { draws = λ n j. pos 0; at = pos 30; cfg = config }

late_backup-not-IsForgotten_example :
    ¬ IsForgotten device.name
      (reload_once return (
        reload_each
          (removal ∷ [])
          (after_fetch counting no_time device readings emptied fetch_error).1)).metrics
late_backup-not-IsForgotten_example =
    late_backup-not-IsForgotten counting no_time device readings fetch_error emptied (removal ∷ [])
      return (unfold get in refl) (unfold named in (refl, tt))
