-- ===== src/Tests/DaemonTests.antt =====
-- main.go and internal/httpapi: runs, and the theorems at concrete inputs.
use jconfig.Prelude.{
  List, [], ◌∷◌, map, ◌≡◌, ◌↔◌, ◌⊎◌, refl, none, some, nat_equality, list_equality, list_beq,
}
use jconfig.Prelude.Int.{pos}
use jconfig.Prelude.Answer.{bad}
use jconfig.Prelude.Time.{Duration}
use jconfig.Strings.Basic.{Text, codes}
use jconfig.Config.Types.{Device}
use jconfig.Device.Result.{ok}
use jconfig.Runner.Run.{RunTimes, Job, backed_up, run_all}
use jconfig.Daemon.Main.{reload_config, run_once}
use jconfig.Daemon.Reloads.{IsKept, IsReplaced, reload_config-all_or_nothing}
use jconfig.Daemon.Pass.{IsClean, run_once-IsClean}
use jconfig.Daemon.Mux.{
  Request, Route, get_method, post_method, exposition, probe_routes, metrics_mux, management_mux,
  dispatch, serve, backup_trigger, index,
}
use jconfig.Daemon.Http.{served}
use jconfig.Daemon.Routes.{IsUntouched, management-backup_only}
use jconfig.Tests.Samples.{runner, counting, no_time, readings, fetched}
use jconfig.Tests.ConfigTests.{host, decoded}

abbrev no_jitter : Text → Duration → Duration
no_jitter name j = pos 0

reload_config-all_or_nothing_example :
    IsKept (codes "jconfig.yml") runner (
      reload_config host
        (codes "jconfig.yml")
        no_jitter
        (pos 5)
        (some decoded)
        (bad (codes "no"))
        runner)
    ⊎ IsReplaced host (some decoded) (bad (codes "no")) runner (
        reload_config host
          (codes "jconfig.yml")
          no_jitter
          (pos 5)
          (some decoded)
          (bad (codes "no"))
          runner)
reload_config-all_or_nothing_example =
    reload_config-all_or_nothing host (codes "jconfig.yml") no_jitter (pos 5) (some decoded)
      (bad (codes "no")) runner

abbrev times : RunTimes
times = record { started = pos 1; elapsed = pos 2; status_time = pos 3; finished = pos 4 }

abbrev all_fetched : List Device → List Job
all_fetched ds = map (λ d. (d, backed_up (ok fetched) readings)) ds

run_once-IsClean_example :
    ((run_once counting no_time times all_fetched [] none runner).0 ≡ none)
    ↔ IsClean [] none (run_all counting no_time times all_fetched runner).0
run_once-IsClean_example = run_once-IsClean counting no_time times all_fetched [] none runner

abbrev post_backup : Request
post_backup = record { method = post_method; path = codes "/backup"; device = []; wait = [] }

abbrev get_backup : Request
get_backup = record { method = get_method; path = codes "/backup"; device = []; wait = [] }

routes_run :
    (dispatch management_mux post_backup ≡ serve backup_trigger)
    × (dispatch management_mux get_backup ≡ serve index)
unfolding dispatch management_mux codes list_beq
routes_run = (refl, refl)

abbrev routes : List Route
routes =
    record { method = get_method; path = codes "/metrics"; handler = exposition } ∷ probe_routes

mux_runs : metrics_mux [] ≡ some routes
unfolding metrics_mux codes list_beq
mux_runs = refl

-- The exposition cannot be served at the path of a probe: registering it panics.
mux_panics : metrics_mux (codes "/healthz") ≡ none
unfolding metrics_mux codes list_beq
mux_panics = refl

management-backup_only_example :
    IsUntouched runner (
      served counting no_time [] times all_fetched
        (dispatch management_mux get_backup)
        get_backup
        runner)
    ⊎ ((get_backup.method ≡ post_method) × (get_backup.path ≡ codes "/backup"))
management-backup_only_example =
    management-backup_only counting no_time [] times all_fetched get_backup runner
