-- ===== src/Daemon/Life.antt =====
-- The daemon as a whole: runner.New and Serve of internal/runner/runner.go, the loop over SIGHUP of
-- main.go, and the requests to the two sockets of internal/httpapi. Ticks, reloads and requests
-- come in any order. A run is one step here; Runner/Late is about a reload in the middle of a
-- backup, and Runner/Slots about the goroutines of a run.
pub mod Health
use jconfig.Prelude.{
  ℕ, zero, suc, ◌+◌, ◌-◌, ◌*◌, ◌/◌, ◌%◌, ◌≤◌, ◌<◌, Bool, true, false, not, ◌&&◌, ◌||◌, List, [],
  ◌∷◌, ◌++◌, map, ◌≡◌, ◌≢◌, ◌↔◌, ◌⊎◌, inl, inr, refl, sym, ap, ◌∙◌, Option, none, some, is_some,
  arith, keep, any, all, All, all-append, All-append, All-map, length, take, drop, length-append,
  Equality, ◌==◌, nat_equality, list_equality, list_beq, text_eq, nat_beq, ltb, leb, Bool-cases,
  Option-cases, if◌then◌else◌,
}
use jconfig.Prelude.Answer.{Answer}
use jconfig.Prelude.Time.{Time, Duration}
use jconfig.Strings.Basic.{Text}
use jconfig.Config.Host.{Host}
use jconfig.Config.Types.{Config, Device}
use jconfig.Metrics.{Metrics}
use jconfig.Store.Api.{StoreApi}
use jconfig.Runner.Types.{Runner}
use jconfig.Runner.Table.{reload}
use jconfig.Runner.Run.{RunTimes, Job, run_due}
use jconfig.Daemon.Main.{reload_config}
use jconfig.Daemon.Mux.{Request, Route, dispatch, metrics_mux, management_mux}
use jconfig.Daemon.Http.{Handled, triggered, served}

-- runner.New
unfoldable pub new_runner :
    {S : Type 0} → (Text → Duration → Duration) → Time → Config → S → Metrics → Runner S
unfolding reload
new_runner draws now cfg store m =
    reload draws now cfg
      (record { store = store; metrics = m; cfg = cfg; states = []; busy = false })

-- What a run takes from outside: its clock readings and what becomes of the devices.
pub record Chances : Type 0 where
  pub times : RunTimes
  pub fates : List Device → List Job

-- A tick of the scheduler, a SIGHUP with the document and the repository that it finds, a request
-- to the metrics or the management socket, and a run that a request started in the background.
pub data Event (S : Type 0) : Type 0 where
  tick : Time → Chances → Event S
  hangup : (Text → Duration → Duration) → Time → Option Config → Answer S → Event S
  scraped : Chances → Request → Event S
  managed : Chances → Request → Event S
  background : Chances → Text → Event S

-- A mux that could not be built serves nothing.
abbrev pub routes_of : Option (List Route) → List Route
routes_of none = []
routes_of (some routes) = routes

-- `path` is the configuration's file. The servers are made once, with the first metrics path.
module _ {S : Type 0} (api : StoreApi S) (format_time : Time → Text) (host : Host)
    (path metrics_path : Text) where
  -- The rounds of Serve: the devices that are due are run at the start and at every tick.
  unfoldable pub serve_ticks : List (Time × Chances) → Runner S → Runner S
  unfolding run_due
  serve_ticks [] r = r
  serve_ticks ((now, c) ∷ ticks) r =
      serve_ticks ticks (run_due api format_time now c.times c.fates r)

  abbrev pub requested : List Route → Chances → Request → Runner S → Handled S
  requested routes c req r =
      served api format_time metrics_path c.times c.fates (dispatch routes req) req r

  unfoldable pub happen : Event S → Runner S → Runner S
  unfolding run_due reload_config metrics_mux management_mux dispatch triggered
  happen (tick now c) r = run_due api format_time now c.times c.fates r
  happen (hangup draws now document opened) r = reload_config host path draws now document opened r
  happen (scraped c req) r = (requested (routes_of (metrics_mux metrics_path)) c req r).runner
  happen (managed c req) r = (requested management_mux c req r).runner
  happen (background c name) r = (triggered api format_time c.times c.fates name r).1

  unfoldable pub live_through : List (Event S) → Runner S → Runner S
  unfolding happen
  live_through [] r = r
  live_through (e ∷ events) r = live_through events (happen e r)
