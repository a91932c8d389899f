-- ===== src/Daemon/Life/Health.antt =====
-- The table and the health series of the daemon.
use jconfig.Prelude.{
  Bool, false, List, [], ◌∷◌, ◌≡◌, inl, inr, refl, Option, none, some, all, ◌==◌, nat_equality,
  list_equality, Bool-cases,
}
use jconfig.Prelude.Answer.{Answer, good, bad, is_bad}
use jconfig.Prelude.Time.{Time, Duration}
use jconfig.Strings.Basic.{Text, codes}
use jconfig.Config.Host.{Host}
use jconfig.Config.Types.{Config, Device}
use jconfig.Metrics.{Metrics, observe_git, op_open}
use jconfig.Store.Api.{StoreApi}
use jconfig.Prelude.Dict.{get}
use jconfig.Runner.Types.{State, Runner}
use jconfig.Runner.Table.{set_store, due_devices, reload}
use jconfig.Runner.Backup.Gauges.{observe_git-SameFor}
use jconfig.Runner.Backup.Health.{TableAgrees}
use jconfig.Runner.Reload.Agreement.{reload-TableAgrees}
use jconfig.Runner.Run.{run_all, run_device, run_due, run_found, run_if_any, find_device}
use jconfig.Runner.Run.Invariant.{SameView-TableAgrees, untouched, run-TableAgrees}
use jconfig.Daemon.Main.{load_file, same_repo, mark_failed, after_open, with_config, reload_config}
use jconfig.Daemon.Mux.{
  Request, Dispatch, serve, method_not_allowed, no_route, exposition, health, ready_probe, landing,
  devices, backup_trigger, index, dispatch, metrics_mux, management_mux,
}
use jconfig.Daemon.Http.{triggered, handle, handle_backup, served}
use jconfig.Daemon.Life.{
  Chances, Event, tick, hangup, scraped, managed, background, routes_of, new_runner, happen,
  live_through,
}

no_entry : (n : Text) (st : State) → get n [] ≡ some st → ⊥
unfolding get
no_entry n st h = cc

module _ {S : Type 0} where
  observed :
      (bad_open : Bool) (now : Time) (r : Runner S)
      → TableAgrees r
      → TableAgrees (record r { metrics = observe_git op_open bad_open now r.metrics })
  observed bad_open now r h =
      SameView-TableAgrees {r = r}
        {r' = record r { metrics = observe_git op_open bad_open now r.metrics }}
        (record {
          same_states = refl;
          same_series = λ n. observe_git-SameFor op_open n bad_open now r.metrics;
        })
        h

  marked : (path : Text) (r : Runner S) → TableAgrees r → TableAgrees (mark_failed path r)
  unfolding mark_failed
  marked path r h =
      SameView-TableAgrees {r = r} {r' = mark_failed path r}
        (record { same_states = refl; same_series = λ n. untouched _ _ refl refl refl }) h

module _ {S : Type 0} (path : Text) (draws : Text → Duration → Duration) (now : Time) where
  opened_anew :
      (cfg : Config) (r : Runner S) (a : Answer S)
      → TableAgrees r
      → TableAgrees (after_open path (reload draws now) cfg r a)
  unfolding set_store
  opened_anew cfg r (bad e) h = marked path r h
  opened_anew cfg r (good st) h = reload-TableAgrees draws now cfg (set_store st r) h

  configured :
      (opened : Answer S) (r : Runner S) (o : Option Config)
      → TableAgrees r
      → TableAgrees (with_config path (reload draws now) opened now r o)
  configured opened r none h = marked path r h
  configured opened r (some cfg) h = elim (Bool-cases (same_repo r.cfg.repo cfg.repo)) [
    | inl same ↦ rw same (reload-TableAgrees draws now cfg r h)
    | inr other ↦ rw other (opened_anew cfg _ opened (observed (is_bad opened) now r h))
  ]

module _ {S : Type 0} (api : StoreApi S) (format_time : Time → Text) where
  found_agrees :
      (c : Chances) (name : Text) (r : Runner S) (o : Option Device)
      → TableAgrees r
      → TableAgrees (run_found api format_time c.times c.fates name r o).1
  found_agrees c name r none h = h
  found_agrees c name r (some d) h = run-TableAgrees api format_time c.times (c.fates (d ∷ [])) r h

  triggered-TableAgrees :
      (c : Chances) (name : Text) (r : Runner S)
      → TableAgrees r
      → TableAgrees (triggered api format_time c.times c.fates name r).1
  unfolding triggered run_all run_device
  triggered-TableAgrees c name r h = elim (Bool-cases (name == [])) [
    | inl all ↦ rw all (run-TableAgrees api format_time c.times _ r h)
    | inr one ↦ rw one (found_agrees c name r (find_device api format_time name r.cfg.devices) h)
  ]

  backup_agrees :
      (c : Chances) (req : Request) (r : Runner S)
      → TableAgrees r
      → TableAgrees (handle_backup api format_time c.times c.fates req r).runner
  unfolding handle_backup
  backup_agrees c req r h = elim (Bool-cases (req.wait == codes "false")) [
    | inl detached ↦ rw detached h
    | inr waits ↦ rw waits (triggered-TableAgrees c req.device r h)
  ]

  served-TableAgrees :
      (path : Text) (c : Chances) (to : Dispatch) (req : Request) (r : Runner S)
      → TableAgrees r
      → TableAgrees (served api format_time path c.times c.fates to req r).runner
  unfolding handle
  served-TableAgrees path c (serve exposition) req r h = h
  served-TableAgrees path c (serve health) req r h = h
  served-TableAgrees path c (serve ready_probe) req r h = h
  served-TableAgrees path c (serve landing) req r h = h
  served-TableAgrees path c (serve devices) req r h = h
  served-TableAgrees path c (serve backup_trigger) req r h = backup_agrees c req r h
  served-TableAgrees path c (serve index) req r h = h
  served-TableAgrees path c method_not_allowed req r h = h
  served-TableAgrees path c no_route req r h = h

  due_agrees :
      (c : Chances) (due : List Device) (r : Runner S)
      → TableAgrees r
      → TableAgrees (run_if_any api format_time c.times c.fates due r)
  due_agrees c [] r h = h
  due_agrees c (d ∷ ds) r h = run-TableAgrees api format_time c.times _ r h

module _ {S : Type 0} (api : StoreApi S) (format_time : Time → Text) (host : Host)
    (path metrics_path : Text) where
  happen-TableAgrees :
      (e : Event S) (r : Runner S)
      → TableAgrees r
      → TableAgrees (happen api format_time host path metrics_path e r)
  unfolding happen reload_config run_due
  happen-TableAgrees (tick now c) r h = due_agrees api format_time c (due_devices now r) r h
  happen-TableAgrees (hangup draws now document opened) r h =
      configured path draws now opened r (load_file host document) h
  happen-TableAgrees (scraped c req) r h =
      served-TableAgrees api format_time _ c (dispatch (routes_of (metrics_mux metrics_path)) req)
        req r h
  happen-TableAgrees (managed c req) r h =
      served-TableAgrees api format_time _ c (dispatch management_mux req) req r h
  happen-TableAgrees (background c name) r h = triggered-TableAgrees api format_time c name r h

  live-TableAgrees :
      (events : List (Event S)) (r : Runner S)
      → TableAgrees r
      → TableAgrees (live_through api format_time host path metrics_path events r)
  unfolding live_through
  live-TableAgrees [] r h = h
  live-TableAgrees (e ∷ events) r h =
      live-TableAgrees events (happen api format_time host path metrics_path e r)
        (happen-TableAgrees e r h)

  -- A daemon that starts with any configuration keeps the health series of every device of its table
  -- in agreement with the device's entry, whatever ticks, reloads and requests come, in any order,
  -- each run taken as one step.
  pub daemon-TableAgrees :
      (draws : Text → Duration → Duration) (now : Time) (cfg : Config) (store : S) (m : Metrics)
      (events : List (Event S))
      → TableAgrees (
          live_through api format_time host path metrics_path events
            (new_runner draws now cfg store m))
  unfolding new_runner
  daemon-TableAgrees draws now cfg store m events = live-TableAgrees events _ (
      reload-TableAgrees draws now cfg
        (record { store = store; metrics = m; cfg = cfg; states = []; busy = false })
        (λ n st h. absurd (no_entry n st h)))
