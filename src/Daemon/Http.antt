-- ===== src/Daemon/Http.antt =====
-- internal/httpapi/server.go: the handlers of the two sockets, up to the rendering of a response.
use jconfig.Prelude.{
  ℕ, ◌-◌, not, List, [], ◌++◌, map, Option, none, some, is_some, length, take, ◌==◌, nat_equality,
  list_equality, ltb, leb, if◌then◌else◌,
}
use jconfig.Prelude.Time.{Time}
use jconfig.Strings.Basic.{Text, codes, replace_all}
use jconfig.Strings.Space.{trim_space}
use jconfig.Config.Types.{Device}
use jconfig.Metrics.{Metrics}
use jconfig.Store.Api.{StoreApi}
use jconfig.Runner.Types.{State, RunSummary, Runner}
use jconfig.Runner.Table.{states_sorted}
use jconfig.Runner.Run.{
  RunTimes, Job, RunAnswer, busy_error, unknown_device, summary, run_all, run_device, ready,
}
use jconfig.Daemon.Mux.{
  Request, Handler, Dispatch, exposition, health, ready_probe, landing, devices, backup_trigger,
  index, serve, method_not_allowed, no_route,
}

-- The status column and the detail of a row of the index.
pub data Status : Type 0 where
  running : Status
  disabled : Status
  failed_times : ℕ → Status
  pending : Status
  fine : Status

unfoldable pub status_of : State → Status
status_of st =
    if st.running
    then running
    else if not st.enabled
    then disabled
    else if ltb 0 st.failures
    then failed_times st.failures
    else if is_some st.last_success
    then fine
    else pending

unfoldable pub truncate : Text → ℕ → Text
truncate s n =
    let flat = replace_all s (codes "\n") (codes " ") in
    if leb (length flat) n then flat else take (n - 3) flat ++ codes "..."

unfoldable pub detail_of : State → Text
unfolding truncate trim_space
detail_of st =
    let detail =
      if st.last_error == []
      then trim_space (st.model ++ (codes " " ++ st.os_version))
      else st.last_error in
    truncate detail 60

-- A row of the index, before its instants are rendered and its columns aligned.
pub record Row : Type 0 where
  pub state : State
  pub status : Status
  pub detail : Text

abbrev pub row_of : State → Row
row_of st = record { state = st; status = status_of st; detail = detail_of st }

-- What a response says.
pub data Body : Type 0 where
  series : Metrics → Body
  healthy : Body
  is_ready : Body
  not_ready : Text → Body
  landing_page : Text → Body
  device_states : List State → Body
  started : Text → Body
  run_refused : RunAnswer → Body
  report : RunSummary → Body
  rows : Text → List Row → Body
  not_found : Body

pub record Response : Type 0 where
  pub status : ℕ
  pub body : Body

abbrev pub respond : ℕ → Body → Response
respond status body = record { status = status; body = body }

-- The tail of handleBackup.
abbrev pub run_response : RunAnswer → Response
run_response busy_error = respond 409 (run_refused busy_error)
run_response (unknown_device name) = respond 400 (run_refused (unknown_device name))
run_response (summary sum) = respond 200 (report sum)

-- A response, what is left, and the run that was started in the background, by its device's name.
pub record Handled (S : Type 0) : Type 0 where
  pub response : Response
  pub runner : Runner S
  pub background : Option Text

module _ {S : Type 0} (api : StoreApi S) (format_time : Time → Text) where
  -- `do` of handleBackup
  unfoldable pub triggered :
      RunTimes → (List Device → List Job) → Text → Runner S → RunAnswer × Runner S
  unfolding run_all run_device
  triggered times fates device r =
      if device == []
      then run_all api format_time times fates r
      else run_device api format_time times fates device r

  unfoldable pub handle_backup :
      RunTimes → (List Device → List Job) → Request → Runner S → Handled S
  unfolding triggered
  handle_backup times fates req r =
      if req.wait == codes "false"
      then record {
        response = respond 202 (started req.device);
        runner = r;
        background = some req.device;
      }
      else let (answer, r') = triggered times fates req.device r in
        record { response = run_response answer; runner = r'; background = none }

  abbrev pub ready_response : Option Text → Response
  ready_response (some e) = respond 503 (not_ready e)
  ready_response none = respond 200 is_ready

  unfoldable pub handle_ready : Runner S → Response
  unfolding ready
  handle_ready r = ready_response (ready api format_time r)

  unfoldable pub handle_index : Request → Runner S → Response
  unfolding states_sorted status_of detail_of
  handle_index req r =
      if not (req.path == codes "/")
      then respond 404 not_found
      else respond 200 (rows r.cfg.repo.path (map row_of (states_sorted r)))

  unfoldable pub handle_landing : Text → Request → Response
  handle_landing path req =
      if not (req.path == codes "/") then respond 404 not_found else respond 200 (landing_page path)

  abbrev pub answer_only : Response → Runner S → Handled S
  answer_only response r = record { response = response; runner = r; background = none }

  -- A handler on a request.
  unfoldable pub handle :
      Text → RunTimes → (List Device → List Job) → Handler → Request → Runner S → Handled S
  unfolding handle_backup handle_ready handle_index handle_landing states_sorted
  handle path times fates exposition req r = answer_only (respond 200 (series r.metrics)) r
  handle path times fates health req r = answer_only (respond 200 healthy) r
  handle path times fates ready_probe req r = answer_only (handle_ready r) r
  handle path times fates landing req r = answer_only (handle_landing path req) r
  handle path times fates devices req r =
      answer_only (respond 200 (device_states (states_sorted r))) r
  handle path times fates backup_trigger req r = handle_backup times fates req r
  handle path times fates index req r = answer_only (handle_index req r) r

  abbrev pub served :
      Text → RunTimes → (List Device → List Job) → Dispatch → Request → Runner S → Handled S
  served path times fates (serve h) req r = handle path times fates h req r
  served path times fates method_not_allowed req r = answer_only (respond 405 not_found) r
  served path times fates no_route req r = answer_only (respond 404 not_found) r
