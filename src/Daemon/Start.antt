-- ===== src/Daemon/Start.antt =====
-- main.go: run, up to the pass or the daemon that it starts, newLogger, and main's exit.
use jconfig.Prelude.{
  ℕ, Bool, false, ◌||◌, List, [], ◌++◌, map, Option, none, some, length, ◌==◌, nat_equality,
  list_equality, if◌then◌else◌,
}
use jconfig.Prelude.Answer.{Answer, good, bad}
use jconfig.Prelude.Time.{Time, Duration}
use jconfig.Strings.Basic.{Text, codes}
use jconfig.Strings.Decimal.{decimal}
use jconfig.Strings.Format.{quoted}
use jconfig.Config.Types.{Config, enabled_devices}
use jconfig.Config.Load.{loaded, refused}
use jconfig.Config.Env.{FileLoaded, unreadable, undecodable, examined}
use jconfig.Config.Validate.{Problem}
use jconfig.Junos.Xml.{to_lower}
use jconfig.Metrics.{Metrics, new, set_build_info, observe_git, op_open}
use jconfig.Runner.Types.{Runner}
use jconfig.Runner.Run.{RunAnswer, busy_error, unknown_device, summary}
use jconfig.Daemon.Main.{Failure, run_error, write_error, devices_failed, push_failed}
use jconfig.Daemon.Life.{new_runner}

pub record Flags : Type 0 where
  pub config_path : Text
  pub once : Bool
  pub check : Bool
  pub show_version : Bool
  pub log_level : Text
  pub metrics_file : Text

-- What the binary is.
pub record Build : Type 0 where
  pub version : Text
  pub commit : Text
  pub go_version : Text

-- What run comes to: it has said something and ends well, it fails, or a pass or the daemon begins.
pub data Launch (S : Type 0) : Type 0 where
  shown : Text → Launch S
  not_loaded : Text → Launch S
  invalid : List Problem → Launch S
  no_repository : Text → Launch S
  pass : Text → Runner S → Launch S
  daemon : Config → Runner S → Launch S

pub data Level : Type 0 where
  debug info warn error : Level

-- The level of newLogger. strings.ToLower is taken on ASCII.
unfoldable pub level_of : Text → Level
level_of log_level =
    let low = map to_lower log_level in
    if low == codes "debug"
    then debug
    else if low == codes "warn" || low == codes "warning"
    then warn
    else if low == codes "error"
    then error
    else info

-- Whether newLogger writes JSON. strings.EqualFold is taken on ASCII.
unfoldable pub logs_json : Config → Bool
logs_json cfg = map to_lower cfg.log_format == codes "json"

abbrev pub version_line : Build → Text
version_line b =
    codes "jconfig "
    ++ (b.version ++ (codes " (" ++ (b.commit ++ (codes ") " ++ (b.go_version ++ codes "\n")))))

unfoldable pub check_line : Text → Config → Text
unfolding decimal enabled_devices
check_line path cfg =
    path
    ++ (codes ": ok, "
        ++ (decimal (length cfg.devices)
            ++ (codes " devices ("
                ++ (decimal (length (enabled_devices cfg)) ++ codes " enabled)\n"))))

abbrev pub with_level : Text → Config → Config
with_level level cfg = if level == [] then cfg else record cfg { log_level = level }

module _ {S : Type 0} (flags : Flags) (build : Build) (draws : Text → Duration → Duration)
    (now : Time) (open_repo : Config → Answer S) where
  abbrev pub first_metrics : Bool → Metrics
  first_metrics failed =
      observe_git op_open failed now
        (set_build_info build.version build.commit build.go_version new)

  abbrev pub pass_or_serve : Config → Runner S → Launch S
  pass_or_serve cfg r = if flags.once then pass flags.metrics_file r else daemon cfg r

  abbrev pub after_opening : Config → Answer S → Launch S
  after_opening cfg (bad e) = no_repository e
  after_opening cfg (good st) =
      pass_or_serve cfg (new_runner draws now cfg st (first_metrics false))

  abbrev pub with_loaded : Config → Launch S
  with_loaded cfg =
      if flags.check
      then shown (check_line flags.config_path cfg)
      else after_opening cfg (open_repo cfg)

  abbrev pub after_load : FileLoaded → Launch S
  after_load (unreadable e) = not_loaded e
  after_load (undecodable e) = not_loaded e
  after_load (examined (refused problems)) = invalid problems
  after_load (examined (loaded cfg)) = with_loaded (with_level flags.log_level cfg)

  -- run; `document` is what config.Load returns if it is called.
  unfoldable pub start_up : FileLoaded → Launch S
  unfolding check_line new_runner set_build_info
  start_up document = if flags.show_version then shown (version_line build) else after_load document

-- The text of a failed pass.
abbrev pub answer_text : RunAnswer → Text
answer_text busy_error = codes "a backup run is already in progress"
answer_text (unknown_device name) = codes "unknown device " ++ quoted name
answer_text (summary sum) = []

unfoldable pub failure_text : Failure → Text
unfolding decimal
failure_text (run_error answer) = answer_text answer
failure_text (write_error e) = e
failure_text (devices_failed failed total) =
    decimal failed ++ (codes " of " ++ (decimal total ++ codes " devices failed"))
failure_text (push_failed e) = codes "push failed: " ++ e

-- main: the exit status and what is written to stderr.
unfoldable pub exit_status : Option Text → ℕ × Text
exit_status none = (0, [])
exit_status (some e) = (1, codes "jconfig: " ++ (e ++ codes "\n"))
