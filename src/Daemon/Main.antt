-- ===== src/Daemon/Main.antt =====
-- main.go: a reload on SIGHUP, and a single pass.
use jconfig.Prelude.{
  ℕ, Bool, true, false, not, ◌&&◌, List, [], ◌∷◌, Option, none, some, ◌==◌, nat_equality,
  list_equality, ltb, if◌then◌else◌,
}
use jconfig.Prelude.Int.{pos, int_equality}
use jconfig.Prelude.Dict.{put}
use jconfig.Prelude.Answer.{Answer, good, bad, is_bad}
use jconfig.Prelude.Time.{Time, Duration}
use jconfig.Strings.Basic.{Text}
use jconfig.Config.Host.{Host}
use jconfig.Config.Types.{Config, Push, Repo, Device}
use jconfig.Config.Load.{loaded, refused, load}
use jconfig.Metrics.{observe_git, op_open}
use jconfig.Store.Api.{StoreApi}
use jconfig.Runner.Types.{Runner, RunSummary}
use jconfig.Runner.Table.{reload, set_store}
use jconfig.Runner.Run.{RunTimes, Job, RunAnswer, busy_error, unknown_device, summary, run_all}

abbrev bool_eq : Bool → Bool → Bool
bool_eq true b = b
bool_eq false b = not b

abbrev option_eq : Option Bool → Option Bool → Bool
option_eq none none = true
option_eq (some a) (some b) = bool_eq a b
option_eq _ _ = false

-- reflect.DeepEqual on the repository's settings
unfoldable pub same_push : Push → Push → Bool
same_push p q =
    bool_eq p.enabled q.enabled
    && p.remote == q.remote
    && p.url == q.url
    && p.branch == q.branch
    && p.key_file == q.key_file
    && p.key == q.key
    && p.key_passphrase == q.key_passphrase
    && p.known_hosts == q.known_hosts
    && bool_eq p.insecure_ignore_host_key q.insecure_ignore_host_key
    && p.username == q.username
    && p.password == q.password
    && p.timeout == q.timeout
    && bool_eq p.force q.force

unfoldable pub same_repo : Repo → Repo → Bool
unfolding same_push
same_repo a b =
    a.path == b.path
    && a.branch == b.branch
    && a.layout == b.layout
    && a.author_name == b.author_name
    && a.author_email == b.author_email
    && a.commit_prefix == b.commit_prefix
    && option_eq a.clone_init b.clone_init
    && same_push a.push b.push

-- config.Load: a file that cannot be read or decoded has no document.
abbrev pub load_file : Host → Option Config → Option Config
load_file host none = none
load_file host (some decoded) = elim (load host decoded) [
  | loaded cfg ↦ some cfg
  | refused es ↦ none
]

-- An exit with a failure, and its message.
pub data Failure : Type 0 where
  run_error : RunAnswer → Failure
  write_error : Text → Failure
  devices_failed : ℕ → ℕ → Failure
  push_failed : Text → Failure

unfoldable pub exit_of : RunSummary → Option Failure
exit_of sum =
    if ltb 0 sum.failed
    then some (devices_failed sum.failed sum.total)
    else if not (sum.push_error == [])
    then some (push_failed sum.push_error)
    else none

-- writeMetricsFile fails with `write`.
abbrev pub after_write : Option Text → RunSummary → Option Failure
after_write (some e) sum = some (write_error e)
after_write none sum = exit_of sum

-- The metrics file is written if its name is set.
abbrev pub after_pass : Text → Option Text → RunAnswer → Option Failure
after_pass file write busy_error = some (run_error busy_error)
after_pass file write (unknown_device name) = some (run_error (unknown_device name))
after_pass file write (summary sum) = if file == [] then exit_of sum else after_write write sum

module _ {S : Type 0} where
  -- What every way out of a failed reload does.
  unfoldable pub mark_failed : Text → Runner S → Runner S
  mark_failed path r =
      let m = r.metrics in
      record r { metrics = record m { config_load = put (path ∷ []) (pos 0) m.config_load } }

  abbrev pub after_open :
      Text → (Config → Runner S → Runner S) → Config → Runner S → Answer S → Runner S
  after_open path finish cfg r (bad e) = mark_failed path r
  after_open path finish cfg r (good st) = finish cfg (set_store st r)

  -- The repository's settings only take effect through a fresh handle.
  abbrev pub with_config :
      Text → (Config → Runner S → Runner S) → Answer S → Time → Runner S → Option Config → Runner S
  with_config path finish opened now r none = mark_failed path r
  with_config path finish opened now r (some cfg) =
      if same_repo r.cfg.repo cfg.repo
      then finish cfg r
      else after_open path finish cfg
          (record r { metrics = observe_git op_open (is_bad opened) now r.metrics }) opened

  -- reload; `opened` is what store.Open returns if it is called.
  unfoldable pub reload_config :
      Host
      → Text
      → (Text → Duration → Duration)
      → Time
      → Option Config
      → Answer S
      → Runner S
      → Runner S
  unfolding load same_repo mark_failed set_store reload
  reload_config host path draws now document opened r =
      with_config path (reload draws now) opened now r (load_file host document)

module _ {S : Type 0} (api : StoreApi S) (format_time : Time → Text) where
  -- runOnce: its error, which becomes the exit status.
  unfoldable pub run_once :
      RunTimes
      → (List Device → List Job)
      → Text
      → Option Text
      → Runner S
      → Option Failure × Runner S
  unfolding run_all exit_of
  run_once times fates file write r =
      let (answer, r') = run_all api format_time times fates r in (after_pass file write answer, r')
